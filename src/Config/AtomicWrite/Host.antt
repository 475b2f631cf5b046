-- ===== src/Config/AtomicWrite/Host.antt =====
-- The copy in package host, where it succeeds, has done what config.AtomicWriteFile does.
use ziti_ssh.Prelude.{ℕ, ◌≡◌, Option, none, some, ok, arith, if◌then◌else◌, ◌∙◌, ap}
use ziti_ssh.Text.{Text, text_eq}
use ziti_ssh.Dict.{lookup}
use ziti_ssh.Disk.{Disk}
use ziti_ssh.Config.AtomicWrite.{
  Calls, atomic_write_file, host_atomic_write_file, stage, fill, plain_finish, host_finish,
}
use ziti_ssh.Config.AtomicWrite.Laws.{FreshTemp, atomic_write_file_done, new_file}

module _ (c : Calls) (dest body : Text) (mode : ℕ) (d : Disk) where
  fill_host :
      (tmp : Text)
      → (fill c (host_finish c) dest body mode d tmp).result ≡ ok tt
      → ((fill c plain_finish dest body mode d tmp).result ≡ ok tt)
        × ((fill c (host_finish c) dest body mode d tmp).disk
            ≡ (fill c plain_finish dest body mode d tmp).disk)
  unfolding fill plain_finish host_finish
  fill_host tmp h = ground (arith, h)

  stage_host :
      (name : Option Text)
      → (stage c (host_finish c) dest body mode d name).result ≡ ok tt
      → ((stage c plain_finish dest body mode d name).result ≡ ok tt)
        × ((stage c (host_finish c) dest body mode d name).disk
            ≡ (stage c plain_finish dest body mode d name).disk)
  unfolding stage
  stage_host none h = cc
  stage_host (some tmp) h = fill_host tmp h

  -- A write of the copy that succeeds has put the body at the destination, with its mode, and
  -- changed no other file.
  pub host_atomic_write_file_done :
      (k : Text)
      → FreshTemp c dest body mode d
      → (host_atomic_write_file c dest body mode d).result ≡ ok tt
      → lookup k (host_atomic_write_file c dest body mode d).disk
        ≡ (if text_eq dest k then some (new_file c dest body mode d) else lookup k d)
  unfolding host_atomic_write_file
  host_atomic_write_file_done k fresh h =
      let both = stage_host c.tmp_name h in
      ap (lookup k) both.1
      ∙ (unfold atomic_write_file in atomic_write_file_done c dest body mode d k fresh both.0)
