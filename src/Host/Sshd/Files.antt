-- ===== src/Host/Sshd/Files.antt =====
-- The two files that WriteSSHConfig leaves.
use ziti_ssh.Prelude.{◌≡◌, ap, ok, some, arith, if◌then◌else◌}
use ziti_ssh.Text.{Text, text_eq}
use ziti_ssh.Dict.{lookup}
use ziti_ssh.Disk.{Disk, Run}
use ziti_ssh.Config.AtomicWrite.{WriteError, host_atomic_write_file}
use ziti_ssh.Config.AtomicWrite.Laws.{FreshTemp}
use ziti_ssh.Config.AtomicWrite.Host.{host_atomic_write_file_done}
use ziti_ssh.Host.Sshd.{SshdCalls, sshd_mode, sshd_conf, write_conf, write_ssh_config}

module _ (c : SshdCalls) (body conf_path key_path : Text) (d : Disk) where
  -- the disk between the two writes
  abbrev pub key_written : Disk
  key_written = (host_atomic_write_file c.key_calls key_path body sshd_mode d).disk

  abbrev pub conf_run : Run WriteError
  conf_run =
      host_atomic_write_file c.conf_calls conf_path (sshd_conf key_path) sshd_mode key_written

  abbrev pub FreshTemps : Type 0
  FreshTemps =
      FreshTemp c.key_calls key_path body sshd_mode d
      × FreshTemp c.conf_calls conf_path (sshd_conf key_path) sshd_mode key_written

  written_both :
      (write_ssh_config c body conf_path key_path d).0 ≡ ok tt
      → ((host_atomic_write_file c.key_calls key_path body sshd_mode d).result ≡ ok tt)
        × (conf_run.result ≡ ok tt)
        × ((write_ssh_config c body conf_path key_path d).1 ≡ conf_run.disk)
  unfolding write_ssh_config write_conf
  written_both h = ground (arith, h)

  -- If WriteSSHConfig returns no error, the key file has the keys, the snippet names the key file,
  -- and no other file has changed, if the temporary names were free and are not their destinations.
  pub write_ssh_config_done :
      (k : Text)
      → FreshTemps
      → (write_ssh_config c body conf_path key_path d).0 ≡ ok tt
      → lookup k (write_ssh_config c body conf_path key_path d).1 ≡ (
          if text_eq conf_path k
          then some (record { content = sshd_conf key_path; mode = sshd_mode })
          else if text_eq key_path k
          then some (record { content = body; mode = sshd_mode })
          else lookup k d)
  write_ssh_config_done k fresh h =
      let both = written_both h in
      ground (
        arith,
        ap (lookup k) both.2,
        host_atomic_write_file_done c.key_calls key_path body sshd_mode d k fresh.0 both.0,
        host_atomic_write_file_done c.conf_calls conf_path (sshd_conf key_path) sshd_mode
            key_written k fresh.1 both.1,
      )
