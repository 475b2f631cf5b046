-- ===== src/Tests/Transfers.antt =====
-- A script that is uploaded with -p, and downloaded over an older copy; and a size that is shown.
use ziti_ssh.Prelude.{ℕ, ◌≡◌, refl, true, [], ◌∷◌, none, some, ok}
use ziti_ssh.Text.{codes, text_dec}
use ziti_ssh.Dict.{lookup, insert}
use ziti_ssh.Disk.{File, Disk}
use ziti_ssh.Client.FileCopy.{
  CopyCalls, permissions, opened_mode, copy_file, source_file, upload_file, download_file,
}
use ziti_ssh.Client.FileCopy.Laws.{IsReturned, download_file-upload_file}

abbrev copy_calls : CopyCalls
copy_calls = record {
  open_ok = true;
  stat_ok = true;
  make_dir_ok = true;
  create_ok = true;
  chmod_ok = true;
  broken_after = none;
  chtimes_ok = true;
}

abbrev script : File
script = record { content = codes "echo"; mode = 0o755 }

abbrev here : Disk
here = (codes "a", script) ∷ []

abbrev old_copy : Disk
old_copy = (codes "b", record { content = codes "old"; mode = 0o600 }) ∷ []

abbrev kept_mode : ℕ → ℕ
kept_mode m = m

uploaded : (upload_file 0o644 copy_calls true (codes "a") (codes "r") here []).result ≡ ok tt
unfolding upload_file source_file copy_file lookup text_dec
uploaded = refl

downloaded :
    (download_file kept_mode copy_calls true
      (codes "r")
      (codes "b")
      (upload_file 0o644 copy_calls true (codes "a") (codes "r") here []).disk
      old_copy).result
    ≡ ok tt
unfolding download_file upload_file source_file copy_file lookup insert text_dec permissions
    opened_mode
downloaded = refl

download_file-upload_file_example :
    (f : File) × (g : File) × (lookup (codes "a") here ≡ some f)
    × (lookup
          (codes "b")
          (download_file kept_mode copy_calls true
            (codes "r")
            (codes "b")
            (upload_file 0o644 copy_calls true (codes "a") (codes "r") here []).disk
            old_copy).disk
        ≡ some g)
    × IsReturned true true kept_mode f (lookup (codes "b") old_copy) g
download_file-upload_file_example =
    download_file-upload_file 0o644 kept_mode copy_calls copy_calls true (codes "a") (codes "r")
      (codes "b") here [] old_copy uploaded downloaded
