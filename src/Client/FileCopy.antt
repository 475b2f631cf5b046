-- ===== src/Client/FileCopy.antt =====
-- uploadFile and downloadFile of client/sftp.go: one file, from a disk to another. The answers of the
-- calls are inputs; the progress that is shown changes nothing, and an error of Chmod, Chtimes and
-- Close is dropped, as in the source.
pub mod Laws
use ziti_ssh.Prelude.{
  ℕ, Bool, true, false, not, ◌&&◌, [], if◌then◌else◌, Option, none, some, Result, ok, err, take,
}
use ziti_ssh.Text.{Text}
use ziti_ssh.Dict.{lookup, insert}
use ziti_ssh.Disk.{File, Disk}

pub data CopyError : Type 0 where
  source_not_opened no_directory target_not_opened not_copied : CopyError

-- A copy that fails has written a number of bytes before.
pub record CopyCalls : Type 0 where
  pub open_ok : Bool
  pub stat_ok : Bool
  pub make_dir_ok : Bool
  pub create_ok : Bool
  pub chmod_ok : Bool
  pub broken_after : Option ℕ
  pub chtimes_ok : Bool

-- The result, the disk of the target, and whether the target got the times of the source.
pub record FileCopied : Type 0 where
  pub result : Result CopyError (Unit {0})
  pub disk : Disk
  pub with_times : Bool

-- perm
unfoldable pub permissions : (preserve : Bool) → File → ℕ
permissions preserve f = if preserve then f.mode else 0o644

-- the mode of a file that is opened with O_CREATE: a file that is there keeps its own
unfoldable pub opened_mode : ℕ → Option File → ℕ
opened_mode mode none = mode
opened_mode mode (some f) = f.mode

-- io.Copy, and Chtimes after it
unfoldable pub copy_file :
    CopyCalls → (preserve : Bool) → File → (target : Text) → ℕ → Disk → FileCopied
copy_file c preserve f target mode d = elim c.broken_after [
  | some n ↦ record {
    result = err not_copied;
    disk = insert target (record { content = take n f.content; mode = mode }) d;
    with_times = false;
  }
  | none ↦ record {
    result = ok tt;
    disk = insert target (record { content = f.content; mode = mode }) d;
    with_times = preserve && c.chtimes_ok;
  }
]

abbrev unchanged : CopyError → Disk → FileCopied
unchanged e d = record { result = err e; disk = d; with_times = false }

-- Open and Stat
unfoldable pub source_file : CopyCalls → Text → Disk → Option File
source_file c path d = if c.open_ok && c.stat_ok then lookup path d else none

-- `created` is the mode of a file that the server creates
unfoldable pub upload_file :
    (created : ℕ)
    → CopyCalls
    → (preserve : Bool) → (local_path remote_path : Text) → (here there : Disk) → FileCopied
upload_file created c preserve local_path remote_path here there =
    elim (source_file c local_path here) [
      | none ↦ unchanged source_not_opened there
      | some f ↦
          let opened = opened_mode created (lookup remote_path there) in
          let mode = if c.chmod_ok then permissions preserve f else opened in
          if not c.create_ok
          then unchanged target_not_opened there
          else copy_file c preserve f remote_path mode there
    ]

-- `masked` is what the umask leaves of a mode
unfoldable pub download_file :
    (masked : ℕ → ℕ)
    → CopyCalls
    → (preserve : Bool) → (remote_path local_path : Text) → (there here : Disk) → FileCopied
download_file masked c preserve remote_path local_path there here =
    elim (source_file c remote_path there) [
      | none ↦ unchanged source_not_opened here
      | some f ↦
          let mode = opened_mode (masked (permissions preserve f)) (lookup local_path here) in
          if not c.make_dir_ok
          then unchanged no_directory here
          else if not c.create_ok
          then unchanged target_not_opened here
          else copy_file c preserve f local_path mode here
    ]
