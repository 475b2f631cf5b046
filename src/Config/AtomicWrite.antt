-- ===== src/Config/AtomicWrite.antt =====
-- AtomicWriteFile of config/atomic.go, and its older copy atomicWriteFile of host/host.go.
pub mod Laws
pub mod Host
use ziti_ssh.Prelude.{
  ℕ, zero, suc, ◌+◌, ◌-◌, ◌≤◌, ◌≡◌, refl, Bool, true, false, not, ◌&&◌, ◌||◌, List, [], ◌∷◌, ◌++◌,
  ◌==◌, leb, ltb, if◌then◌else◌, Option, none, some, Result, ok, err,
}
use ziti_ssh.Text.{Text}
use ziti_ssh.Dict.{lookup, insert, remove}
use ziti_ssh.Disk.{Disk, File, Run, rename}

-- What the system calls answer: the name that CreateTemp chose, and which calls succeed. A write
-- that fails has left `partial` in the file.
pub record Calls : Type 0 where
  pub tmp_name : Option Text
  pub write_ok : Bool
  pub partial : Text
  pub sync_ok : Bool
  pub chmod_ok : Bool
  pub close_ok : Bool
  pub rename_ok : Bool
  pub remove_ok : Bool
  pub open_dir_ok : Bool
  pub sync_dir_ok : Bool

pub data WriteError : Type 0 where
  create_temp write_temp sync_temp chmod_temp close_temp rename_temp open_dir sync_dir : WriteError

-- os.CreateTemp makes files of mode 0600.
abbrev temp_mode : ℕ
temp_mode = 0o600

-- the deferred clean-up of an error path
unfoldable abandon : Calls → WriteError → Text → Disk → List Disk → Run WriteError
abandon c e tmp d past = record {
  result = err e;
  disk = if c.remove_ok then remove tmp d else d;
  past = d ∷ past;
}

-- what follows the rename
abbrev Finish : Type 0
Finish = Text → Disk → List Disk → Run WriteError

abbrev pub created_file : File
created_file = record { content = []; mode = temp_mode }

abbrev pub written_file : Calls → Text → File
written_file c body = record { content = if c.write_ok then body else c.partial; mode = temp_mode }

abbrev pub ready_file : Text → ℕ → File
ready_file body mode = record { content = body; mode = mode }

-- from the write to the rename, the part that both functions have
fill : Calls → Finish → Text → Text → ℕ → Disk → Text → Run WriteError
unfolding abandon
fill c finish dest body mode d tmp =
    let created = insert tmp created_file d in
    let written = insert tmp (written_file c body) created in
    let ready = insert tmp (ready_file body mode) written in
    if not c.write_ok
    then abandon c write_temp tmp written (created ∷ d ∷ [])
    else if not c.sync_ok
    then abandon c sync_temp tmp written (created ∷ d ∷ [])
    else if not c.chmod_ok
    then abandon c chmod_temp tmp written (created ∷ d ∷ [])
    else if not c.close_ok
    then abandon c close_temp tmp ready (written ∷ created ∷ d ∷ [])
    else if not c.rename_ok
    then abandon c rename_temp tmp ready (written ∷ created ∷ d ∷ [])
    else finish tmp (rename tmp dest ready) (ready ∷ written ∷ created ∷ d ∷ [])

-- os.CreateTemp
stage : Calls → Finish → Text → Text → ℕ → Disk → Option Text → Run WriteError
stage c finish dest body mode d none = record { result = err create_temp; disk = d; past = [] }
stage c finish dest body mode d (some tmp) = fill c finish dest body mode d tmp

plain_finish : Finish
plain_finish tmp after past = record { result = ok tt; disk = after; past = past }

-- config.AtomicWriteFile: a directory that cannot be synced is no error
unfoldable pub atomic_write_file : Calls → Text → Text → ℕ → Disk → Run WriteError
unfolding stage fill plain_finish
atomic_write_file c dest body mode d = stage c plain_finish dest body mode d c.tmp_name

-- host.atomicWriteFile: there it is, and the clean-up then finds no temporary file
host_finish : Calls → Finish
unfolding abandon
host_finish c tmp after past =
    if not c.open_dir_ok
    then abandon c open_dir tmp after past
    else if not c.sync_dir_ok
    then abandon c sync_dir tmp after past
    else record { result = ok tt; disk = after; past = past }

unfoldable pub host_atomic_write_file : Calls → Text → Text → ℕ → Disk → Run WriteError
unfolding stage fill host_finish
host_atomic_write_file c dest body mode d = stage c (host_finish c) dest body mode d c.tmp_name
