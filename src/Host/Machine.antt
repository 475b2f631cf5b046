-- ===== src/Host/Machine.antt =====
-- The commands and files that host/host.go works on. The commands are not code of this repository:
-- they are given by a `System`, with the behaviour that the code relies on.
use ziti_ssh.Prelude.{ℕ, ◌≡◌, Bool, true, false, ◌||◌, List, ◌==◌, if◌then◌else◌, Result, ok, err}
use ziti_ssh.Text.{Text}
use ziti_ssh.Disk.{Disk}
use ziti_ssh.Config.AtomicWrite.{Calls, WriteError, atomic_write_file}
use ziti_ssh.Host.Sudoers.{SudoersCalls, SudoersError, create_sudoers, remove_sudoers}
use ziti_ssh.Host.StateFile.{state_content}

-- How a command ends.
pub data Exit : Type 0 where
  exited : ℕ → Exit
  not_run : Exit

-- useradd says so if its name is in use, by a user or by a group.
abbrev pub exit_exists : ℕ
exit_exists = 9

-- useradd's result as EnsureUser reads it
unfoldable pub useradd_ok : Exit → Bool
useradd_ok (exited n) = n == 0 || n == exit_exists
useradd_ok not_run = false

-- What is outside of the program. A world may hold whatever decides the next answers.
pub record System : Type 1 where
  pub World : Type 0
  pub has_user : Text → World → Bool
  pub useradd : Text → World → Exit × World
  pub usermod : (groups username : Text) → World → Exit × World
  pub userdel : Text → World → Exit × World
  pub loginctl : Text → World → Exit × World
  pub pgrep : Text → World → Exit × World
  pub pkill : (signal username : Text) → World → Exit × World
  pub now : World → ℕ
  pub sleep : ℕ → World → World
  pub sudoers_calls : World → SudoersCalls × World
  pub removes : World → Bool × World
  pub make_dir : World → Bool × World
  pub state_calls : World → Calls × World

-- The documented exit codes of useradd and userdel, and that no other command adds or drops a user.
-- A useradd whose name is in use makes nothing; there may be no such user, but only a group.
pub record IsSystem (S : System) : Type 0 where
  pub useradd_adds :
      (u : Text) (w : S.World)
      → (S.useradd u w).0 ≡ exited 0
      → S.has_user u (S.useradd u w).1 ≡ true
  pub useradd_exists :
      (u : Text) (w : S.World)
      → (S.useradd u w).0 ≡ exited exit_exists
      → S.has_user u (S.useradd u w).1 ≡ S.has_user u w
  pub userdel_drops :
      (u : Text) (w : S.World)
      → (S.userdel u w).0 ≡ exited 0
      → S.has_user u (S.userdel u w).1 ≡ false
  pub usermod_keeps :
      (g u v : Text) (w : S.World) → S.has_user v (S.usermod g u w).1 ≡ S.has_user v w
  pub sudoers_keeps : (v : Text) (w : S.World) → S.has_user v (S.sudoers_calls w).1 ≡ S.has_user v w
  pub removes_keeps : (v : Text) (w : S.World) → S.has_user v (S.removes w).1 ≡ S.has_user v w
  pub make_dir_keeps : (v : Text) (w : S.World) → S.has_user v (S.make_dir w).1 ≡ S.has_user v w
  pub state_keeps : (v : Text) (w : S.World) → S.has_user v (S.state_calls w).1 ≡ S.has_user v w

pub data StateError : Type 0 where
  no_dir : StateError
  not_written : WriteError → StateError

unfoldable pub state_error : Result WriteError (Unit {0}) → Result StateError (Unit {0})
state_error (ok u) = ok u
state_error (err e) = err (not_written e)

module _ (S : System) where
  open S use {World}

  -- the commands' side and the files of one machine
  pub record Machine : Type 0 where
    pub world : World
    pub disk : Disk

  -- createSudoers with what its calls answer in this world
  unfoldable pub install_sudoers : Text → Text → Machine → Result SudoersError (Unit {0}) × Machine
  install_sudoers username rule m =
      let (c, w) = S.sudoers_calls m.world in
      let (r, d) = create_sudoers c username rule m.disk in (r, record { world = w; disk = d })

  unfoldable pub drop_sudoers : Text → Machine → Result SudoersError (Unit {0}) × Machine
  drop_sudoers username m =
      let (b, w) = S.removes m.world in
      let (r, d) = remove_sudoers b username m.disk in (r, record { world = w; disk = d })

  -- writeStateFile, which is AtomicWriteFile once more, with the mode 0600
  unfoldable pub write_state_file :
      Text → List Text → Machine → Result StateError (Unit {0}) × Machine
  write_state_file path lines m =
      let (made, w) = S.make_dir m.world in
      let (c, w') = S.state_calls w in
      let r = atomic_write_file c path (state_content lines) 0o600 m.disk in
      if made
      then (state_error r.result, record { world = w'; disk = r.disk })
      else (err no_dir, record m { world = w })

  -- a command, which leaves the files that matter here as they are
  unfoldable pub call : (World → Exit × World) → Machine → Exit × Machine
  call f m = let (e, w) = f m.world in (e, record m { world = w })
