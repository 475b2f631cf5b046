-- ===== src/Host/Users.antt =====
-- UserManager of host/host.go, phase by phase: what a method does under the manager's lock, and
-- what it does under the lock of its user.
pub mod Books
pub mod Sequential
pub mod Threads
pub mod Effects
pub mod Invariant
pub mod Sessions
pub mod Spec
pub mod Moves
pub mod Refinement
pub mod Progress
use ziti_ssh.Prelude.{
  ℕ, zero, suc, ◌+◌, ◌-◌, ◌≤◌, ◌≡◌, refl, Bool, true, false, not, ◌&&◌, ◌||◌, List, [], ◌∷◌, ◌++◌,
  ◌==◌, leb, ltb, if◌then◌else◌, Option, none, some, Result, ok, err,
}
use ziti_ssh.Text.{Text, codes, text_eq, is_empty}
use ziti_ssh.Text.Split.{join}
use ziti_ssh.Dict.{Dict, lookup, insert, remove, keys}
use ziti_ssh.Host.Permissions.{IdentityPermissions}
use ziti_ssh.Host.StateFile.{state_names}
use ziti_ssh.Host.Sudoers.{SudoersError}
use ziti_ssh.Host.Machine.{
  System, Machine, Exit, StateError, useradd_ok, call, install_sudoers, drop_sudoers,
  write_state_file,
}
use ziti_ssh.Host.Delete.{DeleteError, delete_user}

-- The two maps that the manager's lock guards.
pub record Book : Type 0 where
  pub sessions : Dict ℕ
  pub owners : Dict Text

-- m.sessions[u], which is 0 for a key that is not there
unfoldable pub count : Text → Book → ℕ
count u b = elim (lookup u b.sessions) [ none ↦ 0 | some n ↦ n ]

-- What phase 1 of EnsureUser decides.
pub data Begun : Type 0 where
  rejected first again : Begun

-- m.owners[u] is there and it is another identity
unfoldable pub is_taken : Text → Text → Book → Bool
is_taken identity u b = elim (lookup u b.owners) [
  | none ↦ false
  | some owner ↦ not (text_eq owner identity)
]

unfoldable pub ensure_begin : Text → Text → Book → Begun × Book
ensure_begin identity u b =
    let sessions' = insert u (suc (count u b)) b.sessions in
    if is_taken identity u b
    then (rejected, b)
    else if count u b == 0
    then (first, record { sessions = sessions'; owners = insert u identity b.owners })
    else (again, record { sessions = sessions'; owners = b.owners })

-- the rollback after a failed useradd: m.sessions[u]--, and the entries go at 0
pub roll_back : Text → Book → Book
roll_back u b =
    if count u b - 1 == 0
    then record { sessions = remove u b.sessions; owners = remove u b.owners }
    else record b { sessions = insert u (count u b - 1) b.sessions }

-- What phase 1 of ReleaseUser decides.
pub data Released : Type 0 where
  untracked remaining last : Released

unfoldable pub release_begin : Text → Book → Released × Book
release_begin u b =
    if count u b == 0
    then (untracked, b)
    else if ltb 0 (count u b - 1)
    then (remaining, record b { sessions = insert u (count u b - 1) b.sessions })
    else (last, record { sessions = remove u b.sessions; owners = remove u b.owners })

pub data EnsureError : Type 0 where
  owned_by_other useradd_failed : EnsureError

pub data ReleaseError : Type 0 where
  not_tracked : ReleaseError
  not_deleted : DeleteError → ReleaseError

module _ (S : System) (state_file : Text) where
  -- the snapshot of the sessions' keys, and the write; all callers only log an error
  pub sync_state_file : Book → Machine S → Machine S
  sync_state_file b m = (write_state_file S state_file (keys b.sessions) m).1

  pub set_groups : Text → IdentityPermissions → Machine S → Machine S
  set_groups u perms m = (call S (S.usermod (join (codes ",") perms.groups) u) m).1

  pub first_sudoers : Text → IdentityPermissions → Machine S → Machine S
  first_sudoers u perms m =
      if is_empty perms.sudoers_rule then m else (install_sudoers S u perms.sudoers_rule m).1

  pub again_sudoers : Text → IdentityPermissions → Machine S → Machine S
  again_sudoers u perms m =
      if is_empty perms.sudoers_rule
      then (drop_sudoers S u m).1
      else (install_sudoers S u perms.sudoers_rule m).1

  -- phase 2 of EnsureUser for the first session of a user
  unfoldable pub ensure_finish_first :
      Text
      → IdentityPermissions
      → Book
      → Machine S
      → Result EnsureError (Unit {0}) × Book × Machine S
  ensure_finish_first u perms b m =
      let (e, added) = call S (S.useradd u) m in
      if useradd_ok e
      then (ok tt, b, sync_state_file b (first_sudoers u perms (set_groups u perms added)))
      else (err useradd_failed, roll_back u b, added)

  -- the end of EnsureUser for a further session
  pub ensure_finish_again : Text → IdentityPermissions → Machine S → Machine S
  ensure_finish_again u perms m = again_sudoers u perms (set_groups u perms m)

  -- phase 2 of ReleaseUser after the last session
  unfoldable pub release_finish :
      Bool → Text → Book → Machine S → Result ReleaseError (Unit {0}) × Machine S
  release_finish cleanup u b m =
      if not cleanup
      then (ok tt, sync_state_file b (drop_sudoers S u m).1)
      else let (r, m') = delete_user S u m in
        elim r [ ok done ↦ (ok tt, sync_state_file b m') | err e ↦ (err (not_deleted e), m') ]

  -- EnsureUser and ReleaseUser when nothing else runs between their phases
  unfoldable pub ensure_user :
      Text
      → Text
      → IdentityPermissions
      → Book
      → Machine S
      → Result EnsureError (Unit {0}) × Book × Machine S
  ensure_user identity u perms b m =
      let (begun, b') = ensure_begin identity u b in
      elim begun [
        | rejected ↦ (err owned_by_other, b', m)
        | first ↦ ensure_finish_first u perms b' m
        | again ↦ (ok tt, b', ensure_finish_again u perms m)
      ]

  unfoldable pub release_user :
      Bool → Text → Book → Machine S → Result ReleaseError (Unit {0}) × Book × Machine S
  release_user cleanup u b m =
      let (released, b') = release_begin u b in
      let (r, m') = release_finish cleanup u b' m in
      elim released [
        | untracked ↦ (err not_tracked, b', m)
        | remaining ↦ (ok tt, b', m)
        | last ↦ (r, b', m')
      ]

  -- the loop of CleanupOrphans: the names whose deletion failed
  unfoldable delete_orphans : Bool → List Text → Machine S → List Text × Machine S
  delete_orphans cleanup [] m = ([], m)
  delete_orphans false (u ∷ us) m = delete_orphans false us m
  delete_orphans true (u ∷ us) m =
      let (r, m') = delete_user S u m in
      let (kept, m'') = delete_orphans true us m' in
      elim r [ ok done ↦ (kept, m'') | err e ↦ (u ∷ kept, m'') ]

  -- CleanupOrphans, after the read of the state file: `none` if there is none
  unfoldable cleanup_orphans :
      Bool → Option Text → Machine S → Result StateError (Unit {0}) × Machine S
  cleanup_orphans cleanup none m = (ok tt, m)
  cleanup_orphans cleanup (some data_) m =
      let (kept, m') = delete_orphans cleanup (state_names data_) m in
      write_state_file S state_file kept m'
