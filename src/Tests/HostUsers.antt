-- ===== src/Tests/HostUsers.antt =====
-- The user manager: two identities that derive the same user, a user name that a group has, and the
-- wait for a user's processes.
use ziti_ssh.Prelude.{◌⊎◌, ok, ℕ, ◌+◌, ◌≡◌, refl, true, List, [], ◌∷◌, arith, All}
use ziti_ssh.Text.{Text, codes, text_dec}
use ziti_ssh.Dict.{lookup}
use ziti_ssh.Host.Permissions.{IdentityPermissions}
use ziti_ssh.Host.Machine.{System, IsSystem, exited, exit_exists, Machine, useradd_ok, call}
use ziti_ssh.Host.Delete.{processes_gone, user_processes_gone, enough_polls}
use ziti_ssh.Host.Delete.Laws.{user_processes_gone_ends}
use ziti_ssh.Host.Users.{Book, count, is_taken, ensure_begin, ensure_finish_first, ensure_user}
use ziti_ssh.Host.Users.Threads.{Thread, Shared, waiting, holds, run}
use ziti_ssh.Host.Users.Sequential.{ensure_user_exists}
use ziti_ssh.Host.Users.Sessions.{run_exclusive}
use ziti_ssh.Tests.Samples.{small_system, small_system-IsSystem, small_system-IsClock, new_machine}

abbrev pub plain_perms : IdentityPermissions
plain_perms = record { groups = codes "adm" ∷ []; sudoers_rule = [] }

abbrev pub alice : Text
alice = codes "Alice!"

abbrev pub bob : Text
bob = codes "alice_"

abbrev pub user : Text
user = codes "alice_"

abbrev empty_book : Book
empty_book = record { sessions = []; owners = [] }

abbrev alice_thread : Thread
alice_thread = record { identity = alice; username = user; perms = plain_perms; phase = waiting }

abbrev bob_thread : Thread
bob_thread = record { identity = bob; username = user; perms = plain_perms; phase = waiting }

abbrev pub state_file : Text
state_file = codes "/var/lib/users"

abbrev pub start : Shared small_system state_file true
start = record { book = empty_book; machine = new_machine }

abbrev pub threads : List Thread
threads = alice_thread ∷ bob_thread ∷ alice_thread ∷ []

-- Alice begins, Bob tries, Alice's user is made, and her second connection joins.
abbrev pub schedule : List ℕ
schedule = 0 ∷ 1 ∷ 0 ∷ 2 ∷ 2 ∷ []

abbrev final : List Thread × Shared small_system state_file true
final = run small_system state_file true schedule threads start

run_exclusive_example :
    All
      (λ t.
        All
          (λ t'.
            holds t.phase ≡ true
            → holds t'.phase ≡ true
            → t.username ≡ t'.username
            → t.identity ≡ t'.identity)
          final.0)
      final.0
run_exclusive_example =
    run_exclusive small_system state_file true schedule threads start
      ((refl, (refl, (refl, tt))), refl)

no_session : count user empty_book ≡ 0
unfolding count lookup
no_session = refl

-- A name that a group has: useradd says that it is in use, and there is no such user afterwards.
abbrev taken_name : System
taken_name = record small_system { useradd = λ u w. (exited exit_exists, w) }

taken_name-IsSystem : IsSystem taken_name
taken_name-IsSystem = record {
  useradd_adds = λ u w h. absurd (ground (arith, h));
  useradd_exists = λ u w h. refl;
  userdel_drops = small_system-IsSystem.userdel_drops;
  usermod_keeps = λ g u v w. refl;
  sudoers_keeps = λ v w. refl;
  removes_keeps = λ v w. refl;
  make_dir_keeps = λ v w. refl;
  state_keeps = λ v w. refl;
}

abbrev new_taken : Machine taken_name
new_taken = record { world = ([], 0); disk = [] }

ensured : (ensure_user taken_name state_file alice user plain_perms empty_book new_taken).0 ≡ ok tt
unfolding ensure_user lookup text_dec count ensure_begin is_taken ensure_finish_first useradd_ok
    call
ensured = refl

ensure_user_exists_example :
    let after = (ensure_user taken_name state_file alice user plain_perms empty_book new_taken).2 in
    (taken_name.has_user user after.world ≡ true)
    ⊎ ((count user empty_book ≡ 0)
        × ((taken_name.useradd user new_taken.world).0 ≡ exited exit_exists)
        × (taken_name.has_user user after.world ≡ taken_name.has_user user new_taken.world))
ensure_user_exists_example =
    ensure_user_exists taken_name taken_name-IsSystem state_file alice user plain_perms empty_book
      new_taken (λ h. ground (arith, h, no_session)) ensured

user_processes_gone_ends_example :
    processes_gone small_system
      (enough_polls 5000 + 7)
      (small_system.now ([], 3) + 5000)
      user
      ([], 3)
    ≡ user_processes_gone small_system user 5000 ([], 3)
user_processes_gone_ends_example =
    user_processes_gone_ends small_system small_system-IsClock user 5000 7 ([], 3)
