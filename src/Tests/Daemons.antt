-- ===== src/Tests/Daemons.antt =====
-- The daemon: a config that is replaced by an event, a connection that comes and goes, and listeners
-- of which one fails.
use ziti_ssh.Prelude.{◌≡◌, ◌⊎◌, refl, true, false, Bool, List, [], ◌∷◌, none, some, ok, Option}
use ziti_ssh.Text.{Text, text_eq, codes, text_dec}
use ziti_ssh.Dict.{Dict, lookup, insert}
use ziti_ssh.Ca.Username.{derive_username, is_digit, is_name_rune}
use ziti_ssh.Host.Permissions.{IdentityPermissions, is_glob, resolve}
use ziti_ssh.Host.Machine.{useradd_ok, call}
use ziti_ssh.Host.Users.{Book, count, is_taken, ensure_begin, ensure_finish_first, ensure_user}
use ziti_ssh.Trust.Loader.{
  load_permissions_config, AllRules, NoCollision, copy_entries, find_collisions, check_rule,
}
use ziti_ssh.Daemon.Events.{
  Wire, first_states, first_state, after_events, service_changed, after_events-IsLoaded,
}
use ziti_ssh.Daemon.Hooks.{on_connect, on_disconnect, on_disconnect-on_connect}
use ziti_ssh.Tests.Samples.{ascii_lower, small_system, new_machine}

abbrev no_rule : IdentityPermissions
no_rule = record { groups = codes "adm" ∷ []; sudoers_rule = [] }

abbrev old_wire : Wire
old_wire = some ((codes "a", no_rule) ∷ [])

abbrev new_wire : Dict IdentityPermissions
new_wire = (codes "b", no_rule) ∷ []

abbrev clash : Wire
clash = some ((codes "c", no_rule) ∷ (codes "C", no_rule) ∷ [])

abbrev services : List (Text × Wire)
services = (codes "ssh", old_wire) ∷ []

abbrev events : List (Text × Wire)
events = (codes "ssh", some new_wire) ∷ (codes "ssh", clash) ∷ (codes "other", none) ∷ []

abbrev no_match : Text → Text → Option Bool
no_match p s = some false

replaced :
    lookup (codes "ssh") (after_events ascii_lower events (first_states ascii_lower services))
    ≡ some (some (record { permissions = new_wire }))
unfolding after_events service_changed first_states first_state load_permissions_config copy_entries
    find_collisions check_rule derive_username is_digit is_name_rune lookup insert text_dec is_glob
replaced = refl

after_events-IsLoaded_example :
    let perms =
      resolve no_match
        (some (record { permissions = new_wire }))
        (codes "x")
        (codes "g" ∷ [])
        (codes "r") in
    (AllRules ascii_lower new_wire × NoCollision ascii_lower new_wire)
    × ((check_rule perms.sudoers_rule ≡ ok tt)
        ⊎ (perms ≡ record { groups = codes "g" ∷ []; sudoers_rule = codes "r" }))
after_events-IsLoaded_example =
    after_events-IsLoaded ascii_lower services events (codes "ssh")
      (record { permissions = new_wire }) no_match (codes "x") (codes "g" ∷ []) (codes "r") replaced

abbrev empty_book : Book
empty_book = record { sessions = []; owners = [] }

connects :
    (on_connect ascii_lower no_match small_system
      (codes "f")
      true
      []
      []
      none
      (codes "Al")
      empty_book
      new_machine).0
    ≡ ok tt
unfolding on_connect ensure_user ensure_begin ensure_finish_first useradd_ok call is_taken count
    lookup derive_username is_digit is_name_rune resolve
connects = refl

on_disconnect-on_connect_example :
    let b =
      (on_connect ascii_lower no_match small_system
        (codes "f")
        true
        []
        []
        none
        (codes "Al")
        empty_book
        new_machine).1 in
    let b' =
      (on_disconnect ascii_lower no_match small_system
        (codes "f")
        true
        []
        []
        (codes "Al")
        b
        new_machine).0 in
    (count (codes "al") b' ≡ count (codes "al") empty_book)
    × (lookup (codes "al") b'.owners ≡ lookup (codes "al") empty_book.owners)
on_disconnect-on_connect_example =
    on_disconnect-on_connect ascii_lower no_match small_system (codes "f") true [] [] none
      (codes "Al") empty_book new_machine new_machine (codes "al") (λ e. unfold lookup in refl)
      connects

abbrev opens : Text → Bool
opens n = text_eq n (codes "a")

abbrev names : List Text
names = codes "a" ∷ codes "b" ∷ []
