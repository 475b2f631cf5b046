-- ===== src/Daemon/Hooks.antt =====
-- OnConnect and OnDisconnect of runProxy in cmd/ziti-ssh-host/main.go.
use ziti_ssh.Prelude.{
  ℕ, ◌≡◌, ap, Bool, false, List, if◌then◌else◌, Option, none, Result, ok, err, arith,
}
use ziti_ssh.Text.{Text, is_empty}
use ziti_ssh.Dict.{lookup}
use ziti_ssh.Ca.Username.{derive_username}
use ziti_ssh.Host.Permissions.{IdentityPermissions, PermissionsConfig, resolve}
use ziti_ssh.Host.Machine.{System, Machine}
use ziti_ssh.Host.Users.{
  Book, count, is_taken, ensure_begin, release_begin, ensure_finish_first, EnsureError, ensure_user,
  release_user,
}
use ziti_ssh.Host.Users.Books.{
  count-ensure_begin, count-release_begin, owner-ensure_begin, owner-release_begin,
}

pub data ConnectError : Type 0 where
  empty_username : ConnectError
  not_ensured : EnsureError → ConnectError

unfoldable connect_error : Result EnsureError (Unit {0}) → Result ConnectError (Unit {0})
connect_error (ok u) = ok u
connect_error (err e) = err (not_ensured e)

module _ (to_lower : ℕ → ℕ) (path_match : Text → Text → Option Bool) (S : System)
    (state_file : Text) (cleanup : Bool) (global_groups : List Text) (global_rule : Text) where
  -- OnConnect, with the config that the service has then
  unfoldable pub on_connect :
      Option PermissionsConfig
      → Text
      → Book
      → Machine S
      → Result ConnectError (Unit {0}) × Book × Machine S
  unfolding connect_error
  on_connect pc identity b m =
      let username = derive_username to_lower identity in
      let perms = resolve path_match pc identity global_groups global_rule in
      let (r, b', m') = ensure_user S state_file identity username perms b m in
      if is_empty username then (err empty_username, b, m) else (connect_error r, b', m')

  -- OnDisconnect, which only logs an error
  pub on_disconnect : Text → Book → Machine S → Book × Machine S
  on_disconnect identity b m =
      let username = derive_username to_lower identity in
      let (r, b', m') = release_user S state_file cleanup username b m in
      if is_empty username then (b, m) else (b', m')

  ensured_book :
      (identity u : Text) (perms : IdentityPermissions) (b : Book) (m : Machine S)
      → (ensure_user S state_file identity u perms b m).0 ≡ ok tt
      → ((ensure_user S state_file identity u perms b m).1 ≡ (ensure_begin identity u b).1)
        × (is_taken identity u b ≡ false)
  unfolding ensure_user ensure_finish_first ensure_begin
  ensured_book identity u perms b m h = ground (arith, h)

  released_book :
      (u : Text) (b : Book) (m : Machine S)
      → (release_user S state_file cleanup u b m).1 ≡ (release_begin u b).1
  unfolding release_user release_begin
  released_book u b m = ground arith

  connected :
      (pc : Option PermissionsConfig) (identity : Text) (b : Book) (m : Machine S)
      → (on_connect pc identity b m).0 ≡ ok tt
      → let u = derive_username to_lower identity in
        (is_empty u ≡ false)
        × ((on_connect pc identity b m).1 ≡ (ensure_begin identity u b).1)
        × (is_taken identity u b ≡ false)
  unfolding on_connect connect_error
  connected pc identity b m h =
      let u = derive_username to_lower identity in
      let perms = resolve path_match pc identity global_groups global_rule in
      ground (arith, h, ensured_book identity u perms b m)

  -- A connection that OnConnect accepts, and that OnDisconnect ends with no other one in between,
  -- leaves the session count of every user as it was, whatever config the service had then. Neither
  -- does it leave a user's owner behind, or take one away, if a user without sessions had none.
  pub on_disconnect-on_connect :
      (pc : Option PermissionsConfig) (identity : Text) (b : Book) (m m' : Machine S) (v : Text)
      → (count v b ≡ 0 → lookup v b.owners ≡ none)
      → (on_connect pc identity b m).0 ≡ ok tt
      → let b' = (on_disconnect identity (on_connect pc identity b m).1 m').0 in
        (count v b' ≡ count v b) × (lookup v b'.owners ≡ lookup v b.owners)
  unfolding on_disconnect
  on_disconnect-on_connect pc identity b m m' v free h =
      let u = derive_username to_lower identity in
      let here = connected pc identity b m h in
      let b1 = (ensure_begin identity u b).1 in
      ground (
        arith,
        here,
        free,
        ap (λ x. (on_disconnect identity x m').0) here.1,
        released_book u b1 m',
        count-ensure_begin u v b identity,
        count-ensure_begin u u b identity,
        count-release_begin u v b1,
        owner-ensure_begin u v b identity,
        owner-release_begin u v b1,
      )
