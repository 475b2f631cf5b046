-- ===== src/Host/Users/Books.antt =====
-- How the phases under the manager's lock change the two maps, user by user.
use ziti_ssh.Prelude.{ℕ, suc, ◌+◌, ◌-◌, ◌≡◌, not, ◌&&◌, ◌==◌, if◌then◌else◌, none, some, arith}
use ziti_ssh.Text.{Text, text_eq}
use ziti_ssh.Dict.{lookup, insert, lookup-insert, lookup-remove}
use ziti_ssh.Host.Users.{Book, count, is_taken, ensure_begin, roll_back, release_begin}

-- 1 for the user itself, and 0 for any other
abbrev pub only_at : Text → Text → ℕ
only_at u v = if text_eq u v then 1 else 0

module _ (u v : Text) (b : Book) where
  abbrev grown : Book
  grown = record b { sessions = insert u (suc (count u b)) b.sessions }

  pub count-ensure_begin :
      (identity : Text)
      → count v (ensure_begin identity u b).1
        ≡ count v b + (if is_taken identity u b then 0 else only_at u v)
  unfolding ensure_begin count
  count-ensure_begin identity = ground (arith, lookup-insert u v (suc (count u b)) b.sessions)

  pub owner-ensure_begin :
      (identity : Text)
      → lookup v (ensure_begin identity u b).1.owners ≡ (
          if not (is_taken identity u b) && (count u b == 0) && text_eq u v
          then some identity
          else lookup v b.owners)
  unfolding ensure_begin
  owner-ensure_begin identity = ground (arith, lookup-insert u v identity b.owners)

  pub count-roll_back : count v (roll_back u b) ≡ count v b - only_at u v
  unfolding roll_back count
  count-roll_back =
      ground (arith, lookup-insert u v (count u b - 1) b.sessions, lookup-remove u v b.sessions)

  pub owner-roll_back :
      lookup v (roll_back u b).owners
      ≡ (if (count u b - 1 == 0) && text_eq u v then none else lookup v b.owners)
  unfolding roll_back
  owner-roll_back = ground (arith, lookup-remove u v b.owners)

  pub count-release_begin : count v (release_begin u b).1 ≡ count v b - only_at u v
  unfolding release_begin count
  count-release_begin =
      ground (arith, lookup-insert u v (count u b - 1) b.sessions, lookup-remove u v b.sessions)

  pub owner-release_begin :
      lookup v (release_begin u b).1.owners
      ≡ (if (count u b == 1) && text_eq u v then none else lookup v b.owners)
  unfolding release_begin
  owner-release_begin = ground (arith, lookup-remove u v b.owners)
