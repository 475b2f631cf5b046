-- ===== src/Host/Users/Sequential.antt =====
-- EnsureUser and ReleaseUser when nothing else runs between their phases.
use ziti_ssh.Prelude.{
  inl, inr, ap, ◌<◌, ◌≡◌, ◌⊎◌, ◌∙◌, Bool, true, false, List, none, ok, err, arith,
}
use ziti_ssh.Text.{Text, text_eq_refl}
use ziti_ssh.Dict.{lookup, keys}
use ziti_ssh.Host.Permissions.{IdentityPermissions}
use ziti_ssh.Host.Machine.{
  System, IsSystem, Machine, Exit, exited, not_run, exit_exists, useradd_ok, call, install_sudoers,
  drop_sudoers, write_state_file,
}
use ziti_ssh.Host.Delete.{delete_user}
use ziti_ssh.Host.Delete.Laws.{delete_user_ok}
use ziti_ssh.Host.Users.{
  Book, count, ensure_begin, release_begin, ensure_finish_first, ensure_finish_again, ensure_user,
  release_user, release_finish, sync_state_file, set_groups, first_sudoers, again_sudoers,
  EnsureError,
}
use ziti_ssh.Host.Users.Books.{
  count-ensure_begin, owner-ensure_begin, count-roll_back, owner-roll_back, count-release_begin,
  owner-release_begin,
}

module _ (S : System) (sys : IsSystem S) (state_file : Text) where
  abbrev pub has : Text → Machine S → Bool
  has v m = S.has_user v m.world

  pub has-write_state_file :
      (v path : Text) (lines : List Text) (m : Machine S)
      → has v (write_state_file S path lines m).1 ≡ has v m
  unfolding write_state_file
  has-write_state_file v path lines m =
      ground (arith, sys.make_dir_keeps v m.world, sys.state_keeps v (S.make_dir m.world).1)

  has-install_sudoers :
      (v u rule : Text) (m : Machine S) → has v (install_sudoers S u rule m).1 ≡ has v m
  unfolding install_sudoers
  has-install_sudoers v u rule m = sys.sudoers_keeps v m.world

  has-drop_sudoers : (v u : Text) (m : Machine S) → has v (drop_sudoers S u m).1 ≡ has v m
  unfolding drop_sudoers
  has-drop_sudoers v u m = sys.removes_keeps v m.world

  has-set_groups :
      (v u : Text) (perms : IdentityPermissions) (m : Machine S)
      → has v (set_groups S state_file u perms m) ≡ has v m
  unfolding set_groups call
  has-set_groups v u perms m = sys.usermod_keeps _ u v m.world

  has-first_sudoers :
      (v u : Text) (perms : IdentityPermissions) (m : Machine S)
      → has v (first_sudoers S state_file u perms m) ≡ has v m
  unfolding first_sudoers
  has-first_sudoers v u perms m = ground (arith, has-install_sudoers v u perms.sudoers_rule m)

  has-again_sudoers :
      (v u : Text) (perms : IdentityPermissions) (m : Machine S)
      → has v (again_sudoers S state_file u perms m) ≡ has v m
  unfolding again_sudoers
  has-again_sudoers v u perms m =
      ground (arith, has-install_sudoers v u perms.sudoers_rule m, has-drop_sudoers v u m)

  pub has-ensure_finish_again :
      (v u : Text) (perms : IdentityPermissions) (m : Machine S)
      → has v (ensure_finish_again S state_file u perms m) ≡ has v m
  unfolding ensure_finish_again
  has-ensure_finish_again v u perms m =
      has-again_sudoers v u perms (set_groups S state_file u perms m) ∙ has-set_groups v u perms m

  useradd_exit : (e : Exit) → useradd_ok e ≡ true → (e ≡ exited 0) ⊎ (e ≡ exited exit_exists)
  unfolding useradd_ok
  useradd_exit (exited n) h = ground (arith, h)
  useradd_exit not_run h = ground (arith, h)

  -- What a first session without an error has come to: useradd has made the user, or it has said that
  -- the name is in use, and the user is there exactly if it was before.
  abbrev pub Added : Text → (before after : Machine S) → Type 0
  Added u before after =
      (has u after ≡ true)
      ⊎ (((S.useradd u before.world).0 ≡ exited exit_exists) × (has u after ≡ has u before))

  useradd-Added :
      (u : Text) (m : Machine S)
      → useradd_ok (call S (S.useradd u) m).0 ≡ true
      → Added u m (call S (S.useradd u) m).1
  unfolding call
  useradd-Added u m h = elim (useradd_exit (S.useradd u m.world).0 h) [
    | inl e ↦ inl (sys.useradd_adds u m.world e)
    | inr e ↦ inr (e, sys.useradd_exists u m.world e)
  ]

  -- Neither the groups, nor the rule, nor the state file change which users there are.
  ensure_finish_first_rest :
      (u : Text) (perms : IdentityPermissions) (b : Book) (m : Machine S)
      → (ensure_finish_first S state_file u perms b m).0 ≡ ok tt
      → (useradd_ok (call S (S.useradd u) m).0 ≡ true)
        × (has u (ensure_finish_first S state_file u perms b m).2
            ≡ has u (call S (S.useradd u) m).1)
  unfolding ensure_finish_first sync_state_file
  ensure_finish_first_rest u perms b m h =
      let added = (call S (S.useradd u) m).1 in
      let grouped = set_groups S state_file u perms added in
      let ruled = first_sudoers S state_file u perms grouped in
      ground (
        arith,
        h,
        has-set_groups u u perms added,
        has-first_sudoers u u perms grouped,
        has-write_state_file u state_file (keys b.sessions) ruled,
      )

  ensure_finish_first-Added :
      (u : Text) (perms : IdentityPermissions) (b : Book) (m : Machine S)
      → (ensure_finish_first S state_file u perms b m).0 ≡ ok tt
      → Added u m (ensure_finish_first S state_file u perms b m).2
  ensure_finish_first-Added u perms b m h =
      let (exit_ok, same) = ensure_finish_first_rest u perms b m h in
      elim (useradd-Added u m exit_ok) [
        | inl there ↦ inl (same ∙ there)
        | inr (in_use, kept) ↦ inr (in_use, same ∙ kept)
      ]

  -- Which way an EnsureUser without an error went.
  ensure_user_ways :
      (identity u : Text) (perms : IdentityPermissions) (b : Book) (m : Machine S)
      → (ensure_user S state_file identity u perms b m).0 ≡ ok tt
      → let after = (ensure_user S state_file identity u perms b m).2 in
        let b' = (ensure_begin identity u b).1 in
        (((ensure_finish_first S state_file u perms b' m).0 ≡ ok tt)
          × (count u b ≡ 0)
          × (after ≡ (ensure_finish_first S state_file u perms b' m).2))
        ⊎ ((0 < count u b) × (after ≡ ensure_finish_again S state_file u perms m))
  unfolding ensure_user ensure_begin
  ensure_user_ways identity u perms b m h = ground (arith, h)

  -- If EnsureUser returns no error, the user exists; or it was a first session, useradd said that the
  -- name is in use, and the user exists exactly if it did before. The users of earlier sessions exist,
  -- and no other connection's phase comes in between.
  pub ensure_user_exists :
      (identity u : Text) (perms : IdentityPermissions) (b : Book) (m : Machine S)
      → (0 < count u b → S.has_user u m.world ≡ true)
      → (ensure_user S state_file identity u perms b m).0 ≡ ok tt
      → let after = (ensure_user S state_file identity u perms b m).2 in
        (S.has_user u after.world ≡ true)
        ⊎ ((count u b ≡ 0)
            × ((S.useradd u m.world).0 ≡ exited exit_exists)
            × (S.has_user u after.world ≡ S.has_user u m.world))
  ensure_user_exists identity u perms b m before h =
      let b' = (ensure_begin identity u b).1 in
      elim (ensure_user_ways identity u perms b m h) [
        | inl (done, none_before, same) ↦ elim (ensure_finish_first-Added u perms b' m done) [
          | inl there ↦ inl (ap (has u) same ∙ there)
          | inr (in_use, kept) ↦ inr (none_before, in_use, ap (has u) same ∙ kept)
        ]
        | inr (some_before, same) ↦
            inl (ap (has u) same ∙ has-ensure_finish_again u u perms m ∙ before some_before)
      ]

  -- If EnsureUser returns an error, the sessions and owners are what they were, provided that a
  -- user without a session had no owner.
  pub ensure_user_error :
      (identity u : Text) (perms : IdentityPermissions) (b : Book) (m : Machine S) (e : EnsureError)
      → (count u b ≡ 0 → lookup u b.owners ≡ none)
      → (ensure_user S state_file identity u perms b m).0 ≡ err e
      → (v : Text)
      → let b' = (ensure_user S state_file identity u perms b m).1 in
        (count v b' ≡ count v b) × (lookup v b'.owners ≡ lookup v b.owners)
  unfolding ensure_user ensure_finish_first ensure_begin
  ensure_user_error identity u perms b m e free h v =
      let b' = (ensure_begin identity u b).1 in
      ground (
        arith,
        h,
        free,
        count-ensure_begin u v b identity,
        owner-ensure_begin u v b identity,
        count-ensure_begin u u b identity,
        text_eq_refl u,
        count-roll_back u v b',
        owner-roll_back u v b',
      )

  -- If ReleaseUser of the last session returns no error, and users are deleted on disconnect, then
  -- the user is gone, and so are its session count and its owner.
  pub release_user_last :
      (u : Text) (b : Book) (m : Machine S)
      → count u b ≡ 1
      → (release_user S state_file true u b m).0 ≡ ok tt
      → let r = release_user S state_file true u b m in
        (S.has_user u r.2.world ≡ false) × (count u r.1 ≡ 0) × (lookup u r.1.owners ≡ none)
  unfolding release_user release_begin release_finish sync_state_file
  release_user_last u b m one h =
      let b' = (release_begin u b).1 in
      let deleted = (delete_user S u m).1 in
      ground (
        arith,
        h,
        one,
        text_eq_refl u,
        count-release_begin u u b,
        owner-release_begin u u b,
        delete_user_ok S sys u m,
        has-write_state_file u state_file (keys b'.sessions) deleted,
      )
