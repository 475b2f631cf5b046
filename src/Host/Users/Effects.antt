-- ===== src/Host/Users/Effects.antt =====
-- What one step of a connection does to the accounting of sessions.
use ziti_ssh.Prelude.{
  ℕ, ◌+◌, ◌<◌, ◌≡◌, refl, sym, ◌∙◌, Bool, true, false, List, [], ◌∷◌, if◌then◌else◌, none, some,
  Result, ok, err, arith,
}
use ziti_ssh.Text.{Text, text_eq_refl}
use ziti_ssh.Dict.{lookup}
use ziti_ssh.Host.Permissions.{IdentityPermissions}
use ziti_ssh.Host.Machine.{System, Machine, useradd_ok, call}
use ziti_ssh.Host.Users.{EnsureError, useradd_failed}
use ziti_ssh.Host.Users.{
  Book, count, is_taken, ensure_begin, roll_back, release_begin, ensure_finish_first,
}
use ziti_ssh.Host.Users.Books.{
  count-ensure_begin, owner-ensure_begin, count-roll_back, owner-roll_back, count-release_begin,
  owner-release_begin, only_at,
}
use ziti_ssh.Host.Users.Threads.{
  Thread, Shared, Phase, holds, waiting, creating, joining, connected, deleting, closed,
  turned_away, bad_release, step, begun_phase, created_phase, released_phase,
}

-- The sessions of a user among the connections.
unfoldable pub held_by : Phase → Text → Text → ℕ
held_by p u v = if holds p then only_at u v else 0

unfoldable pub held : List Thread → Text → ℕ
held [] v = 0
held (t ∷ ts) v = held_by t.phase t.username v + held ts v

-- The counts are right, and a user without an owner has no session.
abbrev pub IsBook : Book → (Text → ℕ) → Type 0
IsBook b h = ((v : Text) → count v b ≡ h v) × ((v : Text) → lookup v b.owners ≡ none → h v ≡ 0)

-- A session's user is owned by the session's identity.
abbrev pub Owned : Book → Text → Text → Phase → Type 0
Owned b identity u p = holds p ≡ true → lookup u b.owners ≡ some identity

-- Users with another session keep their owner.
abbrev pub SameOwners : Book → Book → (Text → ℕ) → Type 0
SameOwners b b' e = (v : Text) → 0 < e v → lookup v b'.owners ≡ lookup v b.owners

-- What a step of one connection, from phase p to p', must do to the books, where `e` counts the
-- sessions of the other connections.
abbrev Effect : Text → Text → Phase → Phase → Book → Book → (Text → ℕ) → Type 0
Effect identity u p p' b b' e =
    IsBook b (λ v. held_by p u v + e v)
    → Owned b identity u p
    → IsBook b' (λ v. held_by p' u v + e v) × Owned b' identity u p' × SameOwners b b' e

module _ (identity u : Text) (b : Book) (e : Text → ℕ) where
  begin-Owned :
      IsBook b (λ v. held_by waiting u v + e v)
      → Owned (ensure_begin identity u b).1 identity u (begun_phase (ensure_begin identity u b).0)
  unfolding held_by holds begun_phase ensure_begin is_taken
  begin-Owned h = ground (arith, h.0 u, h.1 u, owner-ensure_begin u u b identity, text_eq_refl u)

  begin-Effect :
      Effect identity u waiting
        (begun_phase (ensure_begin identity u b).0)
        b
        (ensure_begin identity u b).1
        e
  unfolding held_by holds begun_phase ensure_begin
  begin-Effect h o = (
    (
      (λ v. ground (arith, h.0 v, count-ensure_begin u v b identity)),
      (λ v. ground (arith, h.0 v, h.1 v, h.0 u, h.1 u, owner-ensure_begin u v b identity)),
    ),
    begin-Owned h,
    (λ v. ground (arith, h.0 u, h.0 v, owner-ensure_begin u v b identity)),
  )

  roll_back-Effect : Effect identity u creating turned_away b (roll_back u b) e
  unfolding held_by holds
  roll_back-Effect h o = (
    (
      (λ v. ground (arith, h.0 v, count-roll_back u v b)),
      (λ v. ground (arith, h.0 v, h.1 v, h.0 u, h.1 u, owner-roll_back u v b)),
    ),
    ground arith,
    (λ v. ground (arith, h.0 u, h.0 v, owner-roll_back u v b)),
  )

  release-Effect :
      Effect identity u connected (released_phase (release_begin u b).0) b (release_begin u b).1 e
  unfolding held_by holds released_phase release_begin
  release-Effect h o = (
    (
      (λ v. ground (arith, h.0 v, count-release_begin u v b)),
      (λ v. ground (arith, h.0 v, h.1 v, h.0 u, h.1 u, owner-release_begin u v b)),
    ),
    ground arith,
    (λ v. ground (arith, h.0 u, h.0 v, owner-release_begin u v b)),
  )

-- EnsureUser's or ReleaseUser's part in an accounting bug
unfoldable pub is_bad : Phase → Bool
is_bad bad_release = true
is_bad _ = false

idle-Effect :
    (identity u : Text) (p p' : Phase) (b : Book) (e : Text → ℕ)
    → holds p ≡ holds p'
    → Effect identity u p p' b b e
unfolding held_by
idle-Effect identity u p p' b e same h o =
    (rw (sym same) h, (λ now. o (same ∙ now)), (λ v pos. refl))

module _ (S : System) (state_file : Text) (cleanup : Bool) where
  decided-Effect :
      (x : Bool) (identity u : Text) (b : Book) (e : Text → ℕ) (m m' : Machine S)
      → let r : Result EnsureError (Unit {0}) × Book × Machine S =
          (if x then (ok tt, b, m) else (err useradd_failed, roll_back u b, m')) in
        Effect identity u creating (created_phase r.0) b r.1 e
  unfolding created_phase
  decided-Effect true identity u b e m m' =
      idle-Effect identity u creating connected b e (unfold holds in refl)
  decided-Effect false identity u b e m m' = roll_back-Effect identity u b e

  finish-Effect :
      (t : Thread) (b : Book) (m : Machine S) (e : Text → ℕ)
      → let r = ensure_finish_first S state_file t.username t.perms b m in
        Effect t.identity t.username creating (created_phase r.0) b r.1 e
  unfolding ensure_finish_first
  finish-Effect t b m e =
      decided-Effect (useradd_ok (call S (S.useradd t.username) m).0) t.identity t.username b e _ _

  step-Effect_at :
      (p : Phase) (identity u : Text) (perms : IdentityPermissions)
      (s : Shared S state_file cleanup) (e : Text → ℕ)
      → let t : Thread = record { identity = identity; username = u; perms = perms; phase = p } in
        let r = step S state_file cleanup t s in
        (r.0.identity ≡ identity)
        × (r.0.username ≡ u)
        × Effect identity u p r.0.phase s.book r.1.book e
  unfolding step
  step-Effect_at waiting i u perms s e = (refl, refl, begin-Effect i u s.book e)
  step-Effect_at creating i u perms s e = (
    refl,
    refl,
    finish-Effect (record { identity = i; username = u; perms = perms; phase = creating }) s.book
        s.machine e,
  )
  step-Effect_at joining i u perms s e =
      (refl, refl, idle-Effect i u joining connected s.book e (unfold holds in refl))
  step-Effect_at connected i u perms s e = (refl, refl, release-Effect i u s.book e)
  step-Effect_at deleting i u perms s e =
      (refl, refl, idle-Effect i u deleting closed s.book e (unfold holds in refl))
  step-Effect_at closed i u perms s e = (refl, refl, idle-Effect i u closed closed s.book e refl)
  step-Effect_at turned_away i u perms s e =
      (refl, refl, idle-Effect i u turned_away turned_away s.book e refl)
  step-Effect_at bad_release i u perms s e =
      (refl, refl, idle-Effect i u bad_release bad_release s.book e refl)

  -- A step keeps the books right.
  pub step-Effect :
      (t : Thread) (s : Shared S state_file cleanup) (e : Text → ℕ)
      → let r = step S state_file cleanup t s in
        (r.0.identity ≡ t.identity)
        × (r.0.username ≡ t.username)
        × Effect t.identity t.username t.phase r.0.phase s.book r.1.book e
  step-Effect t = step-Effect_at t.phase t.identity t.username t.perms

  -- A step reports no accounting bug.
  pub step_sound :
      (p : Phase) (identity u : Text) (perms : IdentityPermissions)
      (s : Shared S state_file cleanup) (e : Text → ℕ)
      → IsBook s.book (λ v. held_by p u v + e v)
      → is_bad p ≡ false
      → let t : Thread = record { identity = identity; username = u; perms = perms; phase = p } in
        is_bad (step S state_file cleanup t s).0.phase ≡ false
  unfolding step is_bad
  step_sound waiting i u perms s e h ne = unfold begun_phase in ground arith
  step_sound creating i u perms s e h ne = unfold created_phase in ground arith
  step_sound connected i u perms s e h ne =
      unfold released_phase release_begin held_by holds in ground (arith, h.0 u, text_eq_refl u)
  step_sound joining i u perms s e h ne = refl
  step_sound deleting i u perms s e h ne = refl
  step_sound closed i u perms s e h ne = refl
  step_sound turned_away i u perms s e h ne = refl
  step_sound bad_release i u perms s e h ne = ne
