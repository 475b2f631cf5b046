-- ===== src/Host/Users/Progress.antt =====
-- Every connection ends, and leaves nothing behind, if the scheduler gives it its turns.
use ziti_ssh.Prelude.{
  ℕ, zero, suc, ◌-◌, ◌≤◌, ◌<◌, ◌≡◌, ◌⊎◌, inl, inr, refl, ◌∙◌, Bool, false, List, [], ◌∷◌, ◌==◌, ltb,
  if◌then◌else◌, none, arith, All, length, Option-cases,
}
use ziti_ssh.Text.{Text}
use ziti_ssh.Dict.{lookup}
use ziti_ssh.Host.Permissions.{IdentityPermissions}
use ziti_ssh.Host.Machine.{System}
use ziti_ssh.Host.Users.{Book, count, ensure_begin, release_begin}
use ziti_ssh.Host.Users.Threads.{
  Thread, Shared, Phase, holds, waiting, creating, joining, connected, deleting, closed,
  turned_away, bad_release, step, step_at, run, begun_phase, created_phase, released_phase,
}
use ziti_ssh.Host.Users.Effects.{held, held_by, is_bad}
use ziti_ssh.Host.Users.Moves.{NoStale}
use ziti_ssh.Host.Users.Sessions.{IsStart, run-count, run_no_bad_release}
use ziti_ssh.Host.Users.Refinement.{run-NoStale, start-NoStale}

-- the turns that a connection needs at most, of those that it may need
unfoldable pub rank : Phase → ℕ
rank waiting = 4
rank creating = 3
rank joining = 3
rank connected = 2
rank deleting = 1
rank closed = 0
rank turned_away = 0
rank bad_release = 0

rank_at : ℕ → List Thread → ℕ
rank_at i [] = 0
rank_at zero (t ∷ ts) = rank t.phase
rank_at (suc i) (t ∷ ts) = rank_at i ts

-- how often the scheduler chose the connection
unfoldable pub turns : ℕ → List ℕ → ℕ
turns i [] = 0
turns i (j ∷ js) = let rest = turns i js in if i == j then suc rest else rest

ended_phase : (p : Phase) → rank p ≡ 0 → is_bad p ≡ false → (p ≡ closed) ⊎ (p ≡ turned_away)
unfolding rank is_bad
ended_phase waiting h g = absurd (omega (arith, h))
ended_phase creating h g = absurd (omega (arith, h))
ended_phase joining h g = absurd (omega (arith, h))
ended_phase connected h g = absurd (omega (arith, h))
ended_phase deleting h g = absurd (omega (arith, h))
ended_phase closed h g = inl refl
ended_phase turned_away h g = inr refl
ended_phase bad_release h g = cc

rank-holds : (p : Phase) → rank p ≡ 0 → holds p ≡ false
unfolding rank holds
rank-holds waiting h = refl
rank-holds creating h = absurd (omega (arith, h))
rank-holds joining h = absurd (omega (arith, h))
rank-holds connected h = absurd (omega (arith, h))
rank-holds deleting h = refl
rank-holds closed h = refl
rank-holds turned_away h = refl
rank-holds bad_release h = refl

rank_le : (p : Phase) → rank p ≤ 4
unfolding rank
rank_le waiting = omega arith
rank_le creating = omega arith
rank_le joining = omega arith
rank_le connected = omega arith
rank_le deleting = omega arith
rank_le closed = omega arith
rank_le turned_away = omega arith
rank_le bad_release = omega arith

no_owner : (v : Text) (b : Book) → NoStale b → count v b ≡ 0 → lookup v b.owners ≡ none
no_owner v b h free = elim (Option-cases (lookup v b.owners)) [
  | inl e ↦ e
  | inr (o, e) ↦ absurd (omega (arith, free, h v (λ n. ground (arith, e, n))))
]

module _ (S : System) (state_file : Text) (cleanup : Bool) where
  module _ (identity u : Text) (perms : IdentityPermissions) (s : Shared S state_file cleanup) where
    abbrev thread_in : Phase → Thread
    thread_in p = record { identity = identity; username = u; perms = perms; phase = p }

    step-rank_at :
        (p : Phase) → rank (step S state_file cleanup (thread_in p) s).0.phase ≤ rank p - 1
    unfolding step rank
    step-rank_at waiting = unfold begun_phase ensure_begin in ground arith
    step-rank_at creating = unfold created_phase in ground arith
    step-rank_at joining = ground arith
    step-rank_at connected = unfold released_phase release_begin in ground arith
    step-rank_at deleting = ground arith
    step-rank_at closed = ground arith
    step-rank_at turned_away = ground arith
    step-rank_at bad_release = ground arith

  step_at-rank_at :
      (i j : ℕ) (ts : List Thread) (s : Shared S state_file cleanup)
      → rank_at i (step_at S state_file cleanup j ts s).0 ≤ rank_at i ts - (if i == j then 1 else 0)
  unfolding rank_at step_at
  step_at-rank_at i j [] s = omega arith
  step_at-rank_at zero zero (t ∷ ts) s = step-rank_at t.identity t.username t.perms s t.phase
  step_at-rank_at (suc i) zero (t ∷ ts) s = ground arith
  step_at-rank_at zero (suc j) (t ∷ ts) s = ground arith
  step_at-rank_at (suc i) (suc j) (t ∷ ts) s = ground (arith, step_at-rank_at i j ts s)

  run-rank_at :
      (i : ℕ) (is : List ℕ) (ts : List Thread) (s : Shared S state_file cleanup)
      → rank_at i (run S state_file cleanup is ts s).0 ≤ rank_at i ts - turns i is
  unfolding run turns
  run-rank_at i [] ts s = omega arith
  run-rank_at i (j ∷ is) ts s =
      let r = step_at S state_file cleanup j ts s in
      ground (arith, step_at-rank_at i j ts s, run-rank_at i is r.0 r.1)

  rank_at_start : (i : ℕ) (ts : List Thread) → rank_at i ts ≤ (if ltb i (length ts) then 4 else 0)
  unfolding rank_at rank
  rank_at_start i [] = ground arith
  rank_at_start zero (t ∷ ts) = ground (arith, rank_le t.phase)
  rank_at_start (suc i) (t ∷ ts) = ground (arith, rank_at_start i ts)

  ended :
      (ts : List Thread)
      → ((i : ℕ) → rank_at i ts ≡ 0)
      → All (λ t. is_bad t.phase ≡ false) ts
      → All (λ t. (t.phase ≡ closed) ⊎ (t.phase ≡ turned_away)) ts
  unfolding rank_at
  ended [] h sound = tt
  ended (t ∷ ts) h sound = (ended_phase t.phase (h 0) sound.0, ended ts (λ i. h (suc i)) sound.1)

  ended-held : (ts : List Thread) (v : Text) → ((i : ℕ) → rank_at i ts ≡ 0) → held ts v ≡ 0
  unfolding rank_at held held_by
  ended-held [] v h = refl
  ended-held (t ∷ ts) v h =
      ground (arith, rank-holds t.phase (h 0), ended-held ts v (λ i. h (suc i)))

  -- From empty maps and new connections, an order of the phases that gives every connection four
  -- turns ends with every connection closed or turned away, no session counted and no user owned.
  pub run_ends :
      (is : List ℕ) (ts : List Thread) (s : Shared S state_file cleanup)
      → IsStart S state_file cleanup ts s
      → ((i : ℕ) → i < length ts → 4 ≤ turns i is)
      → let end = run S state_file cleanup is ts s in
        All (λ t. (t.phase ≡ closed) ⊎ (t.phase ≡ turned_away)) end.0
        × ((v : Text) → (count v end.1.book ≡ 0) × (lookup v end.1.book.owners ≡ none))
  run_ends is ts s h fair =
      let end = run S state_file cleanup is ts s in
      let over : (i : ℕ) → rank_at i end.0 ≡ 0 =
        λ i. ground (arith, run-rank_at i is ts s, rank_at_start i ts, fair i) in
      let free : (v : Text) → count v end.1.book ≡ 0 =
        λ v. run-count S state_file cleanup is ts s h v ∙ ended-held end.0 v over in
      (
        ended end.0 over (run_no_bad_release S state_file cleanup is ts s h),
        (λ v. (
          free v,
          no_owner v end.1.book
              (run-NoStale S state_file cleanup is ts s (start-NoStale S state_file cleanup ts s h))
              (free v),
        )),
      )
