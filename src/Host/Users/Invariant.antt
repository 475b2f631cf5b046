-- ===== src/Host/Users/Invariant.antt =====
-- The invariant of the session accounting, step by step.
use ziti_ssh.Prelude.{ℕ, zero, suc, ◌+◌, ◌≤◌, ◌≡◌, refl, Bool, false, List, [], ◌∷◌, arith, All}
use ziti_ssh.Text.{Text, text_eq_refl}
use ziti_ssh.Host.Machine.{System}
use ziti_ssh.Host.Users.{Book}
use ziti_ssh.Host.Users.Threads.{Thread, Shared, step, step_at, run}
use ziti_ssh.Host.Users.Effects.{
  held, held_by, IsBook, Owned, SameOwners, step-Effect, step_sound, is_bad,
}

module _ (S : System) (state_file : Text) (cleanup : Bool) where
  -- The invariant, where `e` counts the sessions of connections that are not in the list.
  abbrev pub IsAccounted : (Text → ℕ) → List Thread → Shared S state_file cleanup → Type 0
  IsAccounted e ts s =
      IsBook s.book (λ v. held ts v + e v)
      × All (λ t. Owned s.book t.identity t.username t.phase) ts

  Owned-kept :
      (ts : List Thread) (b b' : Book) (f : Text → ℕ)
      → SameOwners b b' f
      → ((v : Text) → held ts v ≤ f v)
      → All (λ t. Owned b t.identity t.username t.phase) ts
      → All (λ t. Owned b' t.identity t.username t.phase) ts
  unfolding held held_by
  Owned-kept [] b b' f same le h = tt
  Owned-kept (t ∷ ts) b b' f same le h = (
    (λ now. ground (arith, same t.username, le t.username, h.0 now, now, text_eq_refl t.username)),
    Owned-kept ts b b' f same (λ v. ground (arith, le v)) h.1,
  )

  pub step_at-IsAccounted :
      (i : ℕ) (ts : List Thread) (s : Shared S state_file cleanup) (e : Text → ℕ)
      → IsAccounted e ts s
      → let r = step_at S state_file cleanup i ts s in
        IsAccounted e r.0 r.1 × SameOwners s.book r.1.book e
  unfolding step_at held
  step_at-IsAccounted i [] s e h = (h, (λ v pos. refl))
  step_at-IsAccounted zero (t ∷ ts) s e h =
      let f : Text → ℕ = λ v. held ts v + e v in
      let eff = step-Effect S state_file cleanup t s f in
      let did =
        eff.2 ((λ v. ground (arith, h.0.0 v)), (λ v free. ground (arith, h.0.1 v free))) h.1.0 in
      (
        (
          (
            (λ v. rw (eff.1) (ground (arith, did.0.0 v))),
            (λ v free. rw (eff.1) (ground (arith, did.0.1 v free))),
          ),
          (
            rw (eff.1, eff.0) did.1,
            Owned-kept ts s.book (step S state_file cleanup t s).1.book f did.2 (λ v. ground arith)
                h.1.1,
          ),
        ),
        (λ v pos. did.2 v (ground (arith, pos))),
      )
  step_at-IsAccounted (suc i) (t ∷ ts) s e h =
      let f : Text → ℕ = λ v. held_by t.phase t.username v + e v in
      let did =
        step_at-IsAccounted i ts s f
          (((λ v. ground (arith, h.0.0 v)), (λ v free. ground (arith, h.0.1 v free))), h.1.1) in
      (
        (
          ((λ v. ground (arith, did.0.0.0 v)), (λ v free. ground (arith, did.0.0.1 v free))),
          (
            (Owned-kept (t ∷ []) s.book (step_at S state_file cleanup i ts s).1.book f did.1
                (λ v. ground arith) (h.1.0, tt)).0,
            did.0.1,
          ),
        ),
        (λ v pos. did.1 v (ground (arith, pos))),
      )

  pub run-IsAccounted :
      (is : List ℕ) (ts : List Thread) (s : Shared S state_file cleanup)
      → IsAccounted (λ v. 0) ts s
      → let r = run S state_file cleanup is ts s in IsAccounted (λ v. 0) r.0 r.1
  unfolding run
  run-IsAccounted [] ts s h = h
  run-IsAccounted (i ∷ is) ts s h = run-IsAccounted is _ _ (step_at-IsAccounted i ts s (λ v. 0) h).0

  abbrev pub AllSound : List Thread → Type 0
  AllSound = All λ t. is_bad t.phase ≡ false

  step_at-AllSound :
      (i : ℕ) (ts : List Thread) (s : Shared S state_file cleanup) (e : Text → ℕ)
      → IsAccounted e ts s
      → AllSound ts
      → AllSound (step_at S state_file cleanup i ts s).0
  unfolding step_at held
  step_at-AllSound i [] s e h sound = tt
  step_at-AllSound zero (t ∷ ts) s e h sound = (
    step_sound S state_file cleanup t.phase t.identity t.username t.perms s (λ v. held ts v + e v)
        ((λ v. ground (arith, h.0.0 v)), (λ v free. ground (arith, h.0.1 v free))) sound.0,
    sound.1,
  )
  step_at-AllSound (suc i) (t ∷ ts) s e h sound = (
    sound.0,
    step_at-AllSound i ts s (λ v. held_by t.phase t.username v + e v)
        (((λ v. ground (arith, h.0.0 v)), (λ v free. ground (arith, h.0.1 v free))), h.1.1) sound.1,
  )

  pub run-AllSound :
      (is : List ℕ) (ts : List Thread) (s : Shared S state_file cleanup)
      → IsAccounted (λ v. 0) ts s
      → AllSound ts
      → AllSound (run S state_file cleanup is ts s).0
  unfolding run
  run-AllSound [] ts s h sound = sound
  run-AllSound (i ∷ is) ts s h sound =
      run-AllSound is (step_at S state_file cleanup i ts s).0
        (step_at S state_file cleanup i ts s).1 (step_at-IsAccounted i ts s (λ v. 0) h).0
        (step_at-AllSound i ts s (λ v. 0) h sound)
