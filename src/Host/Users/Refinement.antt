-- ===== src/Host/Users/Refinement.antt =====
-- Every interleaving of the connections is a run of the promise.
use ziti_ssh.Prelude.{
  ℕ, zero, suc, ◌≡◌, refl, ap, Bool, true, false, List, [], ◌∷◌, if◌then◌else◌, Result, ok, err,
  arith, All, ◌==◌, subst,
}
use ziti_ssh.Text.{Text}
use ziti_ssh.Dict.{lookup}
use ziti_ssh.Host.Permissions.{IdentityPermissions}
use ziti_ssh.Host.Machine.{System, Machine, useradd_ok, call}
use ziti_ssh.Host.Users.{
  EnsureError, useradd_failed, Book, count, is_taken, ensure_begin, roll_back, ensure_finish_first,
}
use ziti_ssh.Host.Users.Threads.{
  Thread, Shared, Phase, holds, waiting, creating, joining, connected, deleting, closed,
  turned_away, bad_release, step, step_at, run,
}
use ziti_ssh.Host.Users.Effects.{step-Effect}
use ziti_ssh.Host.Users.Invariant.{IsAccounted, step_at-IsAccounted}
use ziti_ssh.Host.Users.Spec.{Action, idle, SpecStep, SpecRun, done, next}
use ziti_ssh.Host.Users.Sessions.{IsStart, start-IsAccounted}
use ziti_ssh.Host.Users.Moves.{
  sessions_of, push_if, acted, is_waiting, Moved, Moved-cons, Moved-thread, NoStale, begin-NoStale,
  roll_back-NoStale, release-NoStale, Justified, Justified-old, Justified-begun, Moved-SpecStep,
}

module _ (S : System) (state_file : Text) (cleanup : Bool) where
  decided-NoStale :
      (x : Bool) (u : Text) (b : Book) (m m' : Machine S)
      → NoStale b
      → let r : Result EnsureError (Unit {0}) × Book × Machine S =
          (if x then (ok tt, b, m) else (err useradd_failed, roll_back u b, m')) in
        NoStale r.1
  decided-NoStale true u b m m' h = h
  decided-NoStale false u b m m' h = roll_back-NoStale u b h

  finish-NoStale :
      (u : Text) (perms : IdentityPermissions) (b : Book) (m : Machine S)
      → NoStale b
      → NoStale (ensure_finish_first S state_file u perms b m).1
  unfolding ensure_finish_first
  finish-NoStale u perms b m = decided-NoStale (useradd_ok (call S (S.useradd u) m).0) u b _ _

  module _ (identity u : Text) (perms : IdentityPermissions) (s : Shared S state_file cleanup) where
    abbrev thread_in : Phase → Thread
    thread_in p = record { identity = identity; username = u; perms = perms; phase = p }

    step-Justified_at :
        (p : Phase)
        → Justified (acted (thread_in p) (step S state_file cleanup (thread_in p) s).0.phase) s.book
    unfolding acted is_waiting step
    step-Justified_at waiting =
        unfold holds ensure_begin in
        Justified-begun (is_taken identity u s.book) (count u s.book == 0) (identity, u) s.book _ _
          refl
    step-Justified_at creating = Justified-old (holds creating) _ (identity, u) s.book
    step-Justified_at joining = Justified-old (holds joining) _ (identity, u) s.book
    step-Justified_at connected = Justified-old (holds connected) _ (identity, u) s.book
    step-Justified_at deleting = Justified-old (holds deleting) _ (identity, u) s.book
    step-Justified_at closed = Justified-old (holds closed) _ (identity, u) s.book
    step-Justified_at turned_away = Justified-old (holds turned_away) _ (identity, u) s.book
    step-Justified_at bad_release = Justified-old (holds bad_release) _ (identity, u) s.book

    step-NoStale_at :
        (p : Phase) → NoStale s.book → NoStale (step S state_file cleanup (thread_in p) s).1.book
    unfolding step
    step-NoStale_at waiting h = begin-NoStale identity u s.book h
    step-NoStale_at creating h = finish-NoStale u perms s.book s.machine h
    step-NoStale_at joining h = h
    step-NoStale_at connected h = release-NoStale u s.book h
    step-NoStale_at deleting h = h
    step-NoStale_at closed h = h
    step-NoStale_at turned_away h = h
    step-NoStale_at bad_release h = h

  -- what the step of the connection at an index does to the sessions
  unfoldable pub action_at : ℕ → List Thread → Shared S state_file cleanup → Action
  action_at i [] s = idle
  action_at zero (t ∷ ts) s = acted t (step S state_file cleanup t s).0.phase
  action_at (suc i) (t ∷ ts) s = action_at i ts s

  unfoldable pub actions : List ℕ → List Thread → Shared S state_file cleanup → List Action
  unfolding action_at
  actions [] ts s = []
  actions (i ∷ is) ts s =
      let (ts', s') = step_at S state_file cleanup i ts s in action_at i ts s ∷ actions is ts' s'

  step_at-Moved :
      (i : ℕ) (ts : List Thread) (s : Shared S state_file cleanup)
      → Moved
          (action_at i ts s)
          (sessions_of ts)
          (sessions_of (step_at S state_file cleanup i ts s).0)
  unfolding action_at step_at sessions_of
  step_at-Moved i [] s = unfold Moved in refl
  step_at-Moved zero (t ∷ ts) s =
      let eff = step-Effect S state_file cleanup t s (λ v. 0) in
      Moved-thread t (step S state_file cleanup t s).0 ts eff.0 eff.1
  step_at-Moved (suc i) (t ∷ ts) s =
      Moved-cons (action_at i ts s) (holds t.phase) (t.identity, t.username) (sessions_of ts)
        (sessions_of (step_at S state_file cleanup i ts s).0) (step_at-Moved i ts s)

  step_at-Justified :
      (i : ℕ) (ts : List Thread) (s : Shared S state_file cleanup)
      → Justified (action_at i ts s) s.book
  unfolding action_at
  step_at-Justified i [] s = tt
  step_at-Justified zero (t ∷ ts) s = step-Justified_at t.identity t.username t.perms s t.phase
  step_at-Justified (suc i) (t ∷ ts) s = step_at-Justified i ts s

  step_at-NoStale :
      (i : ℕ) (ts : List Thread) (s : Shared S state_file cleanup)
      → NoStale s.book
      → NoStale (step_at S state_file cleanup i ts s).1.book
  unfolding step_at
  step_at-NoStale i [] s h = h
  step_at-NoStale zero (t ∷ ts) s h = step-NoStale_at t.identity t.username t.perms s t.phase h
  step_at-NoStale (suc i) (t ∷ ts) s h = step_at-NoStale i ts s h

  step_at-SpecStep :
      (i : ℕ) (ts : List Thread) (s : Shared S state_file cleanup)
      → IsAccounted S state_file cleanup (λ v. 0) ts s
      → NoStale s.book
      → SpecStep
          (action_at i ts s)
          (sessions_of ts)
          (sessions_of (step_at S state_file cleanup i ts s).0)
  step_at-SpecStep i ts s h ns =
      let r = step_at S state_file cleanup i ts s in
      let after = (step_at-IsAccounted S state_file cleanup i ts s (λ v. 0) h).0 in
      Moved-SpecStep (action_at i ts s) ts r.0 s.book r.1.book (step_at-Moved i ts s)
        (step_at-Justified i ts s) (λ v. ground (arith, h.0.0 v)) ns h.1 after.1

  pub run-NoStale :
      (is : List ℕ) (ts : List Thread) (s : Shared S state_file cleanup)
      → NoStale s.book
      → NoStale (run S state_file cleanup is ts s).1.book
  unfolding run
  run-NoStale [] ts s h = h
  run-NoStale (i ∷ is) ts s h = run-NoStale is _ _ (step_at-NoStale i ts s h)

  run-SpecRun :
      (is : List ℕ) (ts : List Thread) (s : Shared S state_file cleanup)
      → IsAccounted S state_file cleanup (λ v. 0) ts s
      → NoStale s.book
      → SpecRun
          (actions is ts s)
          (sessions_of ts)
          (sessions_of (run S state_file cleanup is ts s).0)
  unfolding run actions
  run-SpecRun [] ts s h ns = done
  run-SpecRun (i ∷ is) ts s h ns = next (step_at-SpecStep i ts s h ns) (
      run-SpecRun is _ _ (step_at-IsAccounted S state_file cleanup i ts s (λ v. 0) h).0
        (step_at-NoStale i ts s ns))

  start_sessions : (ts : List Thread) → All (λ t. t.phase ≡ waiting) ts → sessions_of ts ≡ []
  unfolding sessions_of push_if holds
  start_sessions [] h = refl
  start_sessions (t ∷ ts) h = ground (arith, h.0, start_sessions ts h.1)

  pub start-NoStale :
      (ts : List Thread) (s : Shared S state_file cleanup)
      → IsStart S state_file cleanup ts s
      → NoStale s.book
  unfolding lookup
  start-NoStale ts s h v own = absurd (own (ap (λ b. lookup v b.owners) h.1))

  -- From empty maps and new connections, whatever the order of the phases, the run is one of the
  -- promise: a connection that begins takes its session if no other identity has one of the user, and
  -- is turned away exactly if one has; a session that ends is given back; all other steps leave the
  -- sessions alone.
  pub run_refines :
      (is : List ℕ) (ts : List Thread) (s : Shared S state_file cleanup)
      → IsStart S state_file cleanup ts s
      → SpecRun (actions is ts s) [] (sessions_of (run S state_file cleanup is ts s).0)
  run_refines is ts s h =
      subst (λ ss. SpecRun (actions is ts s) ss (sessions_of (run S state_file cleanup is ts s).0))
        (start_sessions ts h.0)
        (run-SpecRun is ts s (start-IsAccounted S state_file cleanup ts s h) (start-NoStale ts s h))
