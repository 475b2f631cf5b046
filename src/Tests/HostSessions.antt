-- ===== src/Tests/HostSessions.antt =====
-- Three connections of the user manager, as a run of its promise and to their end.
use ziti_ssh.Prelude.{
  ℕ, zero, suc, ◌≤◌, ◌<◌, ◌≡◌, ◌⊎◌, refl, true, List, [], ◌∷◌, none, All, length, arith,
}
use ziti_ssh.Text.{Text}
use ziti_ssh.Dict.{lookup}
use ziti_ssh.Host.Users.{count}
use ziti_ssh.Host.Users.Threads.{Thread, Shared, closed, turned_away, run}
use ziti_ssh.Host.Users.Spec.{SpecRun}
use ziti_ssh.Host.Users.Moves.{sessions_of}
use ziti_ssh.Host.Users.Refinement.{actions, run_refines}
use ziti_ssh.Host.Users.Progress.{turns, run_ends}
use ziti_ssh.Tests.Samples.{small_system}
use ziti_ssh.Tests.HostUsers.{threads, state_file, start, schedule}

run_refines_example :
    SpecRun
      (actions small_system state_file true schedule threads start)
      []
      (sessions_of (run small_system state_file true schedule threads start).0)
run_refines_example =
    run_refines small_system state_file true schedule threads start
      ((refl, (refl, (refl, tt))), refl)

abbrev fair_schedule : List ℕ
fair_schedule = 0 ∷ 1 ∷ 2 ∷ 0 ∷ 1 ∷ 2 ∷ 2 ∷ 1 ∷ 0 ∷ 0 ∷ 1 ∷ 2 ∷ []

fair_schedule-turns : (i : ℕ) → i < length threads → 4 ≤ turns i fair_schedule
unfolding turns
fair_schedule-turns zero h = omega arith
fair_schedule-turns (suc zero) h = omega arith
fair_schedule-turns (suc (suc zero)) h = omega arith
fair_schedule-turns (suc (suc (suc i))) h = absurd (omega (arith, h))

abbrev last : List Thread × Shared small_system state_file true
last = run small_system state_file true fair_schedule threads start

run_ends_example :
    All (λ t. (t.phase ≡ closed) ⊎ (t.phase ≡ turned_away)) last.0
    × ((v : Text) → (count v last.1.book ≡ 0) × (lookup v last.1.book.owners ≡ none))
run_ends_example =
    run_ends small_system state_file true fair_schedule threads start
      ((refl, (refl, (refl, tt))), refl) fair_schedule-turns
