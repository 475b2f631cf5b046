-- ===== src/Config/Timeout.antt =====
-- RunWithTimeout of config/config.go: a call and a timer, of which the first to end decides. The call
-- is not stopped; its result then goes to a channel that nobody reads, and that has room for it.
use ziti_ssh.Prelude.{◌≡◌, refl, List, [], ◌∷◌, Option, none, some, Result, ok, err, arith}

-- What the select meets, in order.
pub data RaceEvent (E : Type 0) : Type 0 where
  returned : Result E (Unit {0}) → RaceEvent E
  time_up : RaceEvent E

pub data TimeoutError (E : Type 0) : Type 0 where
  failed : E → TimeoutError E
  timed_out : TimeoutError E

-- fn's error, or its success
unfoldable pub fn_result : {E : Type 0} → Result E (Unit {0}) → Result (TimeoutError E) (Unit {0})
fn_result (ok u) = ok u
fn_result (err e) = err (failed e)

-- `none` still waits
unfoldable pub run_with_timeout :
    {E : Type 0} → List (RaceEvent E) → Option (Result (TimeoutError E) (Unit {0}))
unfolding fn_result
run_with_timeout [] = none
run_with_timeout (returned r ∷ es) = some (fn_result r)
run_with_timeout (time_up ∷ es) = some (err timed_out)

-- The call's results before the time is up.
unfoldable pub results_in_time : {E : Type 0} → List (RaceEvent E) → List (Result E (Unit {0}))
results_in_time [] = []
results_in_time (returned r ∷ es) = r ∷ results_in_time es
results_in_time (time_up ∷ es) = []

-- A success is the call's own, in time; so a time-out is never taken for one.
pub run_with_timeout_ok :
    {E : Type 0}
    → (es : List (RaceEvent E)) → run_with_timeout es ≡ some (ok tt)
    → (rest : List (Result E (Unit {0}))) × (results_in_time es ≡ ok tt ∷ rest)
unfolding run_with_timeout fn_result results_in_time
run_with_timeout_ok [] h = absurd (ground (arith, h))
run_with_timeout_ok (returned (ok u) ∷ es) h = (results_in_time es, refl)
run_with_timeout_ok (returned (err e) ∷ es) h = absurd (ground (arith, h))
run_with_timeout_ok (time_up ∷ es) h = absurd (ground (arith, h))
