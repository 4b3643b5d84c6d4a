-- ===== src/Reliability/CircuitBreaker/Tests.antt =====
-- Runs of the circuit breaker at concrete inputs.
use openclaw_enterprise_plug.Common.{◌≡◌, refl, List, [], ◌∷◌, arith, some}
use openclaw_enterprise_plug.Reliability.CircuitBreaker.{
  Options, Breaker, closed, opened, half_open, resolves, rejects, hangs, returned, threw,
  breaker_open, new_breaker, admit, on_failure, execute,
}
use openclaw_enterprise_plug.Reliability.CircuitBreaker.Invariant.{
  IsValid, start, next, begin, fail, Reach-IsValid,
}
use openclaw_enterprise_plug.Reliability.CircuitBreaker.Recovery.{
  Call, run, run_failures, opened_refuses, run_recovers, run_stalls,
}

abbrev options : Options
options = record {
  failure_threshold = 2;
  success_threshold = 2;
  timeout_ms = 100;
  half_open_max_calls = 3;
  reset_time_ms = 1000;
}

abbrev failing : List Call
failing =
    record { at = 10; then_at = 11; outcome = rejects 5 }
    ∷ record { at = 20; then_at = 21; outcome = hangs }
    ∷ []

abbrev first : Call
first = record { at = 2000; then_at = 2001; outcome = resolves 7 }

abbrev second : Call
second = record { at = 2100; then_at = 2100; outcome = resolves 9 }

-- The breaker after the two failures, the second of which timed out at 121.
abbrev tripped : Breaker
tripped = record new_breaker {
  state = opened;
  failures = 2;
  consecutive_failures = 2;
  last_failure_at = some 121;
  opened_at = some 121;
  changes = (closed, opened) ∷ [];
}

trips : run options failing new_breaker ≡ (tripped, threw ∷ threw ∷ [])
unfolding run execute
trips = refl

run_failures_run : (run options failing new_breaker).0.state ≡ opened
run_failures_run =
    (run_failures options failing new_breaker refl (tt, (tt, tt)) (omega arith) (omega arith)).2
      refl

opened_refuses_run : execute options 500 501 (resolves 1) tripped ≡ (tripped, breaker_open 620)
opened_refuses_run =
    opened_refuses options 500 501 121 (resolves 1) tripped refl refl (omega arith) (omega arith)

run_recovers_example :
    ((run options (first ∷ second ∷ []) tripped).1 ≡ returned ∷ returned ∷ [])
    × ((run options (first ∷ second ∷ []) tripped).0.state ≡ closed)
run_recovers_example =
    run_recovers options first (second ∷ []) 121 tripped refl refl refl refl (omega arith)
      (omega arith) refl (omega arith)

abbrev narrow : Options
narrow = record options { success_threshold = 2; half_open_max_calls = 1 }

run_stalls_run :
    let b = (run narrow (first ∷ []) tripped).0 in
    (b.state ≡ half_open)
    × (run narrow (second ∷ second ∷ []) b ≡ (b, breaker_open 1000 ∷ breaker_open 1000 ∷ []))
run_stalls_run =
    run_stalls narrow first [] (second ∷ second ∷ []) 121 tripped refl refl refl refl (omega arith)
      (omega arith) refl (omega arith)

Reach-IsValid_example : IsValid options (on_failure options 9 (admit options 3 4 new_breaker).0)
unfolding admit
Reach-IsValid_example =
    Reach-IsValid options (omega arith)
      (next (next start (begin _ 3 4 refl)) (fail _ 9 (omega arith)))
