-- ===== src/Reliability/CircuitBreaker.antt =====
-- src/reliability/circuit-breaker/circuit-breaker.ts. `execute` is cut at its `await`: `admit` is
-- what runs before the call of `fn`, `on_success` and `on_failure` what runs after it, so that calls
-- can overlap. Times are milliseconds, and each reading of the clock is an argument.
pub mod Invariant
pub mod Recovery
mod Tests
use openclaw_enterprise_plug.Common.{
  ℕ, suc, ◌+◌, ◌-◌, ◌≡◌, Bool, true, false, ◌&&◌, Option, none, some, List, [], ◌∷◌, leb,
  if◌then◌else◌, or_else,
}

pub record Options : Type 0 where
  pub failure_threshold : ℕ
  pub success_threshold : ℕ
  pub timeout_ms : ℕ
  pub half_open_max_calls : ℕ
  pub reset_time_ms : ℕ

pub data CircuitState : Type 0 where
  closed opened half_open : CircuitState

abbrev pub is_open : CircuitState → Bool
is_open opened = true
is_open _ = false

abbrev pub is_half_open : CircuitState → Bool
is_half_open half_open = true
is_half_open _ = false

abbrev pub is_closed : CircuitState → Bool
is_closed closed = true
is_closed _ = false

-- `changes` is the list of the calls of `onStateChange`, the latest first.
pub record Breaker : Type 0 where
  pub state : CircuitState
  pub failures : ℕ
  pub successes : ℕ
  pub consecutive_failures : ℕ
  pub consecutive_successes : ℕ
  pub last_failure_at : Option ℕ
  pub last_success_at : Option ℕ
  pub opened_at : Option ℕ
  pub half_open_calls : ℕ
  pub changes : List (CircuitState × CircuitState)

abbrev pub new_breaker : Breaker
new_breaker = record {
  state = closed;
  failures = 0;
  successes = 0;
  consecutive_failures = 0;
  consecutive_successes = 0;
  last_failure_at = none;
  last_success_at = none;
  opened_at = none;
  half_open_calls = 0;
  changes = [];
}

abbrev same_state : CircuitState → CircuitState → Bool
same_state closed closed = true
same_state opened opened = true
same_state half_open half_open = true
same_state _ _ = false

transition_to : CircuitState → Breaker → Breaker
transition_to next b =
    if same_state b.state next
    then b
    else record b { state = next; changes = (b.state, next) ∷ b.changes }

-- `elapsed >= resetTimeMs`, for `elapsed = now - (openedAt ?? 0)`, with the subtraction moved over.
reset_due : Options → ℕ → Breaker → Bool
reset_due o now b = leb (or_else b.opened_at 0 + o.reset_time_ms) now

check_state : Options → ℕ → Breaker → Breaker
unfolding transition_to reset_due
check_state o now b =
    if is_open b.state then (if reset_due o now b then transition_to half_open b else b) else b

-- What `execute` throws as a `CircuitBreakerOpenError`, with its `retryAfterMs`.
pub data Admission : Type 0 where
  go_ahead : Admission
  refused : ℕ → Admission

-- The check on the half-opened calls, with the increment that follows it.
admit_half_open : Options → Breaker → Breaker × Admission
admit_half_open o b =
    if is_half_open b.state
    then (if leb o.half_open_max_calls b.half_open_calls
        then (b, refused o.reset_time_ms)
        else (record b { half_open_calls = b.half_open_calls + 1 }, go_ahead))
    else (b, go_ahead)

-- `execute` after `checkState`, at the second reading of the clock.
admit_checked : Options → ℕ → Breaker → Breaker × Admission
unfolding transition_to reset_due admit_half_open
admit_checked o now b =
    if is_open b.state
    then (if reset_due o now b
        then admit_half_open o (transition_to half_open b)
        else (b, refused (or_else b.opened_at 0 + o.reset_time_ms - now)))
    else admit_half_open o b

-- `execute` up to the call of `fn`; `checkState` reads the clock at `t`, `execute` at `t'`.
unfoldable pub admit : Options → ℕ → ℕ → Breaker → Breaker × Admission
unfolding check_state admit_checked
admit o t t' b = admit_checked o t' (check_state o t b)

counted_success : ℕ → Breaker → Breaker
counted_success now b = record b {
  successes = b.successes + 1;
  consecutive_successes = b.consecutive_successes + 1;
  consecutive_failures = 0;
  last_success_at = some now;
}

unfoldable pub on_success : Options → ℕ → Breaker → Breaker
unfolding transition_to counted_success
on_success o now b =
    let c = counted_success now b in
    if is_half_open c.state && leb o.success_threshold c.consecutive_successes
    then record (transition_to closed c) { half_open_calls = 0 }
    else c

counted_failure : ℕ → Breaker → Breaker
counted_failure now b = record b {
  failures = b.failures + 1;
  consecutive_failures = b.consecutive_failures + 1;
  consecutive_successes = 0;
  last_failure_at = some now;
}

-- The two readings of the clock in `onFailure` are taken as one.
unfoldable pub on_failure : Options → ℕ → Breaker → Breaker
unfolding transition_to counted_failure
on_failure o now b =
    let c = counted_failure now b in
    if is_closed c.state && leb o.failure_threshold c.consecutive_failures
    then record (transition_to opened c) { opened_at = some now }
    else (if is_half_open c.state
        then record (transition_to opened c) { opened_at = some now; half_open_calls = 0 }
        else c)

unfoldable pub reset : Breaker → Breaker
unfolding transition_to
reset b = record (transition_to closed b) {
  failures = 0;
  successes = 0;
  consecutive_failures = 0;
  consecutive_successes = 0;
  half_open_calls = 0;
  opened_at = none;
}

-- What the promise of `fn` does, with the milliseconds that it takes.
pub data Outcome : Type 0 where
  resolves : ℕ → Outcome
  rejects : ℕ → Outcome
  hangs : Outcome

pub data Settled : Type 0 where
  fulfilled : ℕ → Settled
  failed : ℕ → Settled

-- `withTimeout`: the timer is set before `fn` is called, so at the same millisecond it comes first.
unfoldable pub with_timeout : Options → Outcome → Settled
with_timeout o (resolves d) = if leb o.timeout_ms d then failed o.timeout_ms else fulfilled d
with_timeout o (rejects d) = if leb o.timeout_ms d then failed o.timeout_ms else failed d
with_timeout o hangs = failed o.timeout_ms

settle : Options → ℕ → Settled → Breaker → Breaker
unfolding on_success on_failure
settle o now (fulfilled d) b = on_success o (now + d) b
settle o now (failed d) b = on_failure o (now + d) b

-- What a caller of `execute` sees.
pub data Execution : Type 0 where
  returned : Execution
  threw : Execution
  breaker_open : ℕ → Execution

seen : Settled → Execution
seen (fulfilled d) = returned
seen (failed d) = threw

finish : Options → ℕ → Outcome → Breaker × Admission → Breaker × Execution
unfolding with_timeout settle seen
finish o now f (b, refused ms) = (b, breaker_open ms)
finish o now f (b, go_ahead) = (settle o now (with_timeout o f) b, seen (with_timeout o f))

-- One call of `execute` that no other call overlaps.
unfoldable pub execute : Options → ℕ → ℕ → Outcome → Breaker → Breaker × Execution
unfolding admit finish
execute o t t' f b = finish o t' f (admit o t t' b)
