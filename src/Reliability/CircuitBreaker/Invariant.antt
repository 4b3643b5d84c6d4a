-- ===== src/Reliability/CircuitBreaker/Invariant.antt =====
-- What holds of a breaker between two operations, whatever calls overlap.
use openclaw_enterprise_plug.Common.{ℕ, suc, ◌-◌, ◌≤◌, ◌<◌, ◌≡◌, ◌≢◌, true, arith, is_some}
use openclaw_enterprise_plug.Reliability.CircuitBreaker.{
  Options, Breaker, closed, half_open, go_ahead, refused, new_breaker, admit, on_success,
  on_failure, reset,
}

pub record IsValid (o : Options) (b : Breaker) : Type 0 where
  pub probes : b.half_open_calls ≤ o.half_open_max_calls
  pub no_probe : b.state ≢ half_open → b.half_open_calls ≡ 0
  pub dated : b.state ≢ closed → is_some b.opened_at ≡ true
  pub below : b.state ≡ closed → b.consecutive_failures < o.failure_threshold
  pub failures_counted : b.consecutive_failures ≤ b.failures
  pub successes_counted : b.consecutive_successes ≤ b.successes

new-IsValid : (o : Options) → 0 < o.failure_threshold → IsValid o new_breaker
new-IsValid o h = ground arith

admit-IsValid : (o : Options) (t t' : ℕ) (b : Breaker) → IsValid o b → IsValid o (admit o t t' b).0
unfolding admit
admit-IsValid o t t' b v = ground arith

on_success-IsValid :
    (o : Options) (now : ℕ) (b : Breaker)
    → 0 < o.failure_threshold
    → IsValid o b
    → IsValid o (on_success o now b)
unfolding on_success
on_success-IsValid o now b p v = ground arith

on_failure-IsValid :
    (o : Options) (now : ℕ) (b : Breaker) → IsValid o b → IsValid o (on_failure o now b)
unfolding on_failure
on_failure-IsValid o now b v = ground arith

reset-IsValid :
    (o : Options) (b : Breaker) → 0 < o.failure_threshold → IsValid o b → IsValid o (reset b)
unfolding reset
reset-IsValid o b p v = ground arith

-- Calls that overlap: `admitted` counts those that have begun and have not yet settled.
pub record System : Type 0 where
  pub breaker : Breaker
  pub admitted : ℕ

pub data Step (o : Options) : System → System → Type 0 where
  begin :
      (s : System) (t t' : ℕ)
      → (admit o t t' s.breaker).1 ≡ go_ahead
      → Step o s (record { breaker = (admit o t t' s.breaker).0; admitted = suc s.admitted })
  turn_away :
      (s : System) (t t' ms : ℕ)
      → (admit o t t' s.breaker).1 ≡ refused ms
      → Step o s (record s { breaker = (admit o t t' s.breaker).0 })
  succeed :
      (s : System) (now : ℕ)
      → 0 < s.admitted
      → Step o s (record { breaker = on_success o now s.breaker; admitted = s.admitted - 1 })
  fail :
      (s : System) (now : ℕ)
      → 0 < s.admitted
      → Step o s (record { breaker = on_failure o now s.breaker; admitted = s.admitted - 1 })
  restart : (s : System) → Step o s (record s { breaker = reset s.breaker })

pub data Reach (o : Options) : System → Type 0 where
  start : Reach o (record { breaker = new_breaker; admitted = 0 })
  next : {s s' : System} → Reach o s → Step o s s' → Reach o s'

Step-IsValid :
    (o : Options) {s s' : System}
    → 0 < o.failure_threshold
    → Step o s s'
    → IsValid o s.breaker
    → IsValid o s'.breaker
Step-IsValid o p (begin s t t' e) v = admit-IsValid o t t' s.breaker v
Step-IsValid o p (turn_away s t t' ms e) v = admit-IsValid o t t' s.breaker v
Step-IsValid o p (succeed s now k) v = on_success-IsValid o now s.breaker p v
Step-IsValid o p (fail s now k) v = on_failure-IsValid o now s.breaker v
Step-IsValid o p (restart s) v = reset-IsValid o s.breaker p v

-- However calls overlap, a breaker with a positive failure threshold never has more half-opened calls
-- on its count than `halfOpenMaxCalls`, counts none outside the half-opened state, has a date of
-- opening whenever it is not closed, and while it is closed has had fewer failures in a row than the
-- threshold; neither count of a row passes its total.
pub Reach-IsValid :
    (o : Options) {s : System} → 0 < o.failure_threshold → Reach o s → IsValid o s.breaker
Reach-IsValid o p start = new-IsValid o p
Reach-IsValid o p (next r st) = Step-IsValid o p st (Reach-IsValid o p r)
