-- ===== src/Reliability/CircuitBreaker/Recovery.antt =====
-- How a breaker trips, refuses, recovers, and when it cannot recover: runs of `execute` in which no
-- two calls overlap.
use openclaw_enterprise_plug.Common.{
  ℕ, suc, ◌+◌, ◌-◌, ◌≤◌, ◌<◌, ◌≡◌, refl, some, List, [], ◌∷◌, map, arith, length, All,
}
use openclaw_enterprise_plug.Reliability.CircuitBreaker.{
  Options, Breaker, closed, opened, half_open, Outcome, resolves, rejects, hangs, Execution,
  returned, threw, breaker_open, execute,
}

-- A call of `execute`, with the two readings of the clock.
pub record Call : Type 0 where
  pub at : ℕ
  pub then_at : ℕ
  pub outcome : Outcome

unfoldable pub run : Options → List Call → Breaker → Breaker × List Execution
run o [] b = (b, [])
run o (c ∷ cs) b =
    let (b', e) = execute o c.at c.then_at c.outcome b in
    let (b'', es) = run o cs b' in (b'', e ∷ es)

-- `fn` resolves before the timer.
abbrev pub Succeeds : Options → Outcome → Type 0
Succeeds o (resolves d) = d < o.timeout_ms
Succeeds o (rejects d) = ⊥
Succeeds o hangs = ⊥

-- `fn` rejects, or the timer comes first.
abbrev pub Fails : Options → Outcome → Type 0
Fails o (resolves d) = o.timeout_ms ≤ d
Fails o (rejects d) = Unit
Fails o hangs = Unit

closed_failure :
    (o : Options) (t t' : ℕ) (f : Outcome) (b : Breaker)
    → b.state ≡ closed
    → Fails o f
    → let (b', e) = execute o t t' f b in
      (e ≡ threw)
      × (b'.consecutive_failures ≡ suc b.consecutive_failures)
      × (suc b.consecutive_failures < o.failure_threshold → b'.state ≡ closed)
      × (o.failure_threshold ≤ suc b.consecutive_failures → b'.state ≡ opened)
unfolding execute
closed_failure o t t' (resolves d) b s h = ground arith
closed_failure o t t' (rejects d) b s h = ground arith
closed_failure o t t' hangs b s h = ground arith

half_open_success :
    (o : Options) (t t' : ℕ) (f : Outcome) (b : Breaker)
    → b.state ≡ half_open
    → Succeeds o f
    → b.half_open_calls < o.half_open_max_calls
    → let (b', e) = execute o t t' f b in
      (e ≡ returned)
      × (b'.consecutive_successes ≡ suc b.consecutive_successes)
      × (suc b.consecutive_successes < o.success_threshold → b'.state ≡ half_open)
      × (suc b.consecutive_successes < o.success_threshold
          → b'.half_open_calls ≡ suc b.half_open_calls)
      × (o.success_threshold ≤ suc b.consecutive_successes → b'.state ≡ closed)
unfolding execute
half_open_success o t t' (resolves d) b s h k = ground arith
half_open_success o t t' (rejects d) b s h k = absurd h
half_open_success o t t' hangs b s h k = absurd h

-- Once the reset time has passed, `execute` goes on as it does in the half-open state.
abbrev pub probing : Breaker → Breaker
probing b = record b { state = half_open; changes = (opened, half_open) ∷ b.changes }

execute_due :
    (o : Options) (t t' t₀ : ℕ) (f : Outcome) (b : Breaker)
    → b.state ≡ opened
    → b.opened_at ≡ some t₀
    → t₀ + o.reset_time_ms ≤ t
    → execute o t t' f b ≡ execute o t t' f (probing b)
unfolding execute
execute_due o t t' t₀ f b s e h = ground arith

-- A closed breaker stays closed while the failures in a row are fewer than the threshold, and is
-- open as soon as they reach it; each of the calls was made, and threw.
pub run_failures :
    (o : Options) (cs : List Call) (b : Breaker)
    → b.state ≡ closed
    → All (λ c. Fails o c.outcome) cs
    → b.consecutive_failures + length cs ≤ o.failure_threshold
    → b.consecutive_failures < o.failure_threshold
    → ((run o cs b).1 ≡ map (λ _. threw) cs)
      × (b.consecutive_failures + length cs < o.failure_threshold → (run o cs b).0.state ≡ closed)
      × (b.consecutive_failures + length cs ≡ o.failure_threshold → (run o cs b).0.state ≡ opened)
unfolding run
run_failures o [] b s h k p = (refl, λ _. s, λ e. absurd (omega arith))
run_failures o (c ∷ []) b s h k p =
    let (e, n, stays, trips) = closed_failure o c.at c.then_at c.outcome b s h.0 in
    (cc, λ q. stays (omega arith), λ q. trips (omega arith))
run_failures o (c ∷ c' ∷ cs) b s h k p =
    let (e, n, stays, trips) = closed_failure o c.at c.then_at c.outcome b s h.0 in
    let (es, low, high) =
      run_failures o (c' ∷ cs) (execute o c.at c.then_at c.outcome b).0 (stays (omega arith)) h.1
        (omega arith) (omega arith) in
    (cc, λ q. low (omega arith), λ q. high (omega arith))

-- An open breaker refuses every call made before its reset time has passed: `fn` is not run, nothing
-- changes, and the error says how long is left.
pub opened_refuses :
    (o : Options) (t t' t₀ : ℕ) (f : Outcome) (b : Breaker)
    → b.state ≡ opened
    → b.opened_at ≡ some t₀
    → t ≤ t'
    → t' < t₀ + o.reset_time_ms
    → execute o t t' f b ≡ (b, breaker_open (t₀ + o.reset_time_ms - t'))
unfolding execute
opened_refuses o t t' t₀ f b s e h k = ground arith

half_open_run :
    (o : Options) (cs : List Call) (b : Breaker)
    → b.state ≡ half_open
    → All (λ c. Succeeds o c.outcome) cs
    → b.half_open_calls + length cs ≤ o.half_open_max_calls
    → b.consecutive_successes + length cs ≤ o.success_threshold
    → b.consecutive_successes < o.success_threshold
    → ((run o cs b).1 ≡ map (λ _. returned) cs)
      × (b.consecutive_successes + length cs ≡ o.success_threshold → (run o cs b).0.state ≡ closed)
      × (b.consecutive_successes + length cs < o.success_threshold
          → ((run o cs b).0.state ≡ half_open)
            × ((run o cs b).0.half_open_calls ≡ b.half_open_calls + length cs))
unfolding run
half_open_run o [] b s h room k p = (refl, λ e. absurd (omega arith), λ _. (s, omega arith))
half_open_run o (c ∷ []) b s h room k p =
    let (e, n, stays, more, closes) =
      half_open_success o c.at c.then_at c.outcome b s h.0 (omega arith) in
    (cc, λ q. closes (omega arith), λ q. (stays (omega arith), omega (arith, more (omega arith))))
half_open_run o (c ∷ c' ∷ cs) b s h room k p =
    let (e, n, stays, more, closes) =
      half_open_success o c.at c.then_at c.outcome b s h.0 (omega arith) in
    let m = more (omega arith) in
    let (es, done, left) =
      half_open_run o (c' ∷ cs) (execute o c.at c.then_at c.outcome b).0 (stays (omega arith)) h.1
        (omega arith) (omega arith) (omega arith) in
    (cc, λ q. done (omega arith), λ q. let (w, z) = left (omega arith) in (w, omega (arith, z, m)))

run_due :
    (o : Options) (c : Call) (cs : List Call) (t₀ : ℕ) (b : Breaker)
    → b.state ≡ opened
    → b.opened_at ≡ some t₀
    → t₀ + o.reset_time_ms ≤ c.at
    → run o (c ∷ cs) b ≡ run o (c ∷ cs) (probing b)
unfolding run
run_due o c cs t₀ b s e h = rw (execute_due o c.at c.then_at t₀ c.outcome b s e h)

-- A freshly opened breaker closes again after as many successful calls as the success threshold, the
-- first of them made once the reset time has passed, if that many half-open calls are allowed; each
-- of the calls is made and returns.
pub run_recovers :
    (o : Options) (c : Call) (cs : List Call) (t₀ : ℕ) (b : Breaker)
    → b.state ≡ opened
    → b.opened_at ≡ some t₀
    → b.half_open_calls ≡ 0
    → b.consecutive_successes ≡ 0
    → t₀ + o.reset_time_ms ≤ c.at
    → All (λ c. Succeeds o c.outcome) (c ∷ cs)
    → length (c ∷ cs) ≡ o.success_threshold
    → o.success_threshold ≤ o.half_open_max_calls
    → ((run o (c ∷ cs) b).1 ≡ map (λ _. returned) (c ∷ cs)) × ((run o (c ∷ cs) b).0.state ≡ closed)
run_recovers o c cs t₀ b s e z zs due h n room =
    let (es, done, _) =
      half_open_run o (c ∷ cs) (probing b) refl h (omega arith) (omega arith) (omega arith) in
    rw (run_due o c cs t₀ b s e due) (es, done (omega arith))

half_open_full :
    (o : Options) (ds : List Call) (b : Breaker)
    → b.state ≡ half_open
    → o.half_open_max_calls ≤ b.half_open_calls
    → run o ds b ≡ (b, map (λ _. breaker_open o.reset_time_ms) ds)
unfolding run
half_open_full o [] b s h = refl
half_open_full o (d ∷ ds) b s h =
    let e : execute o d.at d.then_at d.outcome b ≡ (b, breaker_open o.reset_time_ms) =
      unfold execute in ground arith in
    rw e (rw (half_open_full o ds b s h))

-- If the success threshold is above the number of half-open calls allowed, a freshly opened breaker
-- never closes again by calls: after that many successful calls it refuses every later call, at
-- whatever time and with whatever outcome it would have had.
pub run_stalls :
    (o : Options) (c : Call) (cs ds : List Call) (t₀ : ℕ) (b : Breaker)
    → b.state ≡ opened
    → b.opened_at ≡ some t₀
    → b.half_open_calls ≡ 0
    → b.consecutive_successes ≡ 0
    → t₀ + o.reset_time_ms ≤ c.at
    → All (λ c. Succeeds o c.outcome) (c ∷ cs)
    → length (c ∷ cs) ≡ o.half_open_max_calls
    → o.half_open_max_calls < o.success_threshold
    → let b' = (run o (c ∷ cs) b).0 in
      (b'.state ≡ half_open) × (run o ds b' ≡ (b', map (λ _. breaker_open o.reset_time_ms) ds))
run_stalls o c cs ds t₀ b s e z zs due h n room =
    let (_, _, left) =
      half_open_run o (c ∷ cs) (probing b) refl h (omega arith) (omega arith) (omega arith) in
    let (w, k) = left (omega arith) in
    rw (run_due o c cs t₀ b s e due) (w, half_open_full o ds _ w (omega (arith, k)))
