-- ===== src/Reliability/Retry/Attempts.antt =====
-- Which attempt decides a retried call, and how long the pauses are.
use openclaw_enterprise_plug.Common.{
  ℕ, zero, suc, ◌+◌, ◌-◌, ◌*◌, ◌≤◌, ◌<◌, ◌≡◌, ◌⊎◌, refl, sym, subst, Bool, true, false, not, ◌||◌,
  ◌==◌, Option, none, some, [], leb, arith, length, inl, inr, Bool-cases,
}
use openclaw_enterprise_plug.Reliability.Retry.{
  RetryOptions, Attempted, returned, failed, Ended, gave, threw, Run, Ratio, may_retry, note,
  try_from, with_retry,
}

abbrev pub IsAtMost : Ratio → Ratio → Type 0
IsAtMost a b = a.num * b.den ≤ b.num * a.den

Attempted-cases :
    {T E : Type 0} (x : Attempted T E) → ((v : T) × (x ≡ returned v)) ⊎ ((e : E) × (x ≡ failed e))
Attempted-cases (returned v) = inl (v, refl)
Attempted-cases (failed e) = inr (e, refl)

module _ {T E : Type 0} (o : RetryOptions E) (random : ℕ → ℕ) (fn : ℕ → Attempted T E) where
  -- An attempt after which there is no other: it returns, its error may not be retried, or it is the
  -- last one allowed.
  abbrev pub decides : ℕ → Bool
  decides n = elim (fn n) [
    | returned v ↦ true
    | failed e ↦ not (may_retry o random fn e) || leb o.max_attempts n
  ]

  abbrev pub end_of : Attempted T E → Ended T E
  end_of (returned v) = gave v
  end_of (failed e) = threw (some e)

  -- The attempts from `a` to `n` are made, and only the last one decides.
  pub record Decided (a n : ℕ) (run : Run T E) : Type 0 where
    pub lower : a ≤ n
    pub upper : n ≤ o.max_attempts
    pub deciding : decides n ≡ true
    pub first : (i : ℕ) → a ≤ i → i < n → decides i ≡ false
    pub result : run.ended ≡ end_of (fn n)
    pub counted : run.calls + a ≡ suc n
    pub paused : suc (length run.retries) ≡ run.calls

  -- At an attempt that decides, the loop ends.
  stops :
      (left a : ℕ) (last : Option E)
      → decides a ≡ true
      → try_from o random fn (suc left) a last
        ≡ record { calls = 1; retries = []; ended = end_of (fn a) }
  unfolding try_from
  stops left a last h = ground arith

  -- At any other one, it notes the pause and goes on.
  goes_on :
      (left a : ℕ) (last : Option E)
      → decides a ≡ false
      → (e : E) × (try_from o random fn (suc left) a last
          ≡ note o random fn a e (try_from o random fn left (suc a) (some e)))
        × (suc a ≤ o.max_attempts)
  unfolding try_from
  goes_on left a last h = elim (Attempted-cases (fn a)) [
    | inl (v, e) ↦ absurd (ground (arith, e))
    | inr (x, e) ↦ (x, ground (arith, e), ground (arith, e))
  ]

  decides_last : (a : ℕ) → o.max_attempts ≤ a → decides a ≡ true
  decides_last a h = elim (Attempted-cases (fn a)) [
    | inl (v, e) ↦ ground (arith, e)
    | inr (x, e) ↦ ground (arith, e)
  ]

  Decided-now :
      (left a : ℕ) (last : Option E)
      → a ≤ o.max_attempts
      → decides a ≡ true
      → Decided a a (try_from o random fn (suc left) a last)
  Decided-now left a last h d = rw (stops left a last d) (record {
    lower = omega arith;
    upper = h;
    deciding = d;
    first = λ i l m. absurd (omega arith);
    result = refl;
    counted = omega arith;
    paused = refl;
  })

  Decided-later :
      (left a n : ℕ) (last : Option E)
      → decides a ≡ false
      → (e : E)
      → try_from o random fn (suc left) a last
        ≡ note o random fn a e (try_from o random fn left (suc a) (some e))
      → Decided (suc a) n (try_from o random fn left (suc a) (some e))
      → Decided a n (try_from o random fn (suc left) a last)
  Decided-later left a n last d e same next = rw same (record {
    lower = omega (arith, next.lower);
    upper = next.upper;
    deciding = next.deciding;
    first = λ i l m. elim (Bool-cases (a == i)) [
      | inl y ↦ ground (arith, y, d)
      | inr y ↦ next.first i (ground (arith, y, l)) m
    ];
    result = next.result;
    counted = omega (arith, next.counted);
    paused = omega (arith, next.paused);
  })

  try_from-Decided :
      (left a : ℕ) (last : Option E)
      → suc left + a ≡ suc o.max_attempts
      → (n : ℕ) × Decided a n (try_from o random fn (suc left) a last)
  try_from-Decided zero a last h =
      (a, Decided-now zero a last (omega arith) (decides_last a (omega arith)))
  try_from-Decided (suc left) a last h = elim (Bool-cases (decides a)) [
    | inl y ↦ (a, Decided-now (suc left) a last (omega arith) y)
    | inr d ↦
        let (e, same, room) = goes_on (suc left) a last d in
        let (n, next) = try_from-Decided left (suc a) (some e) (omega arith) in
        (n, Decided-later (suc left) a n last d e same next)
  ]

  -- With at least one attempt allowed, `withRetry` makes its attempts in order from the first one and
  -- stops at exactly the first that decides (it returns, its error may not be retried, or no more are
  -- allowed), with what that attempt gave or threw, and with one pause before each attempt but the
  -- first.
  pub with_retry-Decided : 0 < o.max_attempts → (n : ℕ) × Decided 1 n (with_retry o random fn)
  unfolding with_retry
  with_retry-Decided h =
      let e : o.max_attempts ≡ suc (o.max_attempts - 1) = omega arith in
      let (n, d) = try_from-Decided (o.max_attempts - 1) 1 none (omega arith) in
      (n, subst (λ k. Decided 1 n (try_from o random fn k 1 none)) (sym e) d)
