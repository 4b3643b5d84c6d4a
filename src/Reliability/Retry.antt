-- ===== src/Reliability/Retry.antt =====
-- src/reliability/retry/retry.ts. Delays and the multiplier are fractions that are not negative; the
-- arithmetic is exact. The function that is tried is a parameter: what it does at each attempt. What
-- `Math.random` answers in units of 2⁻⁵³ is an argument for each attempt.
pub mod Attempts
mod Tests
use openclaw_enterprise_plug.Common.{
  ℕ, zero, suc, ◌+◌, ◌-◌, ◌*◌, ◌/◌, ◌^◌, min, ◌≡◌, Bool, true, false, not, ◌||◌, Option, none, some,
  List, [], ◌∷◌, leb, if◌then◌else◌, or_else,
}

pub record Ratio : Type 0 where
  pub num : ℕ
  pub den : ℕ

abbrev pub whole : ℕ → Ratio
whole n = record { num = n; den = 1 }

-- The options after the defaults are filled in; the callback `onRetry` is what a run notes.
pub record RetryOptions (E : Type 0) : Type 0 where
  pub max_attempts : ℕ
  pub base_delay_ms : Ratio
  pub max_delay_ms : Ratio
  pub backoff_multiplier : Ratio
  pub jitter : Bool
  pub retryable_errors : Option (E → Bool)

abbrev pub default_options : {E : Type 0} → RetryOptions E
default_options = record {
  max_attempts = 3;
  base_delay_ms = whole 1000;
  max_delay_ms = whole 30000;
  backoff_multiplier = whole 2;
  jitter = true;
  retryable_errors = none;
}

pub data Attempted (T E : Type 0) : Type 0 where
  returned : T → Attempted T E
  failed : E → Attempted T E

-- How `withRetry` ends; with no attempt at all it throws `undefined`.
pub data Ended (T E : Type 0) : Type 0 where
  gave : T → Ended T E
  threw : Option E → Ended T E

-- What happened on the way: the calls, and for each retry its attempt, error and delay.
pub record Run (T E : Type 0) : Type 0 where
  pub calls : ℕ
  pub retries : List (ℕ × E × ℕ)
  pub ended : Ended T E

-- `Math.random()` is `random` of these.
abbrev pub random_unit : ℕ
random_unit = 9007199254740992

-- `opts.baseDelayMs * opts.backoffMultiplier ** (attempt - 1)`
abbrev pub exponential : {E : Type 0} → RetryOptions E → ℕ → Ratio
exponential o attempt = record {
  num = o.base_delay_ms.num * o.backoff_multiplier.num ^ (attempt - 1);
  den = o.base_delay_ms.den * o.backoff_multiplier.den ^ (attempt - 1);
}

-- `Math.min`
abbrev pub smaller : Ratio → Ratio → Ratio
smaller a b = if leb (a.num * b.den) (b.num * a.den) then a else b

-- `delay * (0.5 + Math.random() * 0.5)`
abbrev pub jittered : ℕ → Ratio → Ratio
jittered random d = record { num = d.num * (random_unit + random); den = d.den * (2 * random_unit) }

-- `Math.round`: the nearest whole number, the upper one of two.
abbrev pub round : Ratio → ℕ
round d = (2 * d.num + d.den) / (2 * d.den)

unfoldable pub compute_delay : {E : Type 0} → ℕ → RetryOptions E → ℕ → ℕ
compute_delay random o attempt =
    let delay = smaller (exponential o attempt) o.max_delay_ms in
    round (if o.jitter then jittered random delay else delay)

module _ {T E : Type 0} (o : RetryOptions E) (random : ℕ → ℕ) (fn : ℕ → Attempted T E) where
  -- The test of `retryableErrors`.
  abbrev pub may_retry : E → Bool
  may_retry e = elim (o.retryable_errors) [ none ↦ true | some f ↦ f e ]

  abbrev pub note : ℕ → E → Run T E → Run T E
  note attempt e run = record run {
    calls = suc run.calls;
    retries = (attempt, e, compute_delay (random attempt) o attempt) ∷ run.retries;
  }

  -- The loop from an attempt on, for as many turns as there are attempts left.
  unfoldable pub try_from : ℕ → ℕ → Option E → Run T E
  try_from zero attempt last_error = record { calls = 0; retries = []; ended = threw last_error }
  try_from (suc left) attempt last_error = elim (fn attempt) [
    | returned v ↦ record { calls = 1; retries = []; ended = gave v }
    | failed e ↦
        let rest = try_from left (suc attempt) (some e) in
        if not (may_retry e) || leb o.max_attempts attempt
        then record { calls = 1; retries = []; ended = threw (some e) }
        else note attempt e rest
  ]

  unfoldable pub with_retry : Run T E
  unfolding try_from
  with_retry = try_from o.max_attempts 1 none
