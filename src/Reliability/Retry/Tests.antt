-- ===== src/Reliability/Retry/Tests.antt =====
-- Runs of retried calls at concrete inputs.
use openclaw_enterprise_plug.Common.{
  ℕ, String, ◌≡◌, refl, false, none, [], ◌∷◌, arith, ltb, if◌then◌else◌,
}
use openclaw_enterprise_plug.Reliability.Retry.{
  RetryOptions, default_options, Attempted, returned, failed, gave, threw, try_from, with_retry,
  compute_delay, whole,
}
use openclaw_enterprise_plug.Reliability.Retry.Attempts.{Decided, with_retry-Decided}

-- Fails twice, then returns.
abbrev flaky : ℕ → Attempted ℕ String
flaky n = if ltb n 3 then failed "busy" else returned n

abbrev options : RetryOptions String
options = record default_options { jitter = false }

third :
    with_retry options (λ n. 0) flaky
    ≡ record { calls = 3; retries = (1, "busy", 1000) ∷ (2, "busy", 2000) ∷ []; ended = gave 3 }
unfolding with_retry try_from compute_delay
third = refl

-- No attempt allowed: `undefined` is thrown.
none_allowed :
    with_retry (record options { max_attempts = 0 }) (λ n. 0) flaky
    ≡ record { calls = 0; retries = []; ended = threw none }
unfolding with_retry try_from
none_allowed = refl

with_retry-Decided_example :
    (n : ℕ) × Decided options (λ n. 0) flaky 1 n (with_retry options (λ n. 0) flaky)
with_retry-Decided_example = with_retry-Decided options (λ n. 0) flaky (omega arith)

abbrev slow : RetryOptions String
slow = record options { base_delay_ms = whole 1; backoff_multiplier = record { num = 3; den = 2 } }

-- A pause of 1.5 milliseconds is rounded up.
compute_delay_run : compute_delay 7 slow 2 ≡ 2
unfolding compute_delay
compute_delay_run = refl
