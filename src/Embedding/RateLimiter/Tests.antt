-- ===== src/Embedding/RateLimiter/Tests.antt =====
-- Runs of the rate limiter at concrete inputs.
use openclaw_enterprise_plug.Common.{
  ℕ, ◌+◌, ◌≤◌, ◌≡◌, refl, true, false, some, [], ◌∷◌, List, arith, eq_iff,
}
use openclaw_enterprise_plug.Common.Dict
use openclaw_enterprise_plug.Embedding.RateLimiter.{
  RateLimitKey, user, Limiter, composite_key, check, consume, cleanup_expired,
}
use openclaw_enterprise_plug.Embedding.RateLimiter.Window.{
  check-consume, consume_after_retry, Operation, consuming, checking, cleaning, resetting, granted,
  window_limit, consume-cleanup_expired,
}

abbrev alice : RateLimitKey
alice = record { scope = user; identifier = "alice"; resource = "api" }

abbrev bob : RateLimitKey
bob = record alice { identifier = "bob" }

abbrev fresh : Limiter
fresh = record { default_limit = 5; default_window_ms = 100; store = [] }

abbrev used : Limiter
used = record fresh { store = ("user:alice:api", record { count = 4; window_start = 10 }) ∷ [] }

fills :
    ((consume 50 alice 1 used).1.remaining ≡ 0)
    × ((consume 50 alice 2 used).1.retry_after_ms ≡ some 60)
unfolding consume Dict.get
fills = (refl, refl)

-- The parts of a composite key are not escaped: these two keys share one window.
shared_key :
    composite_key (record { scope = user; identifier = "a:b"; resource = "c" })
    ≡ composite_key (record { scope = user; identifier = "a"; resource = "b:c" })
shared_key = refl

check-consume_run :
    ((check 50 alice used).0 ≡ used)
    × ((check 50 alice used).1.allowed ≡ (consume 50 alice 1 used).1.allowed)
    × ((consume 50 alice 2 used).1.allowed ≡ false → (consume 50 alice 2 used).0 ≡ used)
check-consume_run = check-consume 50 alice 2 used

consume_after_retry_example :
    (d : ℕ) × ((consume 50 alice 2 used).1.retry_after_ms ≡ some d)
    × ((consume (50 + d) alice 2 (consume 50 alice 2 used).0).1.allowed ≡ true)
unfolding consume Dict.get
consume_after_retry_example = consume_after_retry 50 alice 2 used (omega arith) refl

abbrev traffic : List Operation
traffic =
    consuming 30 alice 2
    ∷ consuming 40 bob 5
    ∷ checking 45 alice
    ∷ cleaning 60
    ∷ resetting bob
    ∷ consuming 99 alice 3
    ∷ consuming 109 alice 1
    ∷ []

window_limit_example : 2 + granted (composite_key alice) traffic (consume 10 alice 2 fresh).0 ≤ 5
unfolding consume Dict.get
window_limit_example = window_limit 10 alice 2 fresh traffic tt refl refl (
  omega arith,
  (
    omega arith,
    (
      tt,
      (
        omega arith,
        (ground (arith, eq_iff "user:bob:api" "user:alice:api"), (omega arith, (omega arith, tt))),
      ),
    ),
  ),
)

consume-cleanup_expired_run :
    (consume 120 alice 2 (cleanup_expired 115 used)).1 ≡ (consume 120 alice 2 used).1
unfolding Dict.get
consume-cleanup_expired_run = consume-cleanup_expired 115 120 alice 2 used (refl, tt) (omega arith)
