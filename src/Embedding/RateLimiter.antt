-- ===== src/Embedding/RateLimiter.antt =====
-- src/embedding/rate-limiter/impl/memory-limiter.ts over the types of rate-limiter.ts. Tokens and
-- limits are whole numbers; each reading of the clock is an argument, in milliseconds.
pub mod Window
mod Tests
use openclaw_enterprise_plug.Common.{
  ℕ, ◌+◌, ◌-◌, String, ◌≡◌, Bool, true, false, not, ◌&&◌, Option, none, some, List, [], ◌∷◌, leb,
  if◌then◌else◌, colon,
}
use openclaw_enterprise_plug.Common.Dict
use openclaw_enterprise_plug.Common.Dict.{Dict}

pub data Scope : Type 0 where
  tenant user api_key ip : Scope

abbrev pub scope_name : Scope → String
scope_name tenant = "tenant"
scope_name user = "user"
scope_name api_key = "api_key"
scope_name ip = "ip"

pub record RateLimitKey : Type 0 where
  pub scope : Scope
  pub identifier : String
  pub resource : String

pub record RateLimitResult : Type 0 where
  pub allowed : Bool
  pub remaining : ℕ
  pub limit : ℕ
  pub window_ms : ℕ
  pub retry_after_ms : Option ℕ

pub record WindowState : Type 0 where
  pub count : ℕ
  pub window_start : ℕ

pub record Limiter : Type 0 where
  pub default_limit : ℕ
  pub default_window_ms : ℕ
  pub store : Dict WindowState

abbrev pub composite_key : RateLimitKey → String
composite_key key = colon (scope_name key.scope) (colon key.identifier key.resource)

-- `now - windowStart >= windowMs`, with the subtraction moved over.
abbrev pub is_over : ℕ → ℕ → WindowState → Bool
is_over window_ms now w = leb (w.window_start + window_ms) now

-- The window that a request at `now` falls into: the stored one, or a new one.
abbrev pub current : ℕ → ℕ → Option WindowState → WindowState
current window_ms now none = record { count = 0; window_start = now }
current window_ms now (some w) =
    if is_over window_ms now w then record { count = 0; window_start = now } else w

abbrev pub is_allowed : ℕ → ℕ → WindowState → Bool
is_allowed limit need w = leb (w.count + need) limit

verdict : ℕ → ℕ → ℕ → ℕ → WindowState → RateLimitResult
verdict limit window_ms now need w =
    let allowed = is_allowed limit need w in
    record {
      allowed = allowed;
      remaining = limit - w.count - (if allowed then need else 0);
      limit = limit;
      window_ms = window_ms;
      retry_after_ms = if allowed then none else some (w.window_start + window_ms - now);
    }

unfoldable pub evaluate : ℕ → RateLimitKey → ℕ → Bool → Limiter → Limiter × RateLimitResult
unfolding verdict
evaluate now key need mutate l =
    let ck = composite_key key in
    let w = current l.default_window_ms now (Dict.get l.store ck) in
    let stored = Dict.set l.store ck (record w { count = w.count + need }) in
    (
      record l { store = if mutate && is_allowed l.default_limit need w then stored else l.store },
      verdict l.default_limit l.default_window_ms now need w,
    )

unfoldable pub check : ℕ → RateLimitKey → Limiter → Limiter × RateLimitResult
unfolding evaluate
check now key l = evaluate now key 1 false l

unfoldable pub consume : ℕ → RateLimitKey → ℕ → Limiter → Limiter × RateLimitResult
unfolding evaluate
consume now key tokens l = evaluate now key tokens true l

unfoldable pub reset : RateLimitKey → Limiter → Limiter
reset key l = record l { store = Dict.delete l.store (composite_key key) }

unfoldable pub cleanup_expired : ℕ → Limiter → Limiter
cleanup_expired now l = record l {
  store = Dict.retain (λ w. not (is_over l.default_window_ms now w)) l.store;
}
