-- ===== src/Middleware.antt =====
-- src/middleware/types.ts: a request, its response and the services that the stages change, and the
-- chain of stages. A stage is what it does before it calls `next`, which it does at most once (as
-- all stages of the source), and what it does with the end of that call; the position in the stack
-- that `next` counts is then the depth of the calls.
pub mod Stages
pub mod Services
mod Chain
mod Access
mod Tests
use openclaw_enterprise_plug.Common.{
  ℕ, String, ◌≡◌, Bool, true, false, Option, none, some, List, [], ◌∷◌, ◌++◌,
}
use openclaw_enterprise_plug.Common.Dict.{Dict}
use openclaw_enterprise_plug.Governance.Identity.{UserIdentity}
use openclaw_enterprise_plug.Embedding.RateLimiter.{Limiter}
use openclaw_enterprise_plug.Audit.Pipeline.{Pipeline}

-- Of a TenantContext, which is always from `api` here, without the identity of the request.
pub record TenantContext : Type 0 where
  pub tenant_id : String
  pub user_id : Option String

-- The entries of `locals` that the stages use.
pub record Locals : Type 0 where
  pub user_id : Option String
  pub user_roles : Option (List String)
  pub identity : Option UserIdentity
  pub tenant_id : Option String

pub record MiddlewareRequest : Type 0 where
  pub tenant_context : Option TenantContext
  pub path : String
  pub method : String
  pub headers : Dict String
  pub params : Dict String
  pub locals : Locals

-- The body of an error: its code and message, with `retryAfterMs` where it has one.
pub record ErrorBody : Type 0 where
  pub code : String
  pub message : String
  pub retry_after_ms : Option ℕ

-- The headers that the stages set are numbers.
pub record MiddlewareResponse : Type 0 where
  pub status_code : ℕ
  pub headers : Dict ℕ
  pub body : Option ErrorBody

pub record Exchange : Type 0 where
  pub request : MiddlewareRequest
  pub response : MiddlewareResponse
  pub limiter : Limiter
  pub audit : Pipeline

-- `next` was called, or was not, or the stage threw.
pub data Before : Type 0 where
  going ending throwing : Exchange → Before

pub data End : Type 0 where
  returned threw : End

pub record Middleware : Type 0 where
  pub before : Exchange → Before
  pub after : Exchange → Exchange → End → Exchange × End

-- `after` of a stage whose call of `next` is its last.
abbrev pub plain : Exchange → Exchange → End → Exchange × End
plain first x e = (x, e)

-- The method `use`.
abbrev pub use_stage : Middleware → List Middleware → List Middleware
use_stage m stack = stack ++ m ∷ []

unfoldable pub execute : List Middleware → Exchange → Exchange × End
execute [] x = (x, returned)
execute (m ∷ ms) x = elim (m.before x) [
  | going y ↦ let (z, e) = execute ms y in m.after x z e
  | ending y ↦ (y, returned)
  | throwing y ↦ (y, threw)
]
