-- ===== src/Middleware/Stages.antt =====
-- The stages of src/middleware: tenant-middleware.ts, authn-middleware.ts, authz-middleware.ts,
-- rate-limit-middleware.ts and audit-middleware.ts. The services of other modules are parameters, as
-- are the clock, the random identities and `toUpperCase`; a service that throws gives `none`.
use Prim.Native.Char.{Char, code}
use Prim.Native.String.{[] as empty, ◌∷◌ as ◌∷ᶜ◌}
use text.Mathlib.Text.{starts_with}
use openclaw_enterprise_plug.Common.{
  ℕ, zero, suc, String, Bool, Option, none, some, List, [], ◌∷◌, any, ◌==◌, str_eq, if◌then◌else◌,
  or_else, append, get_elem?,
}
use openclaw_enterprise_plug.Common.Dict
use openclaw_enterprise_plug.Common.Dict.{Dict}
use openclaw_enterprise_plug.Governance.Identity.{UserIdentity, AuthResult, given}
use openclaw_enterprise_plug.Governance.Scopes.{AuthzRequest, Authorized, decided, type_error}
use openclaw_enterprise_plug.Middleware.{
  TenantContext, MiddlewareRequest, Exchange, Before, going, ending, throwing, End, returned, threw,
  Middleware, plain,
}

-- `res.setStatus(status).json({ error: { code, message } })`
abbrev pub answered : ℕ → String → String → Exchange → Exchange
answered status code message x = record x {
  response = record x.response {
    status_code = status;
    body = some (record { code = code; message = message; retry_after_ms = none });
  };
}

abbrev pub is_excluded : List String → Exchange → Bool
is_excluded paths x = any (λ p. starts_with x.request.path p) paths

-- The context that the stage sets, and its tenant in `locals`.
abbrev pub in_tenant : Option String → Exchange → Exchange
in_tenant tenant_id x =
    let t = or_else tenant_id "default" in
    record x {
      request = record x.request {
        tenant_context = some (record { tenant_id = t; user_id = x.request.locals.user_id });
        locals = record x.request.locals { tenant_id = some t };
      };
    }

unfoldable pub tenant_stage : String → Bool → Middleware
tenant_stage header_name required = record {
  before = λ x.
      let tenant_id = Dict.get x.request.headers header_name in
      elim (given tenant_id) [
        | none ↦
            if required
            then ending
                (answered 400 "MISSING_TENANT" (append "Missing required header: " header_name) x)
            else going (in_tenant tenant_id x)
        | some t ↦ going (in_tenant tenant_id x)
      ];
  after = plain;
}

-- `text.slice(n)`
abbrev pub skip : ℕ → String → String
skip zero s = s
skip (suc n) empty = empty
skip (suc n) (c ∷ᶜ s) = skip n s

-- The token of the header `authorization`.
abbrev pub bearer : Option String → Option String
bearer none = none
bearer (some h) = if starts_with h "Bearer " then some (skip 7 h) else none

abbrev pub with_identity : UserIdentity → Exchange → Exchange
with_identity i x = record x {
  request = record x.request {
    locals = record x.request.locals {
      user_id = some i.user_id;
      user_roles = some i.roles;
      identity = some i;
    };
  };
}

-- What the provider answered, or that it threw.
abbrev pub authenticated : Option AuthResult → Exchange → Before
authenticated none x = ending (answered 500 "AUTH_ERROR" "Authentication service unavailable" x)
authenticated (some r) x = elim r.identity [
  | none ↦ ending (answered 401 "UNAUTHORIZED" (or_else r.error "Authentication failed") x)
  | some i ↦
      if r.authenticated
      then going (with_identity i x)
      else ending (answered 401 "UNAUTHORIZED" (or_else r.error "Authentication failed") x)
]

-- The `catch` stands around the call of `next` too, but not on an excluded path.
abbrev pub caught : Exchange → End → Exchange × End
caught x returned = (x, returned)
caught x threw = (answered 500 "AUTH_ERROR" "Authentication service unavailable" x, returned)

unfoldable pub authn_stage : (String → Option AuthResult) → List String → Middleware
authn_stage authenticate exclude_paths = record {
  before = λ x.
      if is_excluded exclude_paths x
      then going x
      else elim (bearer (Dict.get x.request.headers "authorization")) [
        | none ↦ ending (answered 401 "UNAUTHORIZED" "Missing or invalid Authorization header" x)
        | some token ↦ authenticated (authenticate token) x
      ];
  after = λ first x e. if is_excluded exclude_paths first then (x, e) else caught x e;
}

-- `text.split("/")`
abbrev is_slash : Char → Bool
is_slash c = code c == 47

abbrev grown : Char → List String → List String
grown c [] = (c ∷ᶜ empty) ∷ []
grown c (s ∷ ss) = (c ∷ᶜ s) ∷ ss

abbrev pub split_slash : String → List String
split_slash empty = empty ∷ []
split_slash (c ∷ᶜ s) = let ss = split_slash s in if is_slash c then empty ∷ ss else grown c ss

abbrev pub path_kind : MiddlewareRequest → String
path_kind r = or_else (get_elem? (split_slash r.path) 3) "unknown"

unfoldable pub method_to_action : (String → String) → String → String
method_to_action upper_case method =
    let m = upper_case method in
    if str_eq m "POST"
    then "create"
    else if str_eq m "PUT"
    then "update"
    else if str_eq m "PATCH"
    then "update"
    else if str_eq m "DELETE"
    then "delete"
    else "read"

abbrev pub resource_of :
    Option (MiddlewareRequest → String × Option String) → MiddlewareRequest → String × Option String
resource_of none r = (path_kind r, none)
resource_of (some resolve) r = resolve r

unfoldable pub authz_request :
    (String → String)
    → Option (MiddlewareRequest → String × Option String)
    → MiddlewareRequest
    → TenantContext
    → AuthzRequest
unfolding method_to_action
authz_request upper_case resource_resolver r ctx =
    let (kind, id) = resource_of resource_resolver r in
    record {
      subject = record {
        user_id = or_else ctx.user_id "anonymous";
        tenant_id = ctx.tenant_id;
        email = none;
        display_name = none;
        roles = or_else r.locals.user_roles [];
        groups = [];
      };
      action = method_to_action upper_case r.method;
      resource = record { kind = kind; id = id; tenant_id = ctx.tenant_id };
    }

-- What the policy decided, or that it threw. No engine of the source adds obligations.
abbrev pub authorized : Authorized → Exchange → Before
authorized type_error x = throwing x
authorized (decided d) x =
    if d.allowed
    then going x
    else ending (answered 403 "FORBIDDEN" (or_else d.reason "Access denied") x)

unfoldable pub authz_stage :
    (String → String)
    → (AuthzRequest → Authorized)
    → Option (MiddlewareRequest → String × Option String)
    → Middleware
unfolding authz_request
authz_stage upper_case authorize resource_resolver = record {
  before = λ x. elim x.request.tenant_context [
    | none ↦ ending (answered 500 "MISSING_CONTEXT" "TenantContext not set" x)
    | some ctx ↦ authorized (authorize (authz_request upper_case resource_resolver x.request ctx)) x
  ];
  after = plain;
}
