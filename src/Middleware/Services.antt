-- ===== src/Middleware/Services.antt =====
-- rate-limit-middleware.ts and audit-middleware.ts of src/middleware, over the limiter in memory and
-- the audit pipeline.
use openclaw_enterprise_plug.Common.{
  ℕ, ◌+◌, ◌-◌, ◌/◌, String, Option, none, some, List, leb, ◌==◌, if◌then◌else◌, or_else, append,
}
use openclaw_enterprise_plug.Common.Dict
use openclaw_enterprise_plug.Embedding.RateLimiter.{RateLimitKey, RateLimitResult, tenant, consume}
use openclaw_enterprise_plug.Audit.{
  AuditEvent, AuditOutcome, success, failure, denied, user, data_access,
}
use openclaw_enterprise_plug.Audit.Pipeline.{emit}
use openclaw_enterprise_plug.Middleware.{
  TenantContext, MiddlewareRequest, Exchange, Before, going, ending, End, returned, threw,
  Middleware, plain,
}
use openclaw_enterprise_plug.Middleware.Stages.{is_excluded, path_kind}

abbrev pub with_header : String → ℕ → Exchange → Exchange
with_header name n x = record x {
  response = record x.response { headers = Dict.set x.response.headers name n };
}

abbrev pub limit_headers : RateLimitResult → Exchange → Exchange
limit_headers r x =
    with_header "X-RateLimit-Window" r.window_ms
      (with_header "X-RateLimit-Remaining" r.remaining (with_header "X-RateLimit-Limit" r.limit x))

-- `if (result.retryAfterMs)`, with the rounding up to seconds.
abbrev pub retry_header : Option ℕ → Exchange → Exchange
retry_header none x = x
retry_header (some ms) x = if ms == 0 then x else with_header "Retry-After" ((ms + 999) / 1000) x

abbrev pub too_many : Option ℕ → Exchange → Exchange
too_many retry_after_ms x =
    let y = retry_header retry_after_ms x in
    record y {
      response = record y.response {
        status_code = 429;
        body = some (record {
          code = "RATE_LIMITED";
          message = "Too many requests";
          retry_after_ms = retry_after_ms;
        });
      };
    }

abbrev pub limited : RateLimitResult → Exchange → Before
limited r x =
    let y = limit_headers r x in if r.allowed then going y else ending (too_many r.retry_after_ms y)

abbrev pub limit_key :
    Option (MiddlewareRequest → RateLimitKey) → MiddlewareRequest → TenantContext → RateLimitKey
limit_key none r ctx = record { scope = tenant; identifier = ctx.tenant_id; resource = r.path }
limit_key (some extract) r ctx = extract r

-- `consume` takes one token.
unfoldable pub rate_limit_stage : ℕ → Option (MiddlewareRequest → RateLimitKey) → Middleware
unfolding consume
rate_limit_stage now key_extractor = record {
  before = λ x. elim x.request.tenant_context [
    | none ↦ going x
    | some ctx ↦
        let (limiter, r) = consume now (limit_key key_extractor x.request ctx) 1 x.limiter in
        limited r (record x { limiter = limiter })
  ];
  after = plain;
}

abbrev pub outcome_of : ℕ → End → AuditOutcome
outcome_of status threw = failure
outcome_of status returned =
    if leb 400 status then (if status == 403 then denied else failure) else success

abbrev pub tenant_of : Option TenantContext → String
tenant_of none = "unknown"
tenant_of (some ctx) = ctx.tenant_id

-- What the clock read at the start and at the end, and the two random identities.
pub record Moment : Type 0 where
  pub start : ℕ
  pub end : ℕ
  pub event_id : String
  pub request_id : String

unfoldable pub request_event : Moment → Exchange → End → AuditEvent
request_event m x e =
    let r = x.request in
    record {
      id = m.event_id;
      timestamp = m.end;
      version = "1.0";
      tenant_id = tenant_of r.tenant_context;
      actor = record {
        kind = user;
        id = or_else r.locals.user_id "anonymous";
        name = none;
        ip = none;
        user_agent = none;
      };
      action = append r.method (append " " r.path);
      category = data_access;
      outcome = outcome_of x.response.status_code e;
      resource = record {
        kind = path_kind r;
        id = Dict.get r.params "id";
        name = none;
        tenant_id = tenant_of r.tenant_context;
      };
      source = record { service = "api-gateway"; instance_name = none; request_id = m.request_id };
      details = none;
      duration = some (m.end - m.start);
      error = none;
    }

unfoldable pub audit_stage : Moment → List String → Middleware
unfolding emit request_event
audit_stage m exclude_paths = record {
  before = going;
  after = λ first x e.
      if is_excluded exclude_paths first
      then (x, e)
      else (record x { audit = emit (request_event m x e) x.audit }, e);
}
