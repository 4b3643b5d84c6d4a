-- ===== src/Middleware/Tests.antt =====
-- The stages over the token provider and the scope policy, at a concrete request.
use openclaw_enterprise_plug.Common.{
  String, ◌≡◌, refl, ◌↔◌, true, false, Option, none, some, List, [], ◌∷◌, ◌++◌,
}
use openclaw_enterprise_plug.Common.Dict
use openclaw_enterprise_plug.Governance.Identity.{
  UserIdentity, AuthResult, TokenProviderConfig, token_mode, authenticate, given, default_identity,
}
use openclaw_enterprise_plug.Governance.Scopes.{AuthzRequest, Authorized, authorize}
use openclaw_enterprise_plug.Audit.{denied}
use openclaw_enterprise_plug.Audit.Pipeline.{new_pipeline}
use openclaw_enterprise_plug.Middleware.{Exchange, Middleware, throwing, returned, execute, plain}
use openclaw_enterprise_plug.Middleware.Stages.{
  in_tenant, tenant_stage, with_identity, authn_stage, authz_stage, split_slash,
}
use openclaw_enterprise_plug.Middleware.Services.{Moment, request_event, audit_stage}
use openclaw_enterprise_plug.Middleware.Chain.{
  execute-refused, execute-audit_stage, execute-authn_stage, Guarded,
}
use openclaw_enterprise_plug.Middleware.Access.{IsAuthentic, IsAllowed, reach-secured}

abbrev config : TokenProviderConfig
config = record { mode = token_mode; token = some "s3cret"; password = none }

abbrev provider : String → Option AuthResult
provider token =
    some (authenticate config (record { kind = some "token"; token = some token; password = none }))

abbrev by_scope : AuthzRequest → Authorized
by_scope r = authorize (λ _. false) r

abbrev request : List (String × String) → Exchange
request headers = record {
  request = record {
    tenant_context = none;
    path = "/api/v1/agents";
    method = "GET";
    headers = headers;
    params = [];
    locals = record { user_id = none; user_roles = none; identity = none; tenant_id = none };
  };
  response = record { status_code = 200; headers = []; body = none };
  limiter = record { default_limit = 10; default_window_ms = 1000; store = [] };
  audit = new_pipeline 100;
}

abbrev good : Exchange
good = request (("authorization", "Bearer s3cret") ∷ ("x-tenant-id", "acme") ∷ [])

abbrev bad : Exchange
bad = request (("x-tenant-id", "acme") ∷ [])

abbrev authn : Middleware
authn = authn_stage provider ("/health" ∷ [])

abbrev tenant : Middleware
tenant = tenant_stage "x-tenant-id" true

abbrev authz : Middleware
authz = authz_stage (λ m. m) by_scope none

abbrev failing : Middleware
failing = record { before = throwing; after = plain }

abbrev moment : Moment
moment = record { start = 5; end = 9; event_id = "e1"; request_id = "r1" }

split_slash_run : split_slash "/api/v1/agents" ≡ "" ∷ "api" ∷ "v1" ∷ "agents" ∷ []
split_slash_run = refl

execute-refused_run :
    execute ((authn ∷ tenant ∷ []) ++ (failing ∷ [])) bad ≡ execute (authn ∷ tenant ∷ []) bad
unfolding authn_stage authenticate Dict.get
execute-refused_run = execute-refused (authn ∷ tenant ∷ []) (failing ∷ []) bad refl

execute-audit_stage_example :
    let (y, e) = execute (authn ∷ failing ∷ []) bad in
    let (z, e') = execute (audit_stage moment [] ∷ authn ∷ failing ∷ []) bad in
    (z.audit.all_events ≡ y.audit.all_events ++ request_event moment y e ∷ [])
    × (z.response ≡ y.response)
    × (e' ≡ e)
    × (((request_event moment y e).outcome ≡ denied)
        ↔ ((e ≡ returned) × (y.response.status_code ≡ 403)))
execute-audit_stage_example = execute-audit_stage moment [] (authn ∷ failing ∷ []) bad refl

execute-authn_stage_example :
    let (z, e) = execute (authn_stage provider ("/health" ∷ []) ∷ failing ∷ []) good in
    (e ≡ returned) × Guarded (execute (failing ∷ []) (with_identity default_identity good)) z
unfolding authenticate Dict.get
execute-authn_stage_example =
    execute-authn_stage provider ("/health" ∷ []) (failing ∷ []) good "s3cret"
      (authenticate config (record { kind = some "token"; token = some "s3cret"; password = none }))
      default_identity refl refl refl refl refl

-- An error behind the authentication is answered as one of the authentication service.
failing_run : (execute (authn ∷ failing ∷ []) good).0.response.status_code ≡ 500
unfolding execute authn_stage authenticate Dict.get
failing_run = refl

reach-secured_example :
    (i : UserIdentity) × (t : String) × IsAuthentic provider ("/health" ∷ []) good i
    × (given (Dict.get good.request.headers "x-tenant-id") ≡ some t)
    × (in_tenant (some "acme") (with_identity default_identity good)
        ≡ in_tenant (some t) (with_identity i good))
    × IsAllowed
        (λ m. m)
        by_scope
        none
        (in_tenant (some "acme") (with_identity default_identity good)).request
        (record { tenant_id = t; user_id = some i.user_id })
unfolding authn_stage authenticate tenant_stage authz_stage authorize Dict.get
reach-secured_example =
    reach-secured (λ m. m) by_scope none provider ("/health" ∷ []) "x-tenant-id" good
      (in_tenant (some "acme") (with_identity default_identity good)) refl refl
