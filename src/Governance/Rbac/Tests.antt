-- ===== src/Governance/Rbac/Tests.antt =====
-- The policy engine with one policy for a role, over abilities of which the last rule decides.
use openclaw_enterprise_plug.Common.{
  String, ◌≡◌, refl, Bool, true, false, ◌&&◌, not, none, List, [], ◌∷◌, map, str_eq, if◌then◌else◌,
}
use openclaw_enterprise_plug.Governance.Scopes.{AuthzRequest}
use openclaw_enterprise_plug.Governance.Rbac.{
  PolicyDefinition, PolicyRule, RawRule, Engine, allow_effect,
}
use openclaw_enterprise_plug.Governance.Rbac.Fresh.{fresh_decision}

abbrev same_order : List String → List String
same_order roles = roles

abbrev last_rule : List RawRule → String → String → Bool
last_rule [] action kind = false
last_rule (r ∷ rs) action kind =
    let later = last_rule rs action kind in
    if later then true else str_eq r.action action && (str_eq r.resource kind && not r.inverted)

abbrev reading : PolicyRule
reading = record {
  effect = allow_effect;
  subjects = "ops" ∷ [];
  actions = "read" ∷ [];
  resources = "agent" ∷ [];
  conditions = none;
}

abbrev policies : List PolicyDefinition
policies = record { id = "p1"; version = 1; rules = reading ∷ [] } ∷ []

abbrev request : String → String → AuthzRequest
request role action = record {
  subject = record {
    user_id = "alice";
    tenant_id = "acme";
    email = none;
    display_name = none;
    roles = role ∷ [];
    groups = [];
  };
  action = action;
  resource = record { kind = "agent"; id = none; tenant_id = "acme" };
}

abbrev old_engine : Engine
old_engine = record { ability_cache = ("alice:ops", []) ∷ []; policies = [] }

-- The same user with two roles, of which the policy allows only the first to read.
abbrev requests : List AuthzRequest
requests = request "ops" "read" ∷ request "dev" "read" ∷ request "ops" "read" ∷ []

decisions_run :
    map (λ d. d.allowed) (map (fresh_decision same_order last_rule policies) requests)
    ≡ true ∷ false ∷ true ∷ []
decisions_run = refl
