-- ===== src/Governance/Scopes/Tests.antt =====
-- Requests to the scope policy.
use openclaw_enterprise_plug.Common.{String, ◌≡◌, ◌⊎◌, refl, Bool, none, List, [], ◌∷◌, str_eq}
use openclaw_enterprise_plug.Governance.Identity.{default_identity}
use openclaw_enterprise_plug.Governance.Scopes.{
  AuthzRequest, allow, deny, type_error, required_scope, by_roles, authorize,
}
use openclaw_enterprise_plug.Governance.Scopes.Decision.{Has, Carries, authorize-cases}

abbrev inherited : String → Bool
inherited s = str_eq s "constructor"

abbrev request : List String → AuthzRequest
request roles = record {
  subject = record default_identity { roles = roles };
  action = "create";
  resource = record { kind = "task"; id = none; tenant_id = "t" };
}

viewer_denied : authorize inherited (request ("viewer" ∷ [])) ≡ deny "task.create"
unfolding authorize by_roles
viewer_denied = refl

-- The name of an inherited property is not refused: the call throws.
constructor_throws : authorize inherited (request ("constructor" ∷ [])) ≡ type_error
unfolding authorize by_roles
constructor_throws = refl

authorize-cases_example :
    let r = request ("viewer" ∷ "operator" ∷ []) in
    let entitled = Has "admin" r.subject.roles ⊎ Carries (required_scope r) r.subject.roles in
    (entitled × (authorize inherited r ≡ allow))
    ⊎ ((entitled → ⊥) × (authorize inherited r ≡ deny (required_scope r)))
authorize-cases_example =
    authorize-cases inherited (request ("viewer" ∷ "operator" ∷ [])) (refl, (refl, tt))
