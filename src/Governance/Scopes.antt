-- ===== src/Governance/Scopes.antt =====
-- src/governance/authorization/impl/scope-policy.ts over the types of policy-engine.ts. Which names
-- every object inherits (such as `constructor`) is a parameter: the lookup of such a role finds a
-- function, which has no method `includes`, so that the call throws.
pub mod Decision
mod Tests
use openclaw_enterprise_plug.Common.{
  String, ◌≡◌, Bool, true, false, Option, none, some, List, [], ◌∷◌, map, any, str_eq,
  if◌then◌else◌, append,
}
use openclaw_enterprise_plug.Governance.Identity.{UserIdentity}

pub record ResourceDescriptor : Type 0 where
  pub kind : String
  pub id : Option String
  pub tenant_id : String

pub record AuthzRequest : Type 0 where
  pub subject : UserIdentity
  pub action : String
  pub resource : ResourceDescriptor

pub record AuthzDecision : Type 0 where
  pub allowed : Bool
  pub reason : Option String

-- `SCOPE_MAP`
abbrev pub viewer_scopes : List String
viewer_scopes = "session.read" ∷ "agent.read" ∷ "config.read" ∷ "channel.read" ∷ []

abbrev pub operator_scopes : List String
operator_scopes =
    "session.read" ∷ "session.create" ∷ "agent.read" ∷ "agent.create" ∷ "config.read"
    ∷ "config.update" ∷ "channel.read" ∷ "task.read" ∷ "task.create" ∷ []

abbrev pub scopes_of : String → List String
scopes_of role =
    if str_eq role "viewer"
    then viewer_scopes
    else if str_eq role "operator"
    then operator_scopes
    else []

-- A decision, or the `TypeError`.
pub data Authorized : Type 0 where
  decided : AuthzDecision → Authorized
  type_error : Authorized

abbrev pub allow : Authorized
allow = decided (record { allowed = true; reason = none })

abbrev pub deny : String → Authorized
deny scope = decided (record { allowed = false; reason = some (append "Missing scope: " scope) })

abbrev pub required_scope : AuthzRequest → String
required_scope r = append r.resource.kind (append "." r.action)

module _ (inherited : String → Bool) where
  -- The `some` over the roles, and the decision after it.
  unfoldable pub by_roles : List String → String → Authorized
  by_roles [] scope = deny scope
  by_roles (role ∷ roles) scope =
      let others = by_roles roles scope in
      if inherited role
      then type_error
      else if any (str_eq scope) (scopes_of role)
      then allow
      else others

  unfoldable pub authorize : AuthzRequest → Authorized
  unfolding by_roles
  authorize r =
      if any (str_eq "admin") r.subject.roles
      then allow
      else by_roles r.subject.roles (required_scope r)

  unfoldable pub batch_authorize : List AuthzRequest → List Authorized
  unfolding authorize
  batch_authorize rs = map authorize rs
