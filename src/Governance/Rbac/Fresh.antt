-- ===== src/Governance/Rbac/Fresh.antt =====
-- The cache of abilities does not change a decision, where its keys tell the roles apart.
use openclaw_enterprise_plug.Common.{String, ◌≡◌, Bool, some, List, All}
use openclaw_enterprise_plug.Common.Dict
use openclaw_enterprise_plug.Common.Dict.{Dict}
use openclaw_enterprise_plug.Governance.Scopes.{AuthzRequest, AuthzDecision}
use openclaw_enterprise_plug.Governance.Rbac.{
  PolicyDefinition, RawRule, Engine, build, cache_key, built, decision,
}

module _ (sort_roles : List String → List String)
    (can : List RawRule → String → String → Bool) where
  -- The keys tell the requests apart: two of them with one key have the same roles, in order. It
  -- holds where identities of users have no colon and names of roles no comma, and fails where they
  -- have.
  abbrev pub KeysTell : List AuthzRequest → Type 0
  KeysTell all =
      All
        (λ q.
          All
            (λ r.
              cache_key sort_roles can q ≡ cache_key sort_roles can r
              → sort_roles q.subject.roles ≡ sort_roles r.subject.roles)
            all)
        all

  -- What the cache holds under the key of a request are the rules of that request.
  abbrev pub IsFresh : Engine → AuthzRequest → Type 0
  IsFresh e r =
      (ability : List RawRule)
      → Dict.get e.ability_cache (cache_key sort_roles can r) ≡ some ability
      → ability ≡ built sort_roles can r e

  -- The decision that the rules of the request give.
  abbrev pub fresh_decision : List PolicyDefinition → AuthzRequest → AuthzDecision
  fresh_decision ps r =
      decision sort_roles can (can (build (sort_roles r.subject.roles) ps) r.action r.resource.kind)

  Answers : List AuthzRequest → AuthzRequest → Engine → Engine × List RawRule → Type 0
  Answers all r e x =
      (x.0.policies ≡ e.policies) × All (IsFresh x.0) all × (x.1 ≡ built sort_roles can r e)
