-- ===== src/Governance/Rbac.antt =====
-- src/governance/authorization/impl/rbac-policy.ts over the types of policy-engine.ts. The library of
-- abilities is a parameter: whether its rules, in the order in which they were given, let an action
-- on a resource pass. So is the order of `sort` on roles. Conditions are texts.
mod Fresh
mod Tests
use openclaw_enterprise_plug.Common.{
  ℕ, String, Bool, true, false, Option, none, some, List, [], ◌∷◌, ◌++◌, map, any, str_eq,
  if◌then◌else◌, colon, append,
}
use openclaw_enterprise_plug.Common.Dict
use openclaw_enterprise_plug.Common.Dict.{Dict}
use openclaw_enterprise_plug.Kernel.Storage.{Store, StorageQuery, list, set}
use openclaw_enterprise_plug.Governance.Scopes.{AuthzRequest, AuthzDecision}

pub data Effect : Type 0 where
  allow_effect deny_effect : Effect

pub record PolicyRule : Type 0 where
  pub effect : Effect
  pub subjects : List String
  pub actions : List String
  pub resources : List String
  pub conditions : Option String

pub record PolicyDefinition : Type 0 where
  pub id : String
  pub version : ℕ
  pub rules : List PolicyRule

-- A call of `builder.can` or `builder.cannot`.
pub record RawRule : Type 0 where
  pub inverted : Bool
  pub action : String
  pub resource : String
  pub conditions : Option String

pub record Engine : Type 0 where
  pub ability_cache : Dict (List RawRule)
  pub policies : List PolicyDefinition

abbrev pub is_deny : Effect → Bool
is_deny allow_effect = false
is_deny deny_effect = true

abbrev pub matches_subject : List String → PolicyRule → Bool
matches_subject roles rule =
    any (λ s. if any (str_eq s) roles then true else str_eq s "*") rule.subjects

abbrev pub for_resources : PolicyRule → String → List String → List RawRule
for_resources rule action [] = []
for_resources rule action (r ∷ rs) =
    record {
      inverted = is_deny rule.effect;
      action = action;
      resource = r;
      conditions = rule.conditions;
    }
    ∷ for_resources rule action rs

abbrev pub for_actions : PolicyRule → List String → List RawRule
for_actions rule [] = []
for_actions rule (a ∷ as') = for_resources rule a rule.resources ++ for_actions rule as'

abbrev pub for_rules : List String → List PolicyRule → List RawRule
for_rules roles [] = []
for_rules roles (r ∷ rs) =
    if matches_subject roles r
    then for_actions r r.actions ++ for_rules roles rs
    else for_rules roles rs

-- The rules that the builder is given for some roles.
abbrev pub build : List String → List PolicyDefinition → List RawRule
build roles [] = []
build roles (p ∷ ps) = for_rules roles p.rules ++ build roles ps

-- `roles.join(",")`
abbrev pub join : List String → String
join [] = ""
join (r ∷ []) = r
join (r ∷ s ∷ rs) = append r (append "," (join (s ∷ rs)))

unfoldable pub new_engine : Engine
new_engine = record { ability_cache = []; policies = [] }

unfoldable pub shutdown : Engine → Engine
shutdown e = record e { ability_cache = [] }

abbrev pub policy_collection : String
policy_collection = "policies"

abbrev pub any_query : StorageQuery
any_query = record { prefix = none; by_key = false; order = none; offset = none; limit = none }

unfoldable pub initialize :
    (String → String → Bool) → Store PolicyDefinition → Engine → Store PolicyDefinition × Engine
unfolding list
initialize key_le s e =
    let (s', page) = list key_le "default" policy_collection any_query s in
    (s', record e { policies = page.items })

abbrev pub store_all : ℕ → List PolicyDefinition → Store PolicyDefinition → Store PolicyDefinition
store_all now [] s = s
store_all now (p ∷ ps) s = store_all now ps (set now "default" policy_collection p.id p s)

unfoldable pub load_policies :
    ℕ → List PolicyDefinition → Store PolicyDefinition × Engine → Store PolicyDefinition × Engine
unfolding set
load_policies now policies (s, e) =
    (store_all now policies s, record { ability_cache = []; policies = policies })

module _ (sort_roles : List String → List String)
    (can : List RawRule → String → String → Bool) where
  abbrev pub cache_key : AuthzRequest → String
  cache_key r = colon r.subject.user_id (join (sort_roles r.subject.roles))

  -- `sort` reorders the roles of the request before the rules are built.
  abbrev pub built : AuthzRequest → Engine → List RawRule
  built r e = build (sort_roles r.subject.roles) e.policies

  abbrev pub ability_of : AuthzRequest → Option (List RawRule) → Engine → Engine × List RawRule
  ability_of r (some cached) e = (e, cached)
  ability_of r none e =
      let ability = built r e in
      (record e { ability_cache = Dict.set e.ability_cache (cache_key r) ability }, ability)

  unfoldable pub get_or_build_ability : AuthzRequest → Engine → Engine × List RawRule
  get_or_build_ability r e = ability_of r (Dict.get e.ability_cache (cache_key r)) e

  abbrev pub decision : Bool → AuthzDecision
  decision true = record { allowed = true; reason = none }
  decision false = record { allowed = false; reason = some "RBAC policy denied" }

  unfoldable pub authorize : AuthzRequest → Engine → Engine × AuthzDecision
  unfolding get_or_build_ability
  authorize r e =
      let (e', ability) = get_or_build_ability r e in
      (e', decision (can ability r.action r.resource.kind))

  unfoldable pub batch_authorize : List AuthzRequest → Engine → Engine × List AuthzDecision
  unfolding authorize
  batch_authorize [] e = (e, [])
  batch_authorize (r ∷ rs) e =
      let (e', d) = authorize r e in let (e'', ds) = batch_authorize rs e' in (e'', d ∷ ds)
