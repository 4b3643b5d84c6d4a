-- ===== src/Middleware/Access.antt =====
-- Which requests come through authentication, tenant, authorization and rate limit.
use openclaw_enterprise_plug.Common.{
  String, ◌≡◌, refl, sym, ap, subst, ◌∙◌, Bool, true, false, Option, none, some, List, [], ◌∷◌,
  if◌then◌else◌, arith, or_else, append,
}
use openclaw_enterprise_plug.Common.Dict
use openclaw_enterprise_plug.Governance.Identity.{UserIdentity, AuthResult, given}
use openclaw_enterprise_plug.Governance.Scopes.{
  AuthzRequest, AuthzDecision, Authorized, decided, type_error,
}
use openclaw_enterprise_plug.Middleware.{
  TenantContext, MiddlewareRequest, Exchange, Before, going, ending, throwing, Middleware,
}
use openclaw_enterprise_plug.Middleware.Stages.{
  answered, in_tenant, tenant_stage, bearer, with_identity, authenticated, authn_stage, is_excluded,
  authz_request, authorized, authz_stage,
}
use openclaw_enterprise_plug.Middleware.Chain.{reach}

ending≢going : {x y : Exchange} → ending x ≡ going y → ⊥
ending≢going h = ground (arith, h)

some_inj {ℓ} : {A : Type ℓ} {c d : A} → some c ≡ some d → c ≡ d
some_inj h = cc

going_inj : {x y : Exchange} → going x ≡ going y → x ≡ y
going_inj h = cc

then_of :
    (b : Bool) (refuse : Exchange) {u y : Exchange}
    → (if b then going u else ending refuse) ≡ going y
    → (b ≡ true) × (y ≡ u)
then_of true refuse h = (refl, going_inj (sym h))
then_of false refuse h = absurd (ending≢going h)

else_of : (b : Bool) (u : Before) {v w : Before} → b ≡ false → (if b then u else v) ≡ w → v ≡ w
else_of true u n h = cc
else_of false u n h = h

abbrev Went : Middleware → List Middleware → Exchange → Exchange → Type 0
Went m ms x z = (y : Exchange) × (m.before x ≡ going y) × (reach ms y ≡ some z)

went_of :
    (ms : List Middleware) (b : Before) (z : Exchange)
    → elim b [ going y ↦ reach ms y | ending y ↦ none | throwing y ↦ none ] ≡ some z
    → (y : Exchange) × (b ≡ going y) × (reach ms y ≡ some z)
went_of ms (going y) z h = (y, refl, h)
went_of ms (ending y) z h = cc
went_of ms (throwing y) z h = cc

reach-Went :
    (m : Middleware) (ms : List Middleware) (x z : Exchange)
    → reach (m ∷ ms) x ≡ some z
    → Went m ms x z
reach-Went m ms x z h = went_of ms (m.before x) z h

module _ (authenticate : String → Option AuthResult) (exclude_paths : List String) where
  -- The request carries a token that the provider accepts, for the identity.
  abbrev pub IsAuthentic : Exchange → UserIdentity → Type 0
  IsAuthentic x i =
      (token : String) × (r : AuthResult) × (bearer (Dict.get x.request.headers "authorization")
        ≡ some token)
      × (authenticate token ≡ some r)
      × (r.authenticated ≡ true)
      × (r.identity ≡ some i)

  authenticated_going :
      (r : AuthResult) (a : Bool) (j : Option UserIdentity) (refuse : Exchange) (x y : Exchange)
      → r.authenticated ≡ a
      → r.identity ≡ j
      → elim j [
        | none ↦ ending refuse
        | some i ↦ if a then going (with_identity i x) else ending refuse
      ]
        ≡ going y
      → (i : UserIdentity) × (r.authenticated ≡ true)
        × (r.identity ≡ some i)
        × (y ≡ with_identity i x)
  authenticated_going r a none refuse x y ea ej h = absurd (ending≢going h)
  authenticated_going r true (some i) refuse x y ea ej h = (i, ea, ej, going_inj (sym h))
  authenticated_going r false (some i) refuse x y ea ej h = absurd (ending≢going h)

  provider_going :
      (o : Option AuthResult) (x y : Exchange)
      → authenticated o x ≡ going y
      → (i : UserIdentity) × (r : AuthResult) × (o ≡ some r)
        × (r.authenticated ≡ true)
        × (r.identity ≡ some i)
        × (y ≡ with_identity i x)
  provider_going none x y h = absurd (ending≢going h)
  provider_going (some r) x y h =
      let (i, a, j, e) = authenticated_going r r.authenticated r.identity _ x y refl refl h in
      (i, r, refl, a, j, e)

  bearer_going :
      (o : Option String) (x y refuse : Exchange)
      → elim o [ none ↦ ending refuse | some token ↦ authenticated (authenticate token) x ]
        ≡ going y
      → (token : String) × (o ≡ some token) × (authenticated (authenticate token) x ≡ going y)
  bearer_going none x y refuse h = absurd (ending≢going h)
  bearer_going (some token) x y refuse h = (token, refl, h)

  authn_stage-IsAuthentic :
      (x y : Exchange)
      → is_excluded exclude_paths x ≡ false
      → (authn_stage authenticate exclude_paths).before x ≡ going y
      → (i : UserIdentity) × IsAuthentic x i × (y ≡ with_identity i x)
  unfolding authn_stage
  authn_stage-IsAuthentic x y n h =
      let h' = else_of (is_excluded exclude_paths x) (going x) n h in
      let refuse = answered 401 "UNAUTHORIZED" "Missing or invalid Authorization header" x in
      let (token, b, p) =
        bearer_going (bearer (Dict.get x.request.headers "authorization")) x y refuse h' in
      let (i, r, o, a, j, e) = provider_going (authenticate token) x y p in
      (i, (token, r, b, o, a, j), e)

tenant_going :
    (o : Option String) (x y refuse next : Exchange)
    → elim o [ none ↦ if true then ending refuse else going next | some t ↦ going next ] ≡ going y
    → (t : String) × (o ≡ some t) × (y ≡ next)
tenant_going none x y refuse next h = absurd (ending≢going h)
tenant_going (some t) x y refuse next h = (t, refl, going_inj (sym h))

given_same : (o : Option String) (t d : String) → given o ≡ some t → or_else o d ≡ t
given_same none t d h = cc
given_same (some s) t d h = ground (arith, h)

tenant_stage-given :
    (header_name : String) (x y : Exchange)
    → (tenant_stage header_name true).before x ≡ going y
    → (t : String) × (given (Dict.get x.request.headers header_name) ≡ some t)
      × (y ≡ in_tenant (some t) x)
unfolding tenant_stage
tenant_stage-given header_name x y h =
    let o = Dict.get x.request.headers header_name in
    let refuse = answered 400 "MISSING_TENANT" (append "Missing required header: " header_name) x in
    let (t, g, e) = tenant_going (given o) x y refuse (in_tenant o x) h in
    (t, g, e ∙ ap (λ s. in_tenant (some s) x) (given_same o t "default" g))

authorized_going :
    (a : Authorized) (x y : Exchange)
    → authorized a x ≡ going y
    → (d : AuthzDecision) × (a ≡ decided d) × (d.allowed ≡ true) × (y ≡ x)
authorized_going type_error x y h = absurd (ground (arith, h))
authorized_going (decided d) x y h = let (a, e) = then_of d.allowed _ h in (d, refl, a, e)

some_going :
    (o : Option TenantContext) (y refuse : Exchange) (ctx : TenantContext)
    (f : TenantContext → Before)
    → o ≡ some ctx
    → elim o [ none ↦ ending refuse | some c ↦ f c ] ≡ going y
    → f ctx ≡ going y
some_going none y refuse ctx f e h = cc
some_going (some c) y refuse ctx f e h = ap f (sym (some_inj e)) ∙ h

module _ (upper_case : String → String) (authorize : AuthzRequest → Authorized)
    (resource_resolver : Option (MiddlewareRequest → String × Option String)) where
  -- The policy allows what the request asks for in the context.
  abbrev pub IsAllowed : MiddlewareRequest → TenantContext → Type 0
  IsAllowed r ctx =
      (d : AuthzDecision) × (authorize (authz_request upper_case resource_resolver r ctx)
        ≡ decided d)
      × (d.allowed ≡ true)

  authz_stage-IsAllowed :
      (x y : Exchange) (ctx : TenantContext)
      → x.request.tenant_context ≡ some ctx
      → (authz_stage upper_case authorize resource_resolver).before x ≡ going y
      → IsAllowed x.request ctx × (y ≡ x)
  unfolding authz_stage
  authz_stage-IsAllowed x y ctx c h =
      let h' =
        some_going x.request.tenant_context y _ ctx
          (λ k. authorized (authorize (authz_request upper_case resource_resolver x.request k)) x) c
          h in
      let (d, e, a, s) =
        authorized_going (authorize (authz_request upper_case resource_resolver x.request ctx)) x y
          h' in
      ((d, e, a), s)

  -- A request whose path is not excluded comes through authentication, the required tenant header and
  -- authorization only if the provider accepted its token, it named a tenant, and the policy allowed
  -- it for the user and the roles of that token in that tenant; it then goes on in their context.
  pub reach-secured :
      (authenticate : String → Option AuthResult) (exclude_paths : List String)
      (header_name : String) (x z : Exchange)
      → is_excluded exclude_paths x ≡ false
      → reach
          (authn_stage authenticate exclude_paths
            ∷ tenant_stage header_name true
            ∷ authz_stage upper_case authorize resource_resolver
            ∷ [])
          x
        ≡ some z
      → (i : UserIdentity) × (t : String) × IsAuthentic authenticate exclude_paths x i
        × (given (Dict.get x.request.headers header_name) ≡ some t)
        × (z ≡ in_tenant (some t) (with_identity i x))
        × IsAllowed z.request (record { tenant_id = t; user_id = some i.user_id })
  reach-secured authenticate exclude_paths header_name x z n h =
      let authz = authz_stage upper_case authorize resource_resolver in
      let rest = tenant_stage header_name true ∷ authz ∷ [] in
      let (y₁, g₁, r₁) = reach-Went (authn_stage authenticate exclude_paths) rest x z h in
      let (i, auth, e₁) = authn_stage-IsAuthentic authenticate exclude_paths x y₁ n g₁ in
      let x₁ = with_identity i x in
      let (y₂, g₂, r₂) =
        reach-Went (tenant_stage header_name true) (authz ∷ []) x₁ z
          (subst (λ y. reach rest y ≡ some z) e₁ r₁) in
      let (t, g, e₂) = tenant_stage-given header_name x₁ y₂ g₂ in
      let x₂ = in_tenant (some t) x₁ in
      let (y₃, g₃, r₃) =
        reach-Went authz [] x₂ z (subst (λ y. reach (authz ∷ []) y ≡ some z) e₂ r₂) in
      let ctx : TenantContext = record { tenant_id = t; user_id = some i.user_id } in
      let (allowed, e₃) = authz_stage-IsAllowed x₂ y₃ ctx refl g₃ in
      let e : z ≡ x₂ = sym (some_inj r₃) ∙ e₃ in
      (i, t, auth, g, e, subst (λ y. IsAllowed y.request ctx) (sym e) allowed)
