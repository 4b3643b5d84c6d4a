-- ===== src/Governance/Scopes/Decision.antt =====
-- What the scope policy decides.
use openclaw_enterprise_plug.Common.{
  String, ◌≡◌, ◌⊎◌, ◌↔◌, refl, Bool, true, false, List, [], ◌∷◌, All, any, arith, eq_iff, str_eq,
  inl, inr, Bool-cases, subst,
}
use openclaw_enterprise_plug.Governance.Scopes.{
  AuthzRequest, allow, deny, scopes_of, required_scope, by_roles, authorize,
}

-- Some element of the list.
abbrev pub Has : String → List String → Type 0
Has x [] = ⊥
Has x (y ∷ ys) = (x ≡ y) ⊎ Has x ys

any-Has : (x : String) (ys : List String) → (any (str_eq x) ys ≡ true) ↔ Has x ys
any-Has x [] = ((λ h. absurd (ground arith)), (λ h. absurd h))
any-Has x (y ∷ ys) =
    let (to, from) = any-Has x ys in
    (
      (λ h. elim (Bool-cases (str_eq x y)) [
        | inl e ↦ inl (ground (arith, eq_iff x y, e))
        | inr n ↦ inr (to (ground (arith, n, h)))
      ]),
      λ h. elim h [ inl e ↦ ground (arith, eq_iff x y, e) | inr k ↦ ground (arith, from k) ],
    )

-- A role of the list carries the scope.
abbrev pub Carries : String → List String → Type 0
Carries scope roles = (role : String) × Has role roles × Has scope (scopes_of role)

by_roles-cases :
    (inherited : String → Bool) (roles : List String) (scope : String)
    → All (λ r. inherited r ≡ false) roles
    → (Carries scope roles × (by_roles inherited roles scope ≡ allow))
      ⊎ ((Carries scope roles → ⊥) × (by_roles inherited roles scope ≡ deny scope))
unfolding by_roles
by_roles-cases inherited [] scope h = inr ((λ c. absurd c.1), refl)
by_roles-cases inherited (role ∷ roles) scope h =
    elim (Bool-cases (any (str_eq scope) (scopes_of role))) [
      | inl y ↦ inl ((role, inl refl, (any-Has scope (scopes_of role)).0 y), ground (arith, y, h.0))
      | inr n ↦ elim (by_roles-cases inherited roles scope h.1) [
        | inl ((r, k, g), e) ↦ inl ((r, inr k, g), ground (arith, n, h.0, e))
        | inr (never, e) ↦ inr (
          (λ (r, k, g). elim k [
            | inl same ↦ absurd (
                ground (
                  arith,
                  n,
                  (any-Has scope (scopes_of role)).1 (subst (λ q. Has scope (scopes_of q)) same g),
                ))
            | inr later ↦ never (r, later, g)
          ]),
          ground (arith, n, h.0, e),
        )
      ]
    ]

-- If no role of the subject has the name of an inherited property, the policy always decides: it
-- allows an action exactly to an administrator and to whoever has a role that carries its scope, and
-- tells everybody else which scope is missing.
pub authorize-cases :
    (inherited : String → Bool) (r : AuthzRequest)
    → All (λ role. inherited role ≡ false) r.subject.roles
    → let entitled = Has "admin" r.subject.roles ⊎ Carries (required_scope r) r.subject.roles in
      (entitled × (authorize inherited r ≡ allow))
      ⊎ ((entitled → ⊥) × (authorize inherited r ≡ deny (required_scope r)))
unfolding authorize
authorize-cases inherited r h =
    let admin = any-Has "admin" r.subject.roles in
    elim (Bool-cases (any (str_eq "admin") r.subject.roles)) [
      | inl y ↦ inl (inl (admin.0 y), ground (arith, y))
      | inr n ↦ elim (by_roles-cases inherited r.subject.roles (required_scope r) h) [
        | inl (c, e) ↦ inl (inr c, ground (arith, n, e))
        | inr (never, e) ↦ inr (
          (λ x. elim x [ inl a ↦ absurd (ground (arith, n, admin.1 a)) | inr c ↦ never c ]),
          ground (arith, n, e),
        )
      ]
    ]
