-- ===== src/Governance/Identity/Admission.antt =====
-- Who gets in by the default identity provider.
use openclaw_enterprise_plug.Common.{
  String, ◌≡◌, ◌≢◌, ◌↔◌, refl, Bool, true, false, Option, none, some, arith, eq_iff, inl, inr,
  Bool-cases,
}
use openclaw_enterprise_plug.Governance.Identity.{
  AuthRequest, Mode, none_mode, token_mode, password_mode, TokenProviderConfig, compare_secret,
  by_credentials, authenticate, refresh_token, given, in_mode, is_same, accepted,
}

-- The request offers the configured secret: a text that is not empty.
abbrev pub Offers : Option String → Option String → Type 0
Offers offered expected = (s : String) × (s ≢ "") × (offered ≡ some s) × (expected ≡ some s)

-- The conditions under which somebody is let in.
pub data Admits (config : TokenProviderConfig) (request : AuthRequest) : Type 0 where
  anybody : config.mode ≡ none_mode → Admits config request
  by_token :
      config.mode ≡ token_mode
      → request.kind ≡ some "token"
      → Offers request.token config.token
      → Admits config request
  by_password :
      config.mode ≡ password_mode
      → request.kind ≡ some "password"
      → Offers request.password config.password
      → Admits config request

-- Whoever meets a condition is let in as the owner.
pub Admits-accepted :
    (config : TokenProviderConfig) (request : AuthRequest)
    → Admits config request
    → authenticate config request ≡ accepted
unfolding authenticate by_credentials compare_secret
Admits-accepted config request (anybody m) = ground (arith, m)
Admits-accepted config request (by_token m k (s, n, a, e)) =
    ground (arith, m, k, n, a, e, eq_iff s "", eq_iff s s)
Admits-accepted config request (by_password m k (s, n, a, e)) =
    ground (arith, m, k, n, a, e, eq_iff s "", eq_iff s s)

in_mode-same : (m n : Mode) → in_mode m n ≡ true → m ≡ n
in_mode-same none_mode none_mode h = refl
in_mode-same token_mode token_mode h = refl
in_mode-same password_mode password_mode h = refl
in_mode-same _ _ h = absurd (ground arith)

is_same-some : (s : String) (o : Option String) → is_same s o ≡ true → o ≡ some s
is_same-some s none h = absurd (ground arith)
is_same-some s (some t) h = ground (arith, eq_iff s t)

compare_secret-cases :
    (offered expected : Option String) (active : Bool) (missing invalid : String)
    → compare_secret (given offered) active expected missing invalid ≡ accepted
    → (active ≡ true) × Offers offered expected
unfolding compare_secret
compare_secret-cases none expected active missing invalid h = absurd (ground arith)
compare_secret-cases (some s) none active missing invalid h = absurd (ground arith)
compare_secret-cases (some s) (some t) active missing invalid h =
    (ground arith, (s, (λ e. ground (arith, e, eq_iff s "")), refl, ground (arith, eq_iff s t)))

by_credentials-Admits :
    (config : TokenProviderConfig) (request : AuthRequest)
    → by_credentials config request ≡ accepted
    → Admits config request
unfolding by_credentials
by_credentials-Admits config request h = elim (Bool-cases (is_same "token" request.kind)) [
  | inl y ↦
      let (active, offers) =
        compare_secret-cases request.token config.token (in_mode config.mode token_mode)
          "No token provided" "Invalid token" (ground (arith, y, h)) in
      by_token (in_mode-same config.mode token_mode active) (is_same-some "token" request.kind y)
        offers
  | inr n ↦ elim (Bool-cases (is_same "password" request.kind)) [
    | inr m ↦ absurd (ground (arith, n, m, h))
    | inl y ↦
        let (active, offers) =
          compare_secret-cases request.password config.password (in_mode config.mode password_mode)
            "No password provided" "Invalid password" (ground (arith, n, y, h)) in
        by_password (in_mode-same config.mode password_mode active)
          (is_same-some "password" request.kind y) offers
  ]
]

accepted-Admits :
    (config : TokenProviderConfig) (request : AuthRequest)
    → authenticate config request ≡ accepted
    → Admits config request
unfolding authenticate
accepted-Admits config request h = elim (Bool-cases (in_mode config.mode none_mode)) [
  | inl y ↦ anybody (in_mode-same config.mode none_mode y)
  | inr n ↦ by_credentials-Admits config request (ground (arith, n, h))
]

secret-accepted :
    (offered expected : Option String) (active : Bool) (missing invalid : String)
    → let r = compare_secret (given offered) active expected missing invalid in
      r.authenticated ≡ true → r ≡ accepted
unfolding compare_secret
secret-accepted offered expected active missing invalid h = ground arith

authenticated-accepted :
    (config : TokenProviderConfig) (request : AuthRequest)
    → (authenticate config request).authenticated ≡ true
    → authenticate config request ≡ accepted
unfolding authenticate by_credentials
authenticated-accepted config request h = ground (arith, h)

-- The provider lets somebody in, always as the owner, exactly if it is configured to check nothing,
-- or if the request is of the configured kind and offers the configured secret, which is not empty;
-- to refresh a token never lets anybody in.
pub authenticate_iff :
    (config : TokenProviderConfig) (request : AuthRequest) (old : String)
    → ((authenticate config request ≡ accepted) ↔ Admits config request)
      × ((authenticate config request).authenticated ≡ true
          → authenticate config request ≡ accepted)
      × ((refresh_token old).authenticated ≡ false)
unfolding authenticate refresh_token
authenticate_iff config request old = (
  (accepted-Admits config request, Admits-accepted config request),
  authenticated-accepted config request,
  refl,
)
