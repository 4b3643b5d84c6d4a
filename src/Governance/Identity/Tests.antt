-- ===== src/Governance/Identity/Tests.antt =====
-- Requests to the default identity provider.
use openclaw_enterprise_plug.Common.{◌≡◌, ◌↔◌, refl, true, false, none, some}
use openclaw_enterprise_plug.Governance.Identity.{
  AuthRequest, TokenProviderConfig, token_mode, accepted, rejected, authenticate, refresh_token,
  by_credentials, compare_secret,
}
use openclaw_enterprise_plug.Governance.Identity.Admission.{Admits, authenticate_iff}

abbrev config : TokenProviderConfig
config = record { mode = token_mode; token = some "s3cret"; password = none }

abbrev request : AuthRequest
request = record { kind = some "token"; token = some "s3cret"; password = none }

wrong : authenticate config (record request { token = some "guess" }) ≡ rejected "Invalid token"
unfolding authenticate by_credentials compare_secret
wrong = refl

unsupported :
    authenticate config (record request { kind = none })
    ≡ rejected "Unsupported auth type: undefined"
unfolding authenticate by_credentials
unsupported = refl

authenticate_iff_example :
    ((authenticate config request ≡ accepted) ↔ Admits config request)
    × ((authenticate config request).authenticated ≡ true → authenticate config request ≡ accepted)
    × ((refresh_token "old").authenticated ≡ false)
authenticate_iff_example = authenticate_iff config request "old"
