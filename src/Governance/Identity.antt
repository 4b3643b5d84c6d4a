-- ===== src/Governance/Identity.antt =====
-- src/governance/identity/impl/token-provider.ts over the types of identity-provider.ts. Of the
-- credentials, the two that the provider reads; what it leaves out of a result is left out here.
pub mod Admission
mod Tests
use openclaw_enterprise_plug.Common.{
  String, ◌≡◌, Bool, true, false, ◌&&◌, Option, none, some, List, [], ◌∷◌, str_eq, if◌then◌else◌,
  or_else, append,
}

pub record UserIdentity : Type 0 where
  pub user_id : String
  pub tenant_id : String
  pub email : Option String
  pub display_name : Option String
  pub roles : List String
  pub groups : List String

pub record AuthRequest : Type 0 where
  pub kind : Option String
  pub token : Option String
  pub password : Option String

pub record AuthResult : Type 0 where
  pub authenticated : Bool
  pub identity : Option UserIdentity
  pub error : Option String

pub data Mode : Type 0 where
  none_mode token_mode password_mode : Mode

pub record TokenProviderConfig : Type 0 where
  pub mode : Mode
  pub token : Option String
  pub password : Option String

abbrev pub default_identity : UserIdentity
default_identity = record {
  user_id = "owner";
  tenant_id = "default";
  email = none;
  display_name = none;
  roles = "admin" ∷ [];
  groups = [];
}

abbrev pub accepted : AuthResult
accepted = record { authenticated = true; identity = some default_identity; error = none }

abbrev pub rejected : String → AuthResult
rejected reason = record { authenticated = false; identity = none; error = some reason }

-- `!token`: a missing text or the empty one.
abbrev pub given : Option String → Option String
given none = none
given (some s) = if str_eq s "" then none else some s

abbrev pub is_same : String → Option String → Bool
is_same s none = false
is_same s (some t) = str_eq s t

abbrev pub in_mode : Mode → Mode → Bool
in_mode none_mode none_mode = true
in_mode token_mode token_mode = true
in_mode password_mode password_mode = true
in_mode _ _ = false

-- The two branches for a kind of credential.
compare_secret : Option String → Bool → Option String → String → String → AuthResult
compare_secret none active expected missing invalid = rejected missing
compare_secret (some s) active expected missing invalid =
    if active && is_same s expected then accepted else rejected invalid

abbrev has_kind : String → AuthRequest → Bool
has_kind k request = is_same k request.kind

by_credentials : TokenProviderConfig → AuthRequest → AuthResult
unfolding compare_secret
by_credentials config request =
    if has_kind "token" request
    then compare_secret (given request.token) (in_mode config.mode token_mode) config.token
        "No token provided" "Invalid token"
    else if has_kind "password" request
    then compare_secret (given request.password) (in_mode config.mode password_mode) config.password
        "No password provided" "Invalid password"
    else rejected (append "Unsupported auth type: " (or_else request.kind "undefined"))

unfoldable pub authenticate : TokenProviderConfig → AuthRequest → AuthResult
unfolding by_credentials
authenticate config request =
    if in_mode config.mode none_mode then accepted else by_credentials config request

unfoldable pub refresh_token : String → AuthResult
refresh_token token = rejected "Token refresh not supported in token mode"
