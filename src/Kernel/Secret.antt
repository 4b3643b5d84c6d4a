-- ===== src/Kernel/Secret.antt =====
-- src/kernel-impl/memory/secret.ts: secrets by tenant and path. The environment of the process is a
-- parameter.
use text.Mathlib.Text.{starts_with}
use openclaw_enterprise_plug.Common.{
  String, ◌≡◌, Bool, ◌&&◌, Option, some, List, [], map, filter, arith, eq_iff, str_eq,
  if◌then◌else◌, or_else, is_some,
}
use openclaw_enterprise_plug.Common.Dict
use openclaw_enterprise_plug.Common.Dict.{Dict, get-set}

abbrev Secrets : Type 0
Secrets = Dict (Dict String)

-- `getTenantSecrets`
abbrev tenant_secrets : String → Secrets → Dict String
tenant_secrets tenant s = or_else (Dict.get s tenant) []

-- A missing tenant is made by every operation, also by those that only read.
unfoldable get_secret : String → String → Secrets → Secrets × Option String
get_secret tenant path s =
    let own = tenant_secrets tenant s in (Dict.set s tenant own, Dict.get own path)

unfoldable set_secret : String → String → String → Secrets → Secrets
set_secret tenant path value s = Dict.set s tenant (Dict.set (tenant_secrets tenant s) path value)

unfoldable delete_secret : String → String → Secrets → Secrets × Bool
delete_secret tenant path s =
    let own = tenant_secrets tenant s in
    (Dict.set s tenant (Dict.delete own path), is_some (Dict.get own path))

unfoldable list_secret_paths : String → String → Secrets → Secrets × List String
list_secret_paths tenant prefix s =
    let own = tenant_secrets tenant s in
    (Dict.set s tenant own, filter (λ k. starts_with k prefix) (map (λ e. e.0) own))

-- `EnvSecretBackend.getSecret`
unfoldable get_env_secret : (String → Option String) → String → String → Option String
get_env_secret env tenant path = env path

-- A secret that is set is read at its tenant and path, and no other one changes.
get_secret-set_secret :
    (tenant path value other other_path : String) (s : Secrets)
    → (get_secret other other_path (set_secret tenant path value s)).1 ≡ (
        if str_eq tenant other && str_eq path other_path
        then some value
        else (get_secret other other_path s).1)
unfolding get_secret set_secret
get_secret-set_secret tenant path value other other_path s = ground (
  arith,
  get-set s tenant (Dict.set (tenant_secrets tenant s) path value) other,
  get-set (tenant_secrets tenant s) path value other_path,
  eq_iff tenant other,
  eq_iff path other_path,
)
