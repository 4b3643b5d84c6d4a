-- ===== src/Embedding/ApiKeys.antt =====
-- src/embedding/api-key/impl/storage-api-key.ts over the types of api-key-manager.ts, for any storage.
-- The two kinds of values in the collection are the two constructors of `Stored`; they stand under
-- keys of different prefixes, so no operation reads one kind where it expects the other. Dates are
-- numbers, so that writing and reading them as texts changes nothing. The hash is a parameter, and a
-- generated id or key is an argument.
pub mod Listing
pub mod Validity
mod Revocation
mod Tests
use openclaw_enterprise_plug.Common.{
  ℕ, String, ◌≡◌, Bool, true, false, not, Option, none, some, List, leb, str_eq, if◌then◌else◌,
  is_some, append,
}
use openclaw_enterprise_plug.Kernel.Storage.{Updated, updated}
use openclaw_enterprise_plug.Kernel.Storage.Interface.{StorageBackend}

pub record StoredApiKey : Type 0 where
  pub id : String
  pub tenant_id : String
  pub key_hash : String
  pub prefix : String
  pub name : String
  pub scopes : List String
  pub expires_at : Option ℕ
  pub created_at : ℕ
  pub revoked_at : Option ℕ
  pub last_used_at : Option ℕ
  pub metadata : Option String

pub data Stored : Type 0 where
  row : StoredApiKey → Stored
  index : String → Stored

pub record ApiKeyCreateInput : Type 0 where
  pub name : String
  pub scopes : List String
  pub expires_at : Option ℕ
  pub metadata : Option String

pub record ApiKeyCreateResult : Type 0 where
  pub id : String
  pub raw_key : String
  pub prefix : String
  pub name : String
  pub scopes : List String
  pub expires_at : Option ℕ
  pub created_at : ℕ

-- The results of `validate`.
pub data ApiKeyValidation : Type 0 where
  unknown_key : ApiKeyValidation
  revoked expired : String → String → ApiKeyValidation
  valid : String → String → List String → ApiKeyValidation

pub data Rotated : Type 0 where
  rotated : ApiKeyCreateResult → Rotated
  thrown : String → Rotated

abbrev pub api_keys : String
api_keys = "api_keys"

abbrev pub raw_prefix : String
raw_prefix = "oc_live_"

abbrev pub row_key : String → String
row_key id = append "k:" id

abbrev pub hash_key : String → String
hash_key hashed = append "h:" hashed

abbrev pub as_row : Option Stored → Option StoredApiKey
as_row (some (row r)) = some r
as_row _ = none

abbrev pub as_index : Option Stored → Option String
as_index (some (index id)) = some id
as_index _ = none

-- The row that `create` stores.
abbrev pub new_row : String → String → ℕ → String → ApiKeyCreateInput → StoredApiKey
new_row id hashed now tenant input = record {
  id = id;
  tenant_id = tenant;
  key_hash = hashed;
  prefix = raw_prefix;
  name = input.name;
  scopes = input.scopes;
  expires_at = input.expires_at;
  created_at = now;
  revoked_at = none;
  last_used_at = none;
  metadata = input.metadata;
}

abbrev pub is_past : ℕ → Option ℕ → Bool
is_past now none = false
is_past now (some t) = leb t now

-- The checks of `validate` on the row that it found.
abbrev pub verdict : ℕ → String → Option StoredApiKey → ApiKeyValidation
verdict now tenant none = unknown_key
verdict now tenant (some r) =
    if not (str_eq r.tenant_id tenant)
    then unknown_key
    else if is_some r.revoked_at
    then revoked r.id r.tenant_id
    else if is_past now r.expires_at
    then expired r.id r.tenant_id
    else valid r.id r.tenant_id r.scopes

-- The updater that dates the last use.
abbrev pub touch : ℕ → Option StoredApiKey → Option Stored → Updated Stored
touch now (some r) none = updated (row r)
touch now found (some (row cur)) = updated (row (record cur { last_used_at = some now }))
touch now found (some (index id)) = updated (index id)
touch now none none = updated (index "")

module _ (b : StorageBackend Stored) (hash : String → String) where
  open b use {State, get, set, atomic_update}

  unfoldable pub create :
      String → String → ℕ → String → ApiKeyCreateInput → State → State × ApiKeyCreateResult
  create id raw_key now tenant input s =
      let hashed = hash raw_key in
      let s₁ = set now tenant api_keys (row_key id) (row (new_row id hashed now tenant input)) s in
      (
        set now tenant api_keys (hash_key hashed) (index id) s₁,
        record {
          id = id;
          raw_key = raw_key;
          prefix = raw_prefix;
          name = input.name;
          scopes = input.scopes;
          expires_at = input.expires_at;
          created_at = now;
        },
      )

  -- The last step of `validate`, on a valid row.
  use_key : ℕ → String → Option StoredApiKey → ApiKeyValidation → State → State
  use_key now tenant found (valid id t scopes) s =
      (atomic_update now tenant api_keys (row_key id) (touch now found) s).0
  use_key now tenant found _ s = s

  look_up : ℕ → String → Option String → State → State × ApiKeyValidation
  unfolding use_key
  look_up now tenant none s = (s, unknown_key)
  look_up now tenant (some id) s =
      let (s', stored) = get tenant api_keys (row_key id) s in
      let answer = verdict now tenant (as_row stored) in
      (use_key now tenant (as_row stored) answer s', answer)

  unfoldable pub validate : ℕ → String → String → State → State × ApiKeyValidation
  unfolding look_up
  validate now tenant raw_key s =
      let (s', stored) = get tenant api_keys (hash_key (hash raw_key)) s in
      look_up now tenant (as_index stored) s'

  mark_revoked : ℕ → String → String → Option StoredApiKey → State → State × Bool
  mark_revoked now tenant id none s = (s, false)
  mark_revoked now tenant id (some r) s =
      if is_some r.revoked_at
      then (s, true)
      else (set now tenant api_keys (row_key id) (row (record r { revoked_at = some now })) s, true)

  unfoldable pub revoke : ℕ → String → String → State → State × Bool
  unfolding mark_revoked
  revoke now tenant id s =
      let (s', stored) = get tenant api_keys (row_key id) s in
      mark_revoked now tenant id (as_row stored) s'

  renew : String → String → ℕ → String → String → Option StoredApiKey → State → State × Rotated
  unfolding revoke create
  renew id raw_key now tenant old none s = (s, thrown "API key not found")
  renew id raw_key now tenant old (some r) s =
      let (s₁, _) = revoke now tenant old s in
      let input : ApiKeyCreateInput = record {
        name = r.name;
        scopes = r.scopes;
        expires_at = r.expires_at;
        metadata = r.metadata;
      } in
      let (s₂, result) = create id raw_key now tenant input s₁ in (s₂, rotated result)

  -- `id` and `raw_key` are those of the new key, `old` is the id of the key that it replaces.
  unfoldable pub rotate : String → String → ℕ → String → String → State → State × Rotated
  unfolding renew
  rotate id raw_key now tenant old s =
      let (s', stored) = get tenant api_keys (row_key old) s in
      renew id raw_key now tenant old (as_row stored) s'
