-- ===== src/Embedding/ApiKeys/Validity.antt =====
-- What `validate` answers, and that it accepts a key after `create`.
use text.Mathlib.TextPositions.{slice-append_left}
use Prim.Native.String.{slice}
use openclaw_enterprise_plug.Common.{
  ℕ, String, ◌≡◌, ◌≢◌, refl, sym, ap, ◌∙◌, true, false, Option, none, some, arith, eq_iff, is_some,
}
use openclaw_enterprise_plug.Kernel.Storage.Interface.{StorageBackend}
use openclaw_enterprise_plug.Embedding.ApiKeys.{
  StoredApiKey, Stored, row, index, ApiKeyCreateInput, ApiKeyValidation, unknown_key, revoked,
  valid, api_keys, row_key, hash_key, as_row, as_index, new_row, is_past, verdict, create, look_up,
  validate,
}

pub row_key-hash_key : (a b : String) → row_key a ≢ hash_key b
row_key-hash_key a b e =
    let k : "k:" ≡ "h:" =
      sym (slice-append_left "k:" a) ∙ ap (λ x. slice x 0 2) e ∙ slice-append_left "h:" b in
    ground (arith, eq_iff "k:" "h:", k)

module _ (b : StorageBackend Stored) (hash : String → String) where
  open b use {State, read, get, set, get-read, read-set}

  -- What `validate` answers, from what a tenant reads.
  abbrev answer : ℕ → String → Option String → (String → Option Stored) → ApiKeyValidation
  answer now tenant none rows = unknown_key
  answer now tenant (some id) rows = verdict now tenant (as_row (rows (row_key id)))

  look_up-answer :
      (now : ℕ) (tenant : String) (o : Option String) (s : State)
      → (look_up b hash now tenant o s).1 ≡ answer now tenant o (read s tenant api_keys)
  unfolding look_up
  look_up-answer now tenant none s = refl
  look_up-answer now tenant (some id) s =
      ap (λ x. verdict now tenant (as_row x))
        (get-read tenant api_keys (row_key id) s tenant api_keys "").0

  same_answer :
      (now : ℕ) (tenant : String) (o : Option String) (rows rows' : String → Option Stored)
      → ((k : String) → rows k ≡ rows' k)
      → answer now tenant o rows ≡ answer now tenant o rows'
  same_answer now tenant none rows rows' h = refl
  same_answer now tenant (some id) rows rows' h =
      ap (λ x. verdict now tenant (as_row x)) (h (row_key id))

  -- What is written under a key is read there, and other keys read as before.
  set_here :
      (now : ℕ) (t k : String) (v : Stored) (s : State)
      → read (set now t api_keys k v s) t api_keys k ≡ some v
  set_here now t k v s = ground (
    arith,
    read-set now t api_keys k v s t api_keys k,
    eq_iff t t,
    eq_iff api_keys api_keys,
    eq_iff k k,
  )

  set_there :
      (now : ℕ) (t k j : String) (v : Stored) (s : State)
      → k ≢ j
      → read (set now t api_keys k v s) t api_keys j ≡ read s t api_keys j
  set_there now t k j v s h =
      ground (arith, read-set now t api_keys k v s t api_keys j, eq_iff k j, h)

  validate-answer :
      (now : ℕ) (tenant raw_key : String) (s : State)
      → (validate b hash now tenant raw_key s).1
        ≡ answer now tenant
            (as_index (read s tenant api_keys (hash_key (hash raw_key))))
            (read s tenant api_keys)
  unfolding validate
  validate-answer now tenant raw_key s =
      let hk = hash_key (hash raw_key) in
      let (s', stored) = get tenant api_keys hk s in
      look_up-answer now tenant (as_index stored) s'
      ∙ same_answer now tenant (as_index stored) (read s' tenant api_keys) (read s tenant api_keys)
          (λ k. (get-read tenant api_keys hk s tenant api_keys k).1)
      ∙ ap (λ x. answer now tenant (as_index x) (read s tenant api_keys))
          (get-read tenant api_keys hk s tenant api_keys hk).0

  -- A new key is valid at once, with the scopes that it was made with, until it expires.
  pub create-validate :
      (id raw_key tenant : String) (now later : ℕ) (input : ApiKeyCreateInput) (s : State)
      → is_past later input.expires_at ≡ false
      → (validate b hash later tenant raw_key (create b hash id raw_key now tenant input s).0).1
        ≡ valid id tenant input.scopes
  unfolding create
  create-validate id raw_key tenant now later input s h =
      let hk = hash_key (hash raw_key) in
      let made = row (new_row id (hash raw_key) now tenant input) in
      let s₁ = set now tenant api_keys (row_key id) made s in
      let s₂ = set now tenant api_keys hk (index id) s₁ in
      let e₁ : read s₂ tenant api_keys hk ≡ some (index id) =
        set_here now tenant hk (index id) s₁ in
      let e₂ : read s₂ tenant api_keys (row_key id) ≡ some made =
        set_there now tenant hk (row_key id) (index id) s₁
          (λ e. row_key-hash_key id (hash raw_key) (sym e))
        ∙ set_here now tenant (row_key id) made s in
      ground (arith, validate-answer later tenant raw_key s₂, e₁, e₂, h, eq_iff tenant tenant)

  pub refuses :
      (id raw_key tenant : String) (later : ℕ) (r : StoredApiKey) (s : State)
      → read s tenant api_keys (hash_key (hash raw_key)) ≡ some (index id)
      → read s tenant api_keys (row_key id) ≡ some (row r)
      → r.tenant_id ≡ tenant
      → is_some r.revoked_at ≡ true
      → (validate b hash later tenant raw_key s).1 ≡ revoked r.id tenant
  refuses id raw_key tenant later r s hi hr ht hs =
      ground
        (arith, validate-answer later tenant raw_key s, hi, hr, ht, hs, eq_iff r.tenant_id tenant)
