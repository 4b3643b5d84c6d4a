-- ===== src/Embedding/ApiKeys/Revocation/Writes.antt =====
-- The places at which a revoked key is read, and that no write of the manager makes them other.
use text.Mathlib.TextLemmas.{append_cancel_left}
use openclaw_enterprise_plug.Common.{
  ℕ, String, ◌≡◌, ◌≢◌, refl, sym, ap, ◌∙◌, true, Option, none, some, arith, eq_iff, is_some,
  if◌then◌else◌, Bool-cases, inl, inr,
}
use openclaw_enterprise_plug.Kernel.Storage.Interface.{StorageBackend, same_place, outcome, written}
use openclaw_enterprise_plug.Embedding.ApiKeys.{
  StoredApiKey, Stored, row, index, ApiKeyCreateInput, api_keys, row_key, hash_key, new_row, touch,
  create,
}
use openclaw_enterprise_plug.Embedding.ApiKeys.Validity.{row_key-hash_key}

module _ (b : StorageBackend Stored) (hash : String → String) where
  open b use {State, read, get, set, atomic_update, get-read, read-set, atomic_update-read}

  module _ (id raw_key tenant own_id : String) where
    -- The row is revoked, and of the tenant.
    unfoldable pub IsRefused : StoredApiKey → Type 0
    IsRefused r = (r.id ≡ own_id) × (r.tenant_id ≡ tenant) × (is_some r.revoked_at ≡ true)

    -- What the tenant reads under the two keys, of the index and of the row.
    unfoldable pub Refuses : Option Stored → Option Stored → Type 0
    Refuses i o = (i ≡ some (index id)) × ((r : StoredApiKey) × (o ≡ some (row r)) × IsRefused r)

    unfoldable pub Stays : State → Type 0
    Stays s =
        Refuses (read s tenant api_keys (hash_key (hash raw_key)))
          (read s tenant api_keys (row_key id))

    pub alike-Stays :
        (s s' : State)
        → ((k : String) → read s' tenant api_keys k ≡ read s tenant api_keys k)
        → Stays s
        → Stays s'
    unfolding Stays Refuses
    alike-Stays s s' h (i, (r, e, f)) =
        (h (hash_key (hash raw_key)) ∙ i, (r, h (row_key id) ∙ e, f))

    pub get-Stays : (t k : String) (s : State) → Stays s → Stays (get t api_keys k s).0
    get-Stays t k s =
        alike-Stays s (get t api_keys k s).0 (λ j. (get-read t api_keys k s tenant api_keys j).1)

    -- Writing under another key changes nothing of it.
    pub set_there :
        (now : ℕ) (t k j : String) (v : Stored) (s : State)
        → k ≢ j
        → read (set now t api_keys k v s) tenant api_keys j ≡ read s tenant api_keys j
    set_there now t k j v s h =
        ground (arith, read-set now t api_keys k v s tenant api_keys j, eq_iff k j, h)

    pub other_key-Stays :
        (now : ℕ) (t k : String) (v : Stored) (s : State)
        → k ≢ hash_key (hash raw_key)
        → k ≢ row_key id
        → Stays s
        → Stays (set now t api_keys k v s)
    unfolding Stays Refuses
    other_key-Stays now t k v s h h' (i, (r, e, f)) = (
      set_there now t k (hash_key (hash raw_key)) v s h ∙ i,
      (r, set_there now t k (row_key id) v s h' ∙ e, f),
    )

    pub create-Stays :
        (id' raw' : String) (now : ℕ) (t : String) (input : ApiKeyCreateInput) (s : State)
        → id' ≢ id
        → hash raw' ≢ hash raw_key
        → Stays s
        → Stays (create b hash id' raw' now t input s).0
    unfolding create
    create-Stays id' raw' now t input s h h' st =
        let made = row (new_row id' (hash raw') now t input) in
        other_key-Stays now t (hash_key (hash raw')) (index id')
          (set now t api_keys (row_key id') made s)
          (λ e. h' (append_cancel_left "h:" (hash raw') (hash raw_key) e))
          (λ e. row_key-hash_key id (hash raw') (sym e))
          (other_key-Stays now t (row_key id') made s (row_key-hash_key id' (hash raw_key))
            (λ e. h (append_cancel_left "k:" id' id e)) st)

    -- Writing a row that is refused, if it is written in its place.
    pub row-Stays :
        (now : ℕ) (t k : String) (r' : StoredApiKey) (s : State)
        → k ≢ hash_key (hash raw_key)
        → (same_place t api_keys k tenant api_keys (row_key id) ≡ true → IsRefused r')
        → Stays s
        → Stays (set now t api_keys k (row r') s)
    unfolding Stays Refuses
    row-Stays now t k r' s h f (i, (r, e, g)) =
        let here = read-set now t api_keys k (row r') s tenant api_keys (row_key id) in
        (
          set_there now t k (hash_key (hash raw_key)) (row r') s h ∙ i,
          elim (Bool-cases (same_place t api_keys k tenant api_keys (row_key id))) [
            | inl y ↦ (r', ground (arith, here, y), f y)
            | inr n ↦ (r, ground (arith, here, n, e), g)
          ],
        )

    pub place_alike :
        (t k j : String) (s : State)
        → same_place t api_keys k tenant api_keys j ≡ true
        → read s t api_keys k ≡ read s tenant api_keys j
    place_alike t k j s y =
        let t_same : t ≡ tenant = ground (arith, y, eq_iff t tenant) in
        let k_same : k ≡ j = ground (arith, y, eq_iff k j) in
        ap (λ x. read s x api_keys k) t_same ∙ ap (λ x. read s tenant api_keys x) k_same

    pub touch_row :
        (now : ℕ) (found : Option StoredApiKey) (r : StoredApiKey)
        → outcome (touch now found (some (row r)))
          ≡ some (row (record r { last_used_at = some now }))
    touch_row now none r = refl
    touch_row now (some r') r = refl

    pub touch-Stays :
        (now : ℕ) (t id' : String) (found : Option StoredApiKey) (s : State)
        → Stays s
        → Stays (atomic_update now t api_keys (row_key id') (touch now found) s).0
    unfolding Stays Refuses IsRefused
    touch-Stays now t id' found s (i, (r, e, f)) =
        let k = row_key id' in
        let hk = hash_key (hash raw_key) in
        let other = row_key-hash_key id' (hash raw_key) in
        let index_read =
          (atomic_update-read now t api_keys k (touch now found) s tenant api_keys hk).1 in
        let row_read =
          (atomic_update-read now t api_keys k (touch now found) s tenant api_keys
            (row_key id)).1 in
        (
          ground (arith, index_read, eq_iff k hk, other, i),
          elim (Bool-cases (same_place t api_keys k tenant api_keys (row_key id))) [
            | inl y ↦
                let cur = place_alike t k (row_key id) s y ∙ e in
                let gives = ap (λ o. outcome (touch now found o)) cur ∙ touch_row now found r in
                (
                  record r { last_used_at = some now },
                  row_read
                      ∙ ap
                          (λ c.
                            if c
                            then written (outcome (touch now found (read s t api_keys k)))
                                (read s tenant api_keys (row_key id))
                            else read s tenant api_keys (row_key id))
                          y
                      ∙ ap (λ o. written o (read s tenant api_keys (row_key id))) gives,
                  f,
                )
            | inr n ↦ (r, ground (arith, row_read, n, e), f)
          ],
        )
