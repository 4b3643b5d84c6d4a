-- ===== src/Embedding/ApiKeys/Revocation.antt =====
-- A revoked key stays revoked, whatever the manager does later.
mod Writes
use openclaw_enterprise_plug.Common.{
  ℕ, String, ◌≡◌, ◌≢◌, refl, sym, ap, ◌∙◌, Bool, true, Option, none, some, List, [], ◌∷◌, All,
  arith, eq_iff, is_some, if◌then◌else◌, if_intro,
}
use openclaw_enterprise_plug.Kernel.Storage.Interface.{StorageBackend, same_place}
use openclaw_enterprise_plug.Embedding.ApiKeys.{
  StoredApiKey, Stored, row, index, ApiKeyCreateInput, ApiKeyValidation, unknown_key, revoked,
  expired, valid, api_keys, row_key, hash_key, as_row, as_index, verdict, create, use_key, look_up,
  validate, mark_revoked, revoke, renew, rotate,
}
use openclaw_enterprise_plug.Embedding.ApiKeys.Validity.{row_key-hash_key, refuses}
use openclaw_enterprise_plug.Embedding.ApiKeys.Revocation.Writes.{
  IsRefused, Refuses, Stays, get-Stays, set_there, create-Stays, row-Stays, place_alike,
  touch-Stays,
}

-- An operation of the manager, of any tenant; the generated ids and keys come first.
pub data Operation : Type 0 where
  creating : String → String → ℕ → String → ApiKeyCreateInput → Operation
  validating revoking : ℕ → String → String → Operation
  rotating : String → String → ℕ → String → String → Operation

module _ (b : StorageBackend Stored) (hash : String → String) where
  open b use {State, read, get, set, atomic_update, get-read, read-set, atomic_update-read}

  abbrev pub perform : Operation → State → State
  perform (creating id raw_key now tenant input) s = (create b hash id raw_key now tenant input s).0
  perform (validating now tenant raw_key) s = (validate b hash now tenant raw_key s).0
  perform (revoking now tenant id) s = (revoke b hash now tenant id s).0
  perform (rotating id raw_key now tenant old) s = (rotate b hash id raw_key now tenant old s).0

  abbrev pub perform_all : List Operation → State → State
  perform_all [] s = s
  perform_all (o ∷ os) s = perform_all os (perform o s)

  -- The operation makes no key with the id or the hash.
  abbrev pub MakesOther : String → String → Operation → Type 0
  MakesOther id raw_key (creating id' raw' now tenant input) =
      (id' ≢ id) × (hash raw' ≢ hash raw_key)
  MakesOther id raw_key (validating now tenant raw') = Unit
  MakesOther id raw_key (revoking now tenant id') = Unit
  MakesOther id raw_key (rotating id' raw' now tenant old) = (id' ≢ id) × (hash raw' ≢ hash raw_key)

  module _ (id raw_key tenant own_id : String) where
    use_key-Stays :
        (now : ℕ) (t : String) (found : Option StoredApiKey) (a : ApiKeyValidation) (s : State)
        → Stays b hash id raw_key tenant own_id s
        → Stays b hash id raw_key tenant own_id (use_key b hash now t found a s)
    unfolding use_key
    use_key-Stays now t found unknown_key s st = st
    use_key-Stays now t found (revoked i j) s st = st
    use_key-Stays now t found (expired i j) s st = st
    use_key-Stays now t found (valid i j scopes) s st =
        touch-Stays b hash id raw_key tenant own_id now t i found s st

    look_up-Stays :
        (now : ℕ) (t : String) (o : Option String) (s : State)
        → Stays b hash id raw_key tenant own_id s
        → Stays b hash id raw_key tenant own_id (look_up b hash now t o s).0
    unfolding look_up
    look_up-Stays now t none s st = st
    look_up-Stays now t (some i) s st =
        let (s', stored) = get t api_keys (row_key i) s in
        use_key-Stays now t (as_row stored) (verdict now t (as_row stored)) s'
          (get-Stays b hash id raw_key tenant own_id t (row_key i) s st)

    some_inj : {r r' : StoredApiKey} → some r ≡ some r' → r ≡ r'
    some_inj e = cc

    mark_revoked-Stays :
        (now : ℕ) (t id' : String) (o : Option StoredApiKey) (s : State)
        → (same_place t api_keys (row_key id') tenant api_keys (row_key id) ≡ true
            → o ≡ as_row (read s tenant api_keys (row_key id)))
        → Stays b hash id raw_key tenant own_id s
        → Stays b hash id raw_key tenant own_id (mark_revoked b hash now t id' o s).0
    unfolding mark_revoked IsRefused Stays Refuses
    mark_revoked-Stays now t id' none s h st = st
    mark_revoked-Stays now t id' (some r') s h st =
        let (r, e, f) = st.1 in
        if_intro (λ (x : State × Bool). Stays b hash id raw_key tenant own_id x.0)
          (is_some r'.revoked_at) (λ _. st)
          (λ _.
            row-Stays b hash id raw_key tenant own_id now t (row_key id')
              (record r' { revoked_at = some now }) s (row_key-hash_key id' (hash raw_key))
              (λ y.
                let same = some_inj (h y ∙ ap as_row e) in
                (ap (λ x. x.id) same ∙ f.0, ap (λ x. x.tenant_id) same ∙ f.1, refl))
              st)

    revoke-Stays :
        (now : ℕ) (t id' : String) (s : State)
        → Stays b hash id raw_key tenant own_id s
        → Stays b hash id raw_key tenant own_id (revoke b hash now t id' s).0
    unfolding revoke
    revoke-Stays now t id' s st =
        let k = row_key id' in
        let (s', stored) = get t api_keys k s in
        mark_revoked-Stays now t id' (as_row stored) s'
          (λ y. ap as_row (
            (get-read t api_keys k s tenant api_keys k).0
            ∙ place_alike b hash id raw_key tenant own_id t k (row_key id) s y
            ∙ sym (get-read t api_keys k s tenant api_keys (row_key id)).1))
          (get-Stays b hash id raw_key tenant own_id t k s st)

    renew-Stays :
        (id' raw' : String) (now : ℕ) (t old : String) (o : Option StoredApiKey) (s : State)
        → id' ≢ id
        → hash raw' ≢ hash raw_key
        → Stays b hash id raw_key tenant own_id s
        → Stays b hash id raw_key tenant own_id (renew b hash id' raw' now t old o s).0
    unfolding renew
    renew-Stays id' raw' now t old none s h h' st = st
    renew-Stays id' raw' now t old (some r) s h h' st =
        create-Stays b hash id raw_key tenant own_id id' raw' now t _ (revoke b hash now t old s).0
          h h' (revoke-Stays now t old s st)

    perform-Stays :
        (o : Operation) (s : State)
        → MakesOther id raw_key o
        → Stays b hash id raw_key tenant own_id s
        → Stays b hash id raw_key tenant own_id (perform o s)
    unfolding validate rotate
    perform-Stays (creating id' raw' now t input) s m st =
        create-Stays b hash id raw_key tenant own_id id' raw' now t input s m.0 m.1 st
    perform-Stays (validating now t raw') s m st =
        let (s', stored) = get t api_keys (hash_key (hash raw')) s in
        look_up-Stays now t (as_index stored) s'
          (get-Stays b hash id raw_key tenant own_id t (hash_key (hash raw')) s st)
    perform-Stays (revoking now t id') s m st = revoke-Stays now t id' s st
    perform-Stays (rotating id' raw' now t old) s m st =
        let (s', stored) = get t api_keys (row_key old) s in
        renew-Stays id' raw' now t old (as_row stored) s' m.0 m.1
          (get-Stays b hash id raw_key tenant own_id t (row_key old) s st)

    perform_all-Stays :
        (os : List Operation) (s : State)
        → All (MakesOther id raw_key) os
        → Stays b hash id raw_key tenant own_id s
        → Stays b hash id raw_key tenant own_id (perform_all os s)
    perform_all-Stays [] s m st = st
    perform_all-Stays (o ∷ os) s m st =
        perform_all-Stays os (perform o s) m.1 (perform-Stays o s m.0 st)

    -- The revocation itself.
    mark_revoked-first :
        (now : ℕ) (r : StoredApiKey) (s : State)
        → read s tenant api_keys (hash_key (hash raw_key)) ≡ some (index id)
        → read s tenant api_keys (row_key id) ≡ some (row r)
        → r.id ≡ own_id
        → r.tenant_id ≡ tenant
        → let (s', found) = mark_revoked b hash now tenant id (some r) s in
          (found ≡ true) × Stays b hash id raw_key tenant own_id s'
    unfolding mark_revoked Stays Refuses IsRefused
    mark_revoked-first now r s hi hr hown ht =
        let rk = row_key id in
        let hk = hash_key (hash raw_key) in
        let r' : StoredApiKey = record r { revoked_at = some now } in
        let here = read-set now tenant api_keys rk (row r') s tenant api_keys rk in
        if_intro (λ (x : State × Bool). (x.1 ≡ true) × Stays b hash id raw_key tenant own_id x.0)
          (is_some r.revoked_at) (λ y. (refl, (hi, (r, hr, (hown, ht, y)))))
          (λ _. (
            refl,
            (
              set_there b hash id raw_key tenant own_id now tenant rk hk (row r') s
                    (row_key-hash_key id (hash raw_key))
                  ∙ hi,
              (
                r',
                ground (arith, here, eq_iff tenant tenant, eq_iff api_keys api_keys, eq_iff rk rk),
                (hown, ht, refl),
              ),
            ),
          ))

  -- A key that is found for a tenant is refused as revoked from its revocation on, at any time and
  -- after any later operations of any tenants, made one after the other, if none of them makes a key
  -- with the same id or the same hash.
  pub revoke-validate :
      (id raw_key tenant : String) (now later : ℕ) (r : StoredApiKey) (s : State)
      (os : List Operation)
      → read s tenant api_keys (hash_key (hash raw_key)) ≡ some (index id)
      → read s tenant api_keys (row_key id) ≡ some (row r)
      → r.tenant_id ≡ tenant
      → All (MakesOther id raw_key) os
      → let (s', found) = revoke b hash now tenant id s in
        (found ≡ true)
        × ((validate b hash later tenant raw_key (perform_all os s')).1 ≡ revoked r.id tenant)
  unfolding revoke Stays Refuses IsRefused
  revoke-validate id raw_key tenant now later r s os hi hr ht m =
      let rk = row_key id in
      let hk = hash_key (hash raw_key) in
      let (s', stored) = get tenant api_keys rk s in
      let keeps = λ (k : String). (get-read tenant api_keys rk s tenant api_keys k).1 in
      let gives : as_row stored ≡ some r =
        ap as_row ((get-read tenant api_keys rk s tenant api_keys rk).0 ∙ hr) in
      let (found, st) =
        mark_revoked-first id raw_key tenant r.id now r s' (keeps hk ∙ hi) (keeps rk ∙ hr) refl
          ht in
      let after = (mark_revoked b hash now tenant id (some r) s').0 in
      let (i, (r', e, f)) = perform_all-Stays id raw_key tenant r.id os after m st in
      rw gives (
        found,
        refuses b hash id raw_key tenant later r' (perform_all os after) i e f.1 f.2
            ∙ ap (λ x. revoked x tenant) f.0,
      )
