-- ===== src/Kernel/Storage/Laws.antt =====
-- The memory backend keeps the laws of the interface: tenants, collections and keys do not mix.
use openclaw_enterprise_plug.Common.{
  ℕ, String, ◌≡◌, refl, ap, ◌∙◌, true, ◌&&◌, Option, none, some, List, [], ◌∷◌, arith, str_eq,
  eq_iff, if◌then◌else◌, is_some, or_else,
}
use openclaw_enterprise_plug.Common.Dict
use openclaw_enterprise_plug.Common.Dict.{get-set, get-delete}
use openclaw_enterprise_plug.Kernel.Storage.{
  StoredEntry, Collection, Store, collection, put_collection, value_of, created, get, set, delete,
  Updated, updated, threw, atomic_update, atomic_update_write, batch_set,
}
use openclaw_enterprise_plug.Kernel.Storage.Interface.{same_place, written, outcome, StorageBackend}

module _ {V : Type 0} where
  abbrev pub read : Store V → String → String → String → Option V
  read s t c k = value_of (Dict.get (collection t c s) k)

  pub collection-put :
      (t c t' c' : String) (l : Collection V) (s : Store V)
      → collection t' c' (put_collection t c l s)
        ≡ (if str_eq t t' && str_eq c c' then l else collection t' c' s)
  unfolding put_collection
  collection-put t c t' c' l s = ground (
    arith,
    get-set s t (Dict.set (or_else (Dict.get s t) []) c l) t',
    get-set (or_else (Dict.get s t) []) c l c',
    eq_iff t t',
  )

  pub collection_same :
      (t c t' c' : String) (s : Store V)
      → str_eq t t' && str_eq c c' ≡ true
      → collection t c s ≡ collection t' c' s
  collection_same t c t' c' s h = ground (arith, eq_iff t t', eq_iff c c')

  pub read-get :
      (t c k : String) (s : Store V) (t' c' k' : String)
      → ((get t c k s).1 ≡ read s t c k) × (read (get t c k s).0 t' c' k' ≡ read s t' c' k')
  unfolding get
  read-get t c k s t' c' k' = (
    refl,
    ground (arith, collection-put t c t' c' (collection t c s) s, collection_same t c t' c' s),
  )

  -- A value that is set is read back at its tenant, collection and key, and at no other place does
  -- anything change.
  pub read-set :
      (now : ℕ) (t c k : String) (v : V) (s : Store V) (t' c' k' : String)
      → read (set now t c k v s) t' c' k'
        ≡ (if same_place t c k t' c' k' then some v else read s t' c' k')
  unfolding set
  read-set now t c k v s t' c' k' =
      let l = collection t c s in
      let e : StoredEntry V = record {
        value = v;
        created_at = created now (Dict.get l k);
        updated_at = now;
      } in
      ground (
        arith,
        collection-put t c t' c' (Dict.set l k e) s,
        collection_same t c t' c' s,
        get-set l k e k',
      )

  -- `delete` says whether something was read at its place, where nothing is read afterwards, and
  -- changes no other place.
  pub read-delete :
      (t c k : String) (s : Store V) (t' c' k' : String)
      → ((delete t c k s).1 ≡ is_some (read s t c k))
        × (read (delete t c k s).0 t' c' k'
            ≡ (if same_place t c k t' c' k' then none else read s t' c' k'))
  unfolding delete
  read-delete t c k s t' c' k' =
      let l = collection t c s in
      (
        ground arith,
        ground (
          arith,
          collection-put t c t' c' (Dict.delete l k) s,
          collection_same t c t' c' s,
          get-delete l k k',
        ),
      )

  write_cases :
      (now : ℕ) (t c k : String) (u : Updated V) (f : Option V → Updated V) (o : Option V)
      (s : Store V)
      → f o ≡ u
      → (t' c' k' : String)
      → ((atomic_update_write now t c k f o s).1 ≡ u)
        × (read (atomic_update_write now t c k f o s).0 t' c' k' ≡ (
            if same_place t c k t' c' k'
            then written (outcome u) (read s t' c' k')
            else read s t' c' k'))
  unfolding atomic_update_write
  write_cases now t c k (updated v) f o s e t' c' k' =
      rw (e, atomic_update_write) (refl, read-set now t c k v s t' c' k')
  write_cases now t c k (threw x) f o s e t' c' k' =
      rw (e, atomic_update_write) (refl, ground arith)

  -- `atomicUpdate` hands its updater what is read at its place, returns or throws what the updater
  -- does, and stores the result there; if the updater throws, and at every other place, what is read
  -- stays as it was.
  pub atomic_update-read :
      (now : ℕ) (t c k : String) (f : Option V → Updated V) (s : Store V) (t' c' k' : String)
      → ((atomic_update now t c k f s).1 ≡ f (read s t c k))
        × (read (atomic_update now t c k f s).0 t' c' k' ≡ (
            if same_place t c k t' c' k'
            then written (outcome (f (read s t c k))) (read s t' c' k')
            else read s t' c' k'))
  unfolding atomic_update
  atomic_update-read now t c k f s t' c' k' =
      let (g, r) = read-get t c k s t' c' k' in
      let (a, b) =
        write_cases now t c k (f (get t c k s).1) f (get t c k s).1 (get t c k s).0 refl t' c' k' in
      (a ∙ ap f g, ground (arith, b, ap f g, r))

  pub batch_set-nil :
      (now : ℕ) (t c : String) (s : Store V) (t' c' k' : String)
      → read (batch_set now t c [] s) t' c' k' ≡ read s t' c' k'
  unfolding batch_set
  batch_set-nil now t c s t' c' k' = refl

  pub batch_set-cons :
      (now : ℕ) (t c k : String) (v : V) (es : List (String × V)) (s : Store V) (t' c' k' : String)
      → read (batch_set now t c ((k, v) ∷ es) s) t' c' k'
        ≡ read (batch_set now t c es (set now t c k v s)) t' c' k'
  unfolding batch_set
  batch_set-cons now t c k v es s t' c' k' = refl

  -- The memory backend as an instance of the interface.
  abbrev pub memory_backend : StorageBackend V
  memory_backend = record {
    State = Store V;
    read = read;
    get = get;
    set = set;
    delete = delete;
    atomic_update = atomic_update;
    get-read = read-get;
    read-set = read-set;
    read-delete = read-delete;
    atomic_update-read = atomic_update-read;
    batch_set = batch_set;
    batch_set-nil = batch_set-nil;
    batch_set-cons = batch_set-cons;
  }

  -- Two calls of `atomicUpdate` on one key that overlap, each reading before the other writes, hand
  -- their updaters the same value, and the result of the first is lost.
  pub atomic_update_overlap :
      (now now' : ℕ) (t c k : String) (f g : Option V → Updated V) (v w : V) (s : Store V)
      → f (read s t c k) ≡ updated v
      → g (read s t c k) ≡ updated w
      → let (s₁, current) = get t c k s in
        let (s₂, current') = get t c k s₁ in
        let (s₃, first) = atomic_update_write now t c k f current s₂ in
        let (s₄, second) = atomic_update_write now' t c k g current' s₃ in
        (first ≡ updated v) × (second ≡ updated w) × (read s₄ t c k ≡ some w)
  atomic_update_overlap now now' t c k f g v w s hf hg =
      let (s₁, current) = get t c k s in
      let (s₂, current') = get t c k s₁ in
      let e : current ≡ read s t c k = (read-get t c k s t c k).0 in
      let e' : current' ≡ read s t c k = (read-get t c k s₁ t c k).0 ∙ (read-get t c k s t c k).1 in
      let (a, _) = write_cases now t c k (updated v) f current s₂ (ap f e ∙ hf) t c k in
      let s₃ = (atomic_update_write now t c k f current s₂).0 in
      let (b, r) = write_cases now' t c k (updated w) g current' s₃ (ap g e' ∙ hg) t c k in
      (a, b, ground (arith, r, eq_iff t t, eq_iff c c, eq_iff k k))

  -- Writing over a value keeps the date of its creation, and dates the change.
  pub set_dates :
      (now : ℕ) (t c k : String) (v : V) (s : Store V) (e : StoredEntry V)
      → Dict.get (collection t c s) k ≡ some e
      → Dict.get (collection t c (set now t c k v s)) k
        ≡ some (record { value = v; created_at = e.created_at; updated_at = now })
  unfolding set
  set_dates now t c k v s e h =
      let l = collection t c s in
      let n : StoredEntry V = record {
        value = v;
        created_at = created now (Dict.get l k);
        updated_at = now;
      } in
      ground (
        arith,
        collection-put t c t c (Dict.set l k n) s,
        get-set l k n k,
        h,
        eq_iff t t,
        eq_iff c c,
        eq_iff k k,
      )
