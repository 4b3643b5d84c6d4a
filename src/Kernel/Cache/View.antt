-- ===== src/Kernel/Cache/View.antt =====
-- What a reader of the cache sees: the unexpired value of each key.
use openclaw_enterprise_plug.Common.{
  ℕ, ◌+◌, ◌≤◌, String, ◌≡◌, refl, ap, ◌∙◌, Bool, true, false, not, Option, none, some, arith,
  eq_iff, str_eq, ltb, if◌then◌else◌, or_else, is_some, inl, inr, Option-cases, Bool-cases,
}
use openclaw_enterprise_plug.Common.Dict
use openclaw_enterprise_plug.Common.Dict.{IsUnique, get-set, get-delete, get-retain}
use openclaw_enterprise_plug.Kernel.Cache.{
  CacheEntry, Cache, expiry, is_expired, look, get, set, set_if_absent_write, increment_write, has,
  set_if_absent, evict_expired, increment,
}

module _ {V : Type 0} where
  abbrev seen : ℕ → Option (CacheEntry V) → Option V
  seen now none = none
  seen now (some e) = if is_expired now e then none else some e.value

  -- A value written with an expiry, as it is read later.
  abbrev pub shown : Option ℕ → V → ℕ → Option V
  shown none v later = some v
  shown (some t) v later = if ltb t later then none else some v

  -- The abstract view: at each time, a partial function of the keys.
  abbrev pub view : ℕ → Cache V → String → Option V
  view now c key = seen now (Dict.get c key)

  -- `get` returns what the view holds at its time, and whatever it deletes, no later view changes.
  pub get-view :
      (now later : ℕ) (key other : String) (c : Cache V)
      → now ≤ later
      → ((get now key c).1 ≡ view now c key)
        × (view later (get now key c).0 other ≡ view later c other)
  unfolding get
  get-view now later key other c h = (
    ground arith,
    elim (Option-cases (Dict.get c key)) [
      | inl n ↦ rw (n, look)
      | inr (e, n) ↦ elim (Bool-cases (is_expired now e)) [
        | inl b ↦ rw (n, look, b) (ground (arith, get-delete c key other, eq_iff key other))
        | inr b ↦ rw (n, look, b)
      ]
    ],
  )

  -- `set` shows its value under its key until the time to live is over, for ever if there is none or
  -- it is 0, and changes no other key.
  pub view-set :
      (now later : ℕ) (key other : String) (v : V) (ttl : Option ℕ) (c : Cache V)
      → view later (set now key v ttl c) other
        ≡ (if str_eq key other then shown (expiry ttl now) v later else view later c other)
  unfolding set
  view-set now later key other v ttl c =
      ground (arith, get-set c key (record { value = v; expires_at = expiry ttl now }) other)

  -- The cleanup of expired entries cannot be seen by any reader from then on.
  pub view-evict_expired :
      (now later : ℕ) (key : String) (c : Cache V)
      → IsUnique c
      → now ≤ later
      → view later (evict_expired now c) key ≡ view later c key
  unfolding evict_expired
  view-evict_expired now later key c u h =
      ground (arith, get-retain (λ e. not (is_expired now e)) c key u)

  has-view : (now : ℕ) (key : String) (c : Cache V) → (has now key c).1 ≡ is_some (view now c key)
  unfolding has
  has-view now key c = ap is_some (get-view now now key key c (omega arith)).0

  view-set_self :
      (now later : ℕ) (key : String) (v : V) (c : Cache V)
      → view later (set now key v none c) key ≡ some v
  view-set_self now later key v c =
      ground (arith, view-set now later key key v none c, eq_iff key key)

  set_if_absent_write-view :
      (now later : ℕ) (key : String) (v : V) (ttl : ℕ) (present : Bool) (c : Cache V)
      → let (c', done) = set_if_absent_write now key v ttl present c in
        (done ≡ not present)
        × (view later c' key
            ≡ (if present then view later c key else shown (expiry (some ttl) now) v later))
  unfolding set_if_absent_write
  set_if_absent_write-view now later key v ttl true c = (refl, refl)
  set_if_absent_write-view now later key v ttl false c =
      (refl, ground (arith, view-set now later key key v (some ttl) c, eq_iff key key))

  -- `setIfAbsent` answers true exactly when the view holds nothing under the key; only then, and
  -- while the time to live lasts, its value is shown under the key, and otherwise what was there.
  pub set_if_absent-view :
      (t t' later : ℕ) (key : String) (v : V) (ttl : ℕ) (c : Cache V)
      → t ≤ later
      → let (c', done) = set_if_absent t t' key v ttl c in
        (done ≡ not (is_some (view t c key)))
        × (view later c' key
            ≡ (if done then shown (expiry (some ttl) t') v later else view later c key))
  unfolding set_if_absent has
  set_if_absent-view t t' later key v ttl c h =
      let (d, e) = set_if_absent_write-view t' later key v ttl (has t key c).1 (has t key c).0 in
      let b = has-view t key c in
      let k = (get-view t later key key c h).1 in (d ∙ ap not b, ground (arith, e, d, k))

  -- Two calls of `setIfAbsent` that overlap, each asking `has` before the other writes, both answer
  -- true for a key that holds nothing, and the value of the one that writes last is kept.
  pub set_if_absent_overlap :
      (t t' later : ℕ) (key : String) (v w : V) (ttl : ℕ) (c : Cache V)
      → view t c key ≡ none
      → let (c₁, present) = has t key c in
        let (c₂, present') = has t key c₁ in
        let (c₃, done) = set_if_absent_write t' key v ttl present c₂ in
        let (c₄, done') = set_if_absent_write t' key w ttl present' c₃ in
        (done ≡ true) × (done' ≡ true) × (view later c₄ key ≡ shown (expiry (some ttl) t') w later)
  unfolding has
  set_if_absent_overlap t t' later key v w ttl c h =
      let (c₁, present) = has t key c in
      let (c₂, present') = has t key c₁ in
      let b : present ≡ false = has-view t key c ∙ ap is_some h in
      let k : view t c₁ key ≡ view t c key = (get-view t t key key c (omega arith)).1 in
      let b' : present' ≡ false = has-view t key c₁ ∙ ap is_some (k ∙ h) in
      let (d, e) = set_if_absent_write-view t' later key v ttl present c₂ in
      let c₃ = (set_if_absent_write t' key v ttl present c₂).0 in
      let (d', e') = set_if_absent_write-view t' later key w ttl present' c₃ in
      (d ∙ ap not b, d' ∙ ap not b', ground (arith, e', b'))

-- `increment` answers the sum of what the view holds (nothing counts as 0) and the amount, and with
-- no time to live it shows that sum for ever, also where the counter had one.
pub increment-view :
    (t t' later : ℕ) (key : String) (delta : ℕ) (c : Cache ℕ)
    → let (c', n) = increment t t' key delta none c in
      (n ≡ or_else (view t c key) 0 + delta) × (view later c' key ≡ some n)
unfolding increment increment_write
increment-view t t' later key delta c = (
  ap (λ o. or_else o 0 + delta) (get-view t t key key c (omega arith)).0,
  view-set_self t' later key _ (get t key c).0,
)

-- Two increments that overlap, each reading before the other writes, lose one of the amounts.
pub increment_overlap :
    (t t' later : ℕ) (key : String) (d d' : ℕ) (c : Cache ℕ)
    → let (c₁, v) = get t key c in
      let (c₂, w) = get t key c₁ in
      let (c₃, n) = increment_write t' key v d none c₂ in
      let (c₄, n') = increment_write t' key w d' none c₃ in
      (n ≡ or_else (view t c key) 0 + d)
      × (n' ≡ or_else (view t c key) 0 + d')
      × (view later c₄ key ≡ some n')
unfolding increment_write
increment_overlap t t' later key d d' c =
    let (a, b) = get-view t t key key c (omega arith) in
    let (a', b') = get-view t t key key (get t key c).0 (omega arith) in
    (
      ap (λ o. or_else o 0 + d) a,
      ap (λ o. or_else o 0 + d') (a' ∙ b),
      view-set_self t' later key _ _,
    )
