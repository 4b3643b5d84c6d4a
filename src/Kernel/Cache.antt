-- ===== src/Kernel/Cache.antt =====
-- src/kernel-impl/memory/cache.ts. Each reading of the clock is an argument, in milliseconds; the
-- values of one cache are of one type.
pub mod View
pub mod Interface
mod Tests
use openclaw_enterprise_plug.Common.{
  ℕ, ◌+◌, String, ◌≡◌, Bool, true, false, not, Option, none, some, List, [], ◌∷◌, ltb, ◌==◌,
  if◌then◌else◌, or_else, is_some,
}
use openclaw_enterprise_plug.Common.Dict
use openclaw_enterprise_plug.Common.Dict.{Dict}

pub record CacheEntry (V : Type 0) : Type 0 where
  pub value : V
  pub expires_at : Option ℕ

abbrev pub Cache : Type 0 → Type 0
Cache V = Dict (CacheEntry V)

-- `ttlMs ? now + ttlMs : undefined`: a time to live of 0 counts as none.
abbrev pub expiry : Option ℕ → ℕ → Option ℕ
expiry none now = none
expiry (some ttl) now = if ttl == 0 then none else some (now + ttl)

module _ {V : Type 0} where
  abbrev pub is_expired : ℕ → CacheEntry V → Bool
  is_expired now e = elim (e.expires_at) [ none ↦ false | some t ↦ ltb t now ]

  look : ℕ → String → Cache V → Option (CacheEntry V) → Cache V × Option V
  look now key c none = (c, none)
  look now key c (some e) =
      if is_expired now e then (Dict.delete c key, none) else (c, some e.value)

  unfoldable pub get : ℕ → String → Cache V → Cache V × Option V
  unfolding look
  get now key c = look now key c (Dict.get c key)

  unfoldable pub set : ℕ → String → V → Option ℕ → Cache V → Cache V
  set now key v ttl c = Dict.set c key (record { value = v; expires_at = expiry ttl now })

  unfoldable pub delete : String → Cache V → Cache V × Bool
  delete key c = (Dict.delete c key, is_some (Dict.get c key))

  unfoldable pub has : ℕ → String → Cache V → Cache V × Bool
  unfolding get
  has now key c = let (c', v) = get now key c in (c', is_some v)

  -- `setIfAbsent` after its `await` of `has`, which answered `present`.
  unfoldable pub set_if_absent_write : ℕ → String → V → ℕ → Bool → Cache V → Cache V × Bool
  unfolding set
  set_if_absent_write now key v ttl present c =
      if present then (c, false) else (set now key v (some ttl) c, true)

  -- `setIfAbsent` with nothing between its halves; the clock is read at `t` and at `t'`.
  unfoldable pub set_if_absent : ℕ → ℕ → String → V → ℕ → Cache V → Cache V × Bool
  unfolding has set_if_absent_write
  set_if_absent t t' key v ttl c =
      let (c', present) = has t key c in set_if_absent_write t' key v ttl present c'

  unfoldable pub evict_expired : ℕ → Cache V → Cache V
  evict_expired now c = Dict.retain (λ e. not (is_expired now e)) c

-- `increment` after its `await` of `get`, which answered `current`, on a cache of numbers.
unfoldable pub increment_write : ℕ → String → Option ℕ → ℕ → Option ℕ → Cache ℕ → Cache ℕ × ℕ
unfolding set
increment_write now key current delta ttl c =
    let new_val = or_else current 0 + delta in (set now key new_val ttl c, new_val)

-- `increment` with nothing between its halves.
unfoldable pub increment : ℕ → ℕ → String → ℕ → Option ℕ → Cache ℕ → Cache ℕ × ℕ
unfolding get increment_write
increment t t' key delta ttl c =
    let (c', current) = get t key c in increment_write t' key current delta ttl c'
