-- ===== src/Kernel/Storage.antt =====
-- src/kernel-impl/memory/storage.ts. The store is a map of tenants to maps of collections to maps of
-- keys; the stored values are of one type. Each reading of the clock is an argument. The order of
-- `localeCompare` is not in the source: it is an argument of `list`.
pub mod Laws
pub mod Interface
pub mod Paging
mod Tests
use text.Mathlib.Text.{starts_with}
use openclaw_enterprise_plug.Common.{
  ℕ, ◌+◌, String, ◌≡◌, Bool, true, false, Option, none, some, List, [], ◌∷◌, map, leb, ltb, filter,
  length, slice, sort, if◌then◌else◌, or_else, is_some, str_eq,
}
use openclaw_enterprise_plug.Common.Dict
use openclaw_enterprise_plug.Common.Dict.{Dict}

pub record StoredEntry (V : Type 0) : Type 0 where
  pub value : V
  pub created_at : ℕ
  pub updated_at : ℕ

abbrev pub Collection : Type 0 → Type 0
Collection V = Dict (StoredEntry V)

abbrev pub TenantStore : Type 0 → Type 0
TenantStore V = Dict (Collection V)

abbrev pub Store : Type 0 → Type 0
Store V = Dict (TenantStore V)

pub data Order : Type 0 where
  asc desc : Order

-- `by_key` is `orderBy === "key"`. The source does not read the field `filter` of a query.
pub record StorageQuery : Type 0 where
  pub prefix : Option String
  pub by_key : Bool
  pub order : Option Order
  pub offset : Option ℕ
  pub limit : Option ℕ

pub record PaginatedResult (V : Type 0) : Type 0 where
  pub items : List V
  pub total : ℕ
  pub has_more : Bool

-- What an updater returns, or the text of the error that it throws.
pub data Updated (V : Type 0) : Type 0 where
  updated : V → Updated V
  threw : String → Updated V

abbrev pub ordered : Order → Bool → Bool → Bool
ordered asc forward backward = forward
ordered desc forward backward = backward

module _ {V : Type 0} where
  -- The collection that `getCollection` finds, or the empty one that it makes.
  abbrev pub collection : String → String → Store V → Collection V
  collection tenant col s = or_else (Dict.get (or_else (Dict.get s tenant) []) col) []

  -- `getCollection`, and then the collection left behind in place of the one found.
  unfoldable pub put_collection : String → String → Collection V → Store V → Store V
  put_collection tenant col c s =
      Dict.set s tenant (Dict.set (or_else (Dict.get s tenant) []) col c)

  abbrev pub value_of : Option (StoredEntry V) → Option V
  value_of none = none
  value_of (some e) = some e.value

  -- A missing tenant or collection is made by every operation, also by those that only read.
  unfoldable pub get : String → String → String → Store V → Store V × Option V
  unfolding put_collection
  get tenant col key s =
      let c = collection tenant col s in (put_collection tenant col c s, value_of (Dict.get c key))

  abbrev pub created : ℕ → Option (StoredEntry V) → ℕ
  created now none = now
  created now (some e) = e.created_at

  unfoldable pub set : ℕ → String → String → String → V → Store V → Store V
  unfolding put_collection
  set now tenant col key v s =
      let c = collection tenant col s in
      let e : StoredEntry V = record {
        value = v;
        created_at = created now (Dict.get c key);
        updated_at = now;
      } in
      put_collection tenant col (Dict.set c key e) s

  unfoldable pub delete : String → String → String → Store V → Store V × Bool
  unfolding put_collection
  delete tenant col key s =
      let c = collection tenant col s in
      (put_collection tenant col (Dict.delete c key) s, is_some (Dict.get c key))

  matches : Option String → String × StoredEntry V → Bool
  matches none e = true
  matches (some p) (k, e) = if str_eq p "" then true else starts_with k p

  -- The comparison of `list` is at most 0.
  no_later :
      (String → String → Bool)
      → StorageQuery
      → String × StoredEntry V
      → String × StoredEntry V
      → Bool
  no_later key_le q (j, a) (k, b) =
      if q.by_key
      then ordered (or_else q.order desc) (key_le j k) (key_le k j)
      else ordered (or_else q.order desc) (leb a.updated_at b.updated_at)
          (leb b.updated_at a.updated_at)

  -- All entries that a query asks for, in its order.
  unfoldable pub selected : (String → String → Bool) → StorageQuery → Collection V → List V
  unfolding matches no_later
  selected key_le q c =
      map (λ e. e.1.value) (sort (no_later key_le q) (filter (matches q.prefix) c))

  page : List V → ℕ → ℕ → PaginatedResult V
  page xs offset limit = record {
    items = slice xs offset limit;
    total = length xs;
    has_more = ltb (offset + limit) (length xs);
  }

  unfoldable pub list :
      (String → String → Bool)
      → String
      → String
      → StorageQuery
      → Store V
      → Store V × PaginatedResult V
  unfolding selected page put_collection
  list key_le tenant col q s =
      let c = collection tenant col s in
      (
        put_collection tenant col c s,
        page (selected key_le q c) (or_else q.offset 0) (or_else q.limit 20),
      )

  -- `atomicUpdate` after its `await` of `get`, which answered `current`.
  unfoldable pub atomic_update_write :
      ℕ
      → String
      → String
      → String
      → (Option V → Updated V)
      → Option V
      → Store V
      → Store V × Updated V
  unfolding set
  atomic_update_write now tenant col key updater current s = elim (updater current) [
    | updated v ↦ (set now tenant col key v s, updated v)
    | threw e ↦ (s, threw e)
  ]

  -- `atomicUpdate` with nothing between its halves.
  unfoldable pub atomic_update :
      ℕ → String → String → String → (Option V → Updated V) → Store V → Store V × Updated V
  unfolding get atomic_update_write
  atomic_update now tenant col key updater s =
      let (s', current) = get tenant col key s in
      atomic_update_write now tenant col key updater current s'

  abbrev add_found : Option (StoredEntry V) → String → Dict V → Dict V
  add_found none k found = found
  add_found (some e) k found = Dict.set found k e.value

  gather : Collection V → List String → Dict V → Dict V
  gather c [] found = found
  gather c (k ∷ ks) found = gather c ks (add_found (Dict.get c k) k found)

  unfoldable pub batch_get : String → String → List String → Store V → Store V × Dict V
  unfolding gather put_collection
  batch_get tenant col keys s =
      let c = collection tenant col s in (put_collection tenant col c s, gather c keys [])

  unfoldable pub batch_set : ℕ → String → String → List (String × V) → Store V → Store V
  unfolding set
  batch_set now tenant col [] s = s
  batch_set now tenant col ((k, v) ∷ es) s = batch_set now tenant col es (set now tenant col k v s)
