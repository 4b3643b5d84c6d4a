-- ===== src/Kernel/Storage/Paging/Memory.antt =====
-- The memory storage of src/kernel-impl/memory/storage.ts as a backend that lists pages.
use openclaw_enterprise_plug.Common.{
  ℕ, ◌+◌, String, ◌≡◌, refl, ap, Bool, false, Option, none, some, List, length, slice, ltb, arith,
  eq_iff,
}
use openclaw_enterprise_plug.Kernel.Storage.{
  StorageQuery, PaginatedResult, Store, collection, selected, list,
}
use openclaw_enterprise_plug.Kernel.Storage.Laws.{
  memory_backend, collection-put, collection_same, read,
}
use openclaw_enterprise_plug.Kernel.Storage.Paging.{PagedBackend}

-- A query without `orderBy`.
abbrev query_of : Option String → ℕ → ℕ → StorageQuery
query_of prefix offset limit = record {
  prefix = prefix;
  by_key = false;
  order = none;
  offset = some offset;
  limit = some limit;
}

module _ {V : Type 0} (key_le : String → String → Bool) where
  unfoldable pub memory_list :
      String → String → Option String → ℕ → ℕ → Store V → Store V × PaginatedResult V
  unfolding list
  memory_list t c prefix offset limit s = list key_le t c (query_of prefix offset limit) s

  unfoldable pub memory_entries : String → String → Option String → Store V → List V
  unfolding selected
  memory_entries t c prefix s = selected key_le (query_of prefix 0 0) (collection t c s)

  pub memory_list-items :
      (t c : String) (prefix : Option String) (offset limit : ℕ) (s : Store V)
      → (memory_list t c prefix offset limit s).1.items
        ≡ slice (memory_entries t c prefix s) offset limit
  unfolding memory_list memory_entries list selected
  memory_list-items t c prefix offset limit s = refl

  pub memory_list-more :
      (t c : String) (prefix : Option String) (offset limit : ℕ) (s : Store V)
      → (memory_list t c prefix offset limit s).1.has_more
        ≡ ltb (offset + limit) (length (memory_entries t c prefix s))
  unfolding memory_list memory_entries list selected
  memory_list-more t c prefix offset limit s = refl

  pub memory_list-entries :
      (t c : String) (prefix : Option String) (offset limit : ℕ) (s : Store V)
      → memory_entries t c prefix (memory_list t c prefix offset limit s).0
        ≡ memory_entries t c prefix s
  unfolding memory_list memory_entries list
  memory_list-entries t c prefix offset limit s =
      let l = collection t c s in
      ap (selected key_le (query_of prefix 0 0))
        (ground (arith, collection-put t c t c l s, eq_iff t t, eq_iff c c))

  pub memory_list-read :
      (t c : String) (prefix : Option String) (offset limit : ℕ) (s : Store V) (t' c' k' : String)
      → read (memory_list t c prefix offset limit s).0 t' c' k' ≡ read s t' c' k'
  unfolding memory_list list
  memory_list-read t c prefix offset limit s t' c' k' =
      ground (arith, collection-put t c t' c' (collection t c s) s, collection_same t c t' c' s)

  -- The memory storage as an instance.
  abbrev pub paged_memory : PagedBackend V
  paged_memory = record {
    backend = memory_backend {V = V};
    entries = memory_entries;
    list = memory_list;
    list-items = memory_list-items;
    list-more = memory_list-more;
    list-entries = memory_list-entries;
    list-read = memory_list-read;
  }
