-- ===== src/Embedding/ApiKeys/Listing.antt =====
-- `list` of src/embedding/api-key/impl/storage-api-key.ts, over any storage that lists by pages. The
-- loop over the pages runs on fuel. A query that is left out is one whose fields are.
use openclaw_enterprise_plug.Common.{
  ℕ, ◌+◌, ◌<◌, String, ◌≡◌, ap, ◌∙◌, Bool, true, false, not, Option, some, List, [], ◌∷◌, All,
  All-map, filter, sort, slice, drop, length, map, leb, ltb, if◌then◌else◌, is_some, or_else, arith,
  Bool-cases, inl, inr,
}
use openclaw_enterprise_plug.Common.Sorting.{
  IsSorted, IsOrder, sort-IsSorted, take-IsSorted, drop-IsSorted, All-sort, All-take, All-drop,
  length-sort,
}
use openclaw_enterprise_plug.Kernel.Storage.{PaginatedResult}
use openclaw_enterprise_plug.Kernel.Storage.Paging.{PagedBackend, collect, collect-all}
use openclaw_enterprise_plug.Embedding.ApiKeys.{StoredApiKey, Stored, row, index, api_keys}

pub record ApiKeyInfo : Type 0 where
  pub id : String
  pub tenant_id : String
  pub prefix : String
  pub name : String
  pub scopes : List String
  pub last_used_at : Option ℕ
  pub expires_at : Option ℕ
  pub created_at : ℕ
  pub revoked_at : Option ℕ

pub record ApiKeyQuery : Type 0 where
  pub include_revoked : Option Bool
  pub offset : Option ℕ
  pub limit : Option ℕ

abbrev pub to_info : StoredApiKey → ApiKeyInfo
to_info r = record {
  id = r.id;
  tenant_id = r.tenant_id;
  prefix = r.prefix;
  name = r.name;
  scopes = r.scopes;
  last_used_at = r.last_used_at;
  expires_at = r.expires_at;
  created_at = r.created_at;
  revoked_at = r.revoked_at;
}

-- The rows of what the pages hold; only rows stand under keys with the prefix of rows.
abbrev pub rows_of : List Stored → List StoredApiKey
rows_of [] = []
rows_of (row r ∷ l) = r ∷ rows_of l
rows_of (index id ∷ l) = rows_of l

-- The rows that a listing shows.
abbrev pub shown : Bool → List StoredApiKey → List StoredApiKey
shown include_revoked rows =
    if include_revoked then rows else filter (λ r. not (is_some r.revoked_at)) rows

-- The comparison of `sort` is at most 0: newest first.
abbrev pub no_older : StoredApiKey → StoredApiKey → Bool
no_older x y = leb y.created_at x.created_at

-- The page of a listing that the query asks for.
abbrev pub paginated : ApiKeyQuery → List StoredApiKey → PaginatedResult ApiKeyInfo
paginated q rows =
    let offset = or_else q.offset 0 in
    let limit = or_else q.limit 20 in
    let filtered = sort no_older (shown (or_else q.include_revoked false) rows) in
    record {
      items = map to_info (slice filtered offset limit);
      total = length filtered;
      has_more = ltb (offset + limit) (length filtered);
    }

module _ (b : PagedBackend Stored) where
  unfoldable pub list :
      ℕ → String → ApiKeyQuery → b.backend.State → b.backend.State × PaginatedResult ApiKeyInfo
  list fuel tenant q s =
      let (s', rows) = collect b tenant api_keys (some "k:") 200 fuel 0 s in
      (s', paginated q (rows_of rows))

no_older-IsOrder : IsOrder no_older
no_older-IsOrder = ((λ x y h. ground (arith, h)), (λ x y z h k. ground (arith, h, k)))

filter-passes :
    (p : StoredApiKey → Bool) (rows : List StoredApiKey) → All (λ r. p r ≡ true) (filter p rows)
filter-passes p [] = tt
filter-passes p (r ∷ rows) = elim (Bool-cases (p r)) [
  | inl e ↦ rw e (e, filter-passes p rows)
  | inr e ↦ rw e (filter-passes p rows)
]

shown-none : (rows : List StoredApiKey) → All (λ r. is_some r.revoked_at ≡ false) (shown false rows)
shown-none rows =
    All-map (λ r. not (is_some r.revoked_at) ≡ true) (λ r. is_some r.revoked_at ≡ false)
      (shown false rows) (λ r e. ground (arith, e))
      (filter-passes (λ r. not (is_some r.revoked_at)) rows)

module _ (b : PagedBackend Stored) where
  -- A listing that may read as many pages as there are entries under the prefix of rows, and one
  -- more, counts all rows that it may show, and shows a page of a list of them that is sorted, the
  -- newest first; if the query does not ask for them, no key of the page is revoked.
  pub list-page :
      (fuel : ℕ) (tenant : String) (q : ApiKeyQuery) (s : b.backend.State)
      → length (b.entries tenant api_keys (some "k:") s) < fuel
      → let rows =
          shown
            (or_else q.include_revoked false)
            (rows_of (b.entries tenant api_keys (some "k:") s)) in
        let page = slice (sort no_older rows) (or_else q.offset 0) (or_else q.limit 20) in
        let answer = (list b fuel tenant q s).1 in
        (answer.items ≡ map to_info page)
        × (answer.total ≡ length rows)
        × IsSorted no_older page
        × (or_else q.include_revoked false ≡ false → All (λ r. is_some r.revoked_at ≡ false) page)
  unfolding list
  list-page fuel tenant q s h =
      let found = b.entries tenant api_keys (some "k:") s in
      let include_revoked = or_else q.include_revoked false in
      let rows = shown include_revoked (rows_of found) in
      let offset = or_else q.offset 0 in
      let limit = or_else q.limit 20 in
      let all =
        ap (λ l. paginated q (rows_of l))
          (collect-all b tenant api_keys (some "k:") 200 fuel 0 s (omega arith)
            (omega (arith, h))) in
      (
        ap (λ p. p.items) all,
        ap (λ p. p.total) all ∙ length-sort no_older rows,
        take-IsSorted no_older limit (drop offset (sort no_older rows)) (
            drop-IsSorted no_older offset (sort no_older rows)
              (sort-IsSorted no_older no_older-IsOrder rows)),
        λ e.
            All-take (λ r. is_some r.revoked_at ≡ false) limit (drop offset (sort no_older rows))
              (All-drop (λ r. is_some r.revoked_at ≡ false) offset (sort no_older rows)
                (All-sort (λ r. is_some r.revoked_at ≡ false) no_older rows
                  (rw e (shown-none (rows_of found))))),
      )
