-- ===== src/Collaboration/Knowledge/Laws.antt =====
-- What the knowledge store reads back, finds and deletes.
use openclaw_enterprise_plug.Common.{
  ℕ, ◌<◌, String, ◌≡◌, ap, ◌∙◌, Bool, true, Option, none, some, filter, length, str_eq, eq_iff,
  if◌then◌else◌, or_else, arith, All, All-filter, filter-All, All-zip,
}
use openclaw_enterprise_plug.Common.Sorting.{All-take, All-drop}
use openclaw_enterprise_plug.Kernel.Storage.Paging.{PagedBackend, collect, collect-all}
use openclaw_enterprise_plug.Collaboration.Knowledge.{
  KnowledgeEntry, KnowledgeEntryInput, KnowledgeQuery, knowledge_entries, composite_key, is_found,
  in_namespace, answer, saved, get, set, search,
}

module _ (b : PagedBackend KnowledgeEntry) where
  -- What `set` returns is what is read afterwards under the same composite key, and under every other
  -- composite key what was read before.
  pub get-set :
      (tenant : String) (user : Option String) (new_id : String) (now : ℕ)
      (entry : KnowledgeEntryInput) (s : b.backend.State) (namespace key : String)
      → let (s', e) = set b tenant user new_id now entry s in
        (get b tenant namespace key s').1 ≡ (
          if str_eq
            (composite_key (or_else entry.namespace "default") entry.key)
            (composite_key namespace key)
          then some e
          else (get b tenant namespace key s).1)
  unfolding get set
  get-set tenant user new_id now entry s namespace key =
      let k = composite_key (or_else entry.namespace "default") entry.key in
      let k' = composite_key namespace key in
      let (s', existing) = b.backend.get tenant knowledge_entries k s in
      let e = saved tenant user new_id now entry existing in
      let stored = b.backend.set now tenant knowledge_entries k e s' in
      (b.backend.get-read tenant knowledge_entries k' stored tenant knowledge_entries k').0
      ∙ b.backend.read-set now tenant knowledge_entries k e s' tenant knowledge_entries k'
      ∙ ground (
        arith,
        (b.backend.get-read tenant knowledge_entries k s tenant knowledge_entries k').1,
        (b.backend.get-read tenant knowledge_entries k' s tenant knowledge_entries k').0,
        eq_iff tenant tenant,
        eq_iff knowledge_entries knowledge_entries,
      )

  module _ (is_blank : String → Bool) (lower_case : String → String) where
    -- The entry is in the query's namespace, and has its tags and its text.
    abbrev pub IsAnswer : KnowledgeQuery → KnowledgeEntry → Type 0
    IsAnswer q e = (in_namespace q.namespace e ≡ true) × (is_found is_blank lower_case q e ≡ true)

    -- A search that may read as many pages as there are entries, and one more, answers the query from
    -- all entries of the tenant, though it reads them in pages of 500; every item is in the query's
    -- namespace and has its tags and its text.
    pub search-all :
        (fuel : ℕ) (tenant : String) (q : KnowledgeQuery) (s : b.backend.State)
        → length (b.entries tenant knowledge_entries none s) < fuel
        → let r = (search b is_blank lower_case fuel tenant q s).1 in
          (r ≡ answer is_blank lower_case q (b.entries tenant knowledge_entries none s))
          × All (IsAnswer q) r.items
    unfolding search answer
    search-all fuel tenant q s h =
        let all = (collect b tenant knowledge_entries none 500 fuel 0 s).1 in
        let e =
          collect-all b tenant knowledge_entries none 500 fuel 0 s (omega arith)
            (omega (arith, h)) in
        let near = filter (in_namespace q.namespace) all in
        (
          ap (answer is_blank lower_case q) e,
          All-take (IsAnswer q) (or_else q.limit 20) _ (
              All-drop (IsAnswer q) (or_else q.offset 0)
                (filter (is_found is_blank lower_case q) near)
                (All-zip _ _ (filter (is_found is_blank lower_case q) near)
                  (All-filter (λ e. in_namespace q.namespace e ≡ true)
                    (is_found is_blank lower_case q) near
                    (filter-All (in_namespace q.namespace) all))
                  (filter-All (is_found is_blank lower_case q) near))),
        )
