-- ===== src/Collaboration/Knowledge.antt =====
-- src/collaboration/knowledge: the types of knowledge-store.ts and the store of
-- impl/storage-knowledge.ts over any backend that lists pages. Metadata are a text; `toLowerCase` and
-- the test that `trim` leaves nothing are parameters. The loops over pages run on fuel.
mod Laws
mod Deletion
mod Tests
use text.Mathlib.Text.{find?}
use openclaw_enterprise_plug.Common.{
  ℕ, zero, suc, ◌+◌, String, Bool, true, false, ◌&&◌, ◌||◌, Option, none, some, List, [], ◌∷◌,
  filter, find, any, length, slice, ltb, str_eq, if◌then◌else◌, or_else, is_some, colon,
}
use openclaw_enterprise_plug.Kernel.Storage.{PaginatedResult}
use openclaw_enterprise_plug.Kernel.Storage.Interface.{StorageBackend}
use openclaw_enterprise_plug.Kernel.Storage.Paging.{PagedBackend, collect}

pub record KnowledgeEntry : Type 0 where
  pub id : String
  pub tenant_id : String
  pub namespace : String
  pub key : String
  pub content : String
  pub content_type : String
  pub tags : List String
  pub metadata : String
  pub created_by : Option String
  pub created_at : ℕ
  pub updated_at : ℕ

pub record KnowledgeEntryInput : Type 0 where
  pub namespace : Option String
  pub key : String
  pub content : String
  pub content_type : Option String
  pub tags : Option (List String)
  pub metadata : Option String

pub record KnowledgeQuery : Type 0 where
  pub namespace : Option String
  pub tags : Option (List String)
  pub q : Option String
  pub offset : Option ℕ
  pub limit : Option ℕ

abbrev pub knowledge_entries : String
knowledge_entries = "knowledge_entries"

abbrev pub composite_key : String → String → String
composite_key namespace key = colon namespace key

abbrev pub has_all : List String → KnowledgeEntry → Bool
has_all [] e = true
has_all (t ∷ ts) e = any (str_eq t) e.tags && has_all ts e

abbrev pub matches_tags : Option (List String) → KnowledgeEntry → Bool
matches_tags none e = true
matches_tags (some ts) e = has_all ts e

-- The entry that `set` saves over the previous one, if there is one.
abbrev pub or_previous {ℓ} : {A : Type ℓ} → Option KnowledgeEntry → (KnowledgeEntry → A) → A → A
or_previous none f d = d
or_previous (some p) f d = f p

unfoldable pub saved :
    String
    → Option String
    → String
    → ℕ
    → KnowledgeEntryInput
    → Option KnowledgeEntry
    → KnowledgeEntry
saved tenant user new_id now entry prev = record {
  id = or_previous prev (λ p. p.id) new_id;
  tenant_id = tenant;
  namespace = or_else entry.namespace "default";
  key = entry.key;
  content = entry.content;
  content_type = or_else entry.content_type (or_previous prev (λ p. p.content_type) "text/plain");
  tags = or_else entry.tags (or_previous prev (λ p. p.tags) []);
  metadata = or_else entry.metadata (or_previous prev (λ p. p.metadata) "{}");
  created_by = or_previous prev (λ p. elim p.created_by [ none ↦ user | some u ↦ some u ]) user;
  created_at = or_previous prev (λ p. p.created_at) now;
  updated_at = now;
}

abbrev pub in_namespace : Option String → KnowledgeEntry → Bool
in_namespace none e = true
in_namespace (some n) e = str_eq e.namespace n

module _ (is_blank : String → Bool) (lower_case : String → String) where
  -- `text.includes(needle)`
  abbrev pub includes : String → String → Bool
  includes text needle = is_some (find? text needle)

  abbrev pub matches_text : Option String → KnowledgeEntry → Bool
  matches_text none e = true
  matches_text (some q) e =
      if is_blank q
      then true
      else includes (lower_case e.key) (lower_case q)
        || includes (lower_case e.content) (lower_case q)

  abbrev pub is_found : KnowledgeQuery → KnowledgeEntry → Bool
  is_found q e = matches_tags q.tags e && matches_text q.q e

  -- The filters of `search` and its window.
  unfoldable pub answer : KnowledgeQuery → List KnowledgeEntry → PaginatedResult KnowledgeEntry
  answer q all =
      let entries = filter (is_found q) (filter (in_namespace q.namespace) all) in
      let offset = or_else q.offset 0 in
      let limit = or_else q.limit 20 in
      record {
        items = slice entries offset limit;
        total = length entries;
        has_more = ltb (offset + limit) (length entries);
      }

module _ (b : PagedBackend KnowledgeEntry) where
  unfoldable pub get :
      String → String → String → b.backend.State → b.backend.State × Option KnowledgeEntry
  get tenant namespace key s =
      b.backend.get tenant knowledge_entries (composite_key namespace key) s

  unfoldable pub set :
      String
      → Option String
      → String
      → ℕ
      → KnowledgeEntryInput
      → b.backend.State
      → b.backend.State × KnowledgeEntry
  unfolding saved
  set tenant user new_id now entry s =
      let ck = composite_key (or_else entry.namespace "default") entry.key in
      let (s', existing) = b.backend.get tenant knowledge_entries ck s in
      let e = saved tenant user new_id now entry existing in
      (b.backend.set now tenant knowledge_entries ck e s', e)

  abbrev delete_found :
      String
      → Option KnowledgeEntry
      → b.backend.State
      → (b.backend.State × Bool)
      → b.backend.State × Bool
  delete_found tenant none s rest = rest
  delete_found tenant (some e) s rest =
      b.backend.delete tenant knowledge_entries (composite_key e.namespace e.key) s

  -- The loop of `delete` over pages of 500.
  abbrev pub delete_from : ℕ → String → String → ℕ → b.backend.State → b.backend.State × Bool
  delete_from zero tenant id offset s = (s, false)
  delete_from (suc fuel) tenant id offset s =
      let (s', page) = b.list tenant knowledge_entries none offset 500 s in
      let rest = delete_from fuel tenant id (offset + 500) s' in
      delete_found tenant (find (λ e. str_eq e.id id) page.items) s'
        (if page.has_more then rest else (s', false))

  unfoldable pub delete : ℕ → String → String → b.backend.State → b.backend.State × Bool
  delete fuel tenant id s = delete_from fuel tenant id 0 s

  unfoldable pub search :
      (String → Bool)
      → (String → String)
      → ℕ
      → String
      → KnowledgeQuery
      → b.backend.State
      → b.backend.State × PaginatedResult KnowledgeEntry
  unfolding answer
  search is_blank lower_case fuel tenant q s =
      let (s', all) = collect b tenant knowledge_entries none 500 fuel 0 s in
      (s', answer is_blank lower_case q all)
