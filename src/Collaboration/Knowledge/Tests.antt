-- ===== src/Collaboration/Knowledge/Tests.antt =====
-- The knowledge store over the memory storage.
use openclaw_enterprise_plug.Common.{
  String, ◌≡◌, Bool, true, none, some, [], ◌∷◌, find, All, str_eq, arith, or_else, if◌then◌else◌,
}
use openclaw_enterprise_plug.Common.Dict
use openclaw_enterprise_plug.Kernel.Storage.{Store, selected}
use openclaw_enterprise_plug.Kernel.Storage.Paging.{PagedBackend}
use openclaw_enterprise_plug.Kernel.Storage.Paging.Memory.{paged_memory, memory_entries}
use openclaw_enterprise_plug.Collaboration.Knowledge.{
  KnowledgeEntry, KnowledgeEntryInput, KnowledgeQuery, knowledge_entries, composite_key, answer,
  get, set, search, delete,
}
use openclaw_enterprise_plug.Collaboration.Knowledge.Laws.{IsAnswer, get-set, search-all}
use openclaw_enterprise_plug.Collaboration.Knowledge.Deletion.{Deletes, delete-Deletes}

abbrev any_order : String → String → Bool
any_order j k = true

abbrev memory : PagedBackend KnowledgeEntry
memory = paged_memory any_order

abbrev note : KnowledgeEntry
note = record {
  id = "k1";
  tenant_id = "acme";
  namespace = "team:a";
  key = "faq";
  content = "Ask the owner";
  content_type = "text/plain";
  tags = "help" ∷ [];
  metadata = "{}";
  created_by = none;
  created_at = 1;
  updated_at = 1;
}

abbrev store : Store KnowledgeEntry
store =
    (
      "acme",
      (
        "knowledge_entries",
        ("team:a:faq", record { value = note; created_at = 1; updated_at = 1 }) ∷ [],
      )
          ∷ [],
    )
    ∷ []

-- Another entry, in the namespace `team`, whose composite key is that of the one stored.
abbrev input : KnowledgeEntryInput
input = record {
  namespace = some "team";
  key = "a:faq";
  content = "Ask nobody";
  content_type = none;
  tags = none;
  metadata = none;
}

abbrev helpful : KnowledgeQuery
helpful = record {
  namespace = some "team:a";
  tags = some ("help" ∷ []);
  q = some "owner";
  offset = none;
  limit = none;
}

abbrev is_empty : String → Bool
is_empty s = str_eq s ""

get-set_run :
    let (s', e) = set memory "acme" (some "bob") "k2" 7 input store in
    (get memory "acme" "team:a" "faq" s').1 ≡ (
      if str_eq
        (composite_key (or_else input.namespace "default") input.key)
        (composite_key "team:a" "faq")
      then some e
      else (get memory "acme" "team:a" "faq" store).1)
get-set_run = get-set memory "acme" (some "bob") "k2" 7 input store "team:a" "faq"

search-all_example :
    let r = (search memory is_empty (λ s. s) 5 "acme" helpful store).1 in
    (r ≡ answer is_empty (λ s. s) helpful (memory.entries "acme" knowledge_entries none store))
    × All (IsAnswer memory is_empty (λ s. s) helpful) r.items
unfolding memory_entries selected Dict.get
search-all_example = search-all memory is_empty (λ s. s) 5 "acme" helpful store (omega arith)

delete-Deletes_example :
    Deletes memory "acme" "k1" store
      (find (λ e. str_eq e.id "k1") (memory.entries "acme" knowledge_entries none store))
      (delete memory 5 "acme" "k1" store)
unfolding memory_entries selected Dict.get
delete-Deletes_example = delete-Deletes memory "acme" "k1" 5 store (omega arith)
