-- ===== src/Collaboration/Knowledge/Deletion.antt =====
-- What the knowledge store deletes by an entry's identity.
use openclaw_enterprise_plug.Common.{
  ℕ, zero, suc, ◌+◌, ◌<◌, String, ◌≡◌, refl, sym, ap, ◌∙◌, Bool, true, false, Option, none, some,
  List, [], ◌∷◌, ◌++◌, find, length, slice, drop, str_eq, if◌then◌else◌, is_some, arith, subst,
}
use openclaw_enterprise_plug.Kernel.Storage.Interface.{same_place}
use openclaw_enterprise_plug.Kernel.Storage.Paging.{PagedBackend, page-next, drop-past}
use openclaw_enterprise_plug.Collaboration.Knowledge.{
  KnowledgeEntry, knowledge_entries, composite_key, delete_found, delete_from, delete,
}

abbrev or_later : Option KnowledgeEntry → Option KnowledgeEntry → Option KnowledgeEntry
or_later none later = later
or_later (some e) later = some e

find-append :
    (p : KnowledgeEntry → Bool) (xs ys : List KnowledgeEntry)
    → find p (xs ++ ys) ≡ or_later (find p xs) (find p ys)
find-append p [] ys = refl
find-append p (x ∷ xs) ys = ground (arith, find-append p xs ys)

module _ (b : PagedBackend KnowledgeEntry) (tenant id : String) where
  -- The answer and the storage after the deletion of the entry found, if there is one.
  abbrev pub hit : b.backend.State → Option KnowledgeEntry → Bool
  hit s none = false
  hit s (some e) =
      is_some (b.backend.read s tenant knowledge_entries (composite_key e.namespace e.key))

  abbrev pub left :
      b.backend.State → Option KnowledgeEntry → String → String → String → Option KnowledgeEntry
  left s none t c k = b.backend.read s t c k
  left s (some e) t c k =
      if same_place tenant knowledge_entries (composite_key e.namespace e.key) t c k
      then none
      else b.backend.read s t c k

  abbrev pub Deletes : b.backend.State → Option KnowledgeEntry → b.backend.State × Bool → Type 0
  Deletes s o r = (r.1 ≡ hit s o) × ((t c k : String) → b.backend.read r.0 t c k ≡ left s o t c k)

  abbrev Same : b.backend.State → b.backend.State → Type 0
  Same s' s = (t c k : String) → b.backend.read s' t c k ≡ b.backend.read s t c k

  Deletes-Same :
      (s s' : b.backend.State) (o : Option KnowledgeEntry) (r : b.backend.State × Bool)
      → Same s' s
      → Deletes s' o r
      → Deletes s o r
  Deletes-Same s s' none r same h = (h.0, λ t c k. h.1 t c k ∙ same t c k)
  Deletes-Same s s' (some e) r same h = (
    h.0 ∙ ap is_some (same tenant knowledge_entries (composite_key e.namespace e.key)),
    λ t c k. (let r' = h.1 t c k in let same' = same t c k in ground (arith, r', same')),
  )

  page_Deletes :
      (s : b.backend.State) (now later : Option KnowledgeEntry) (more : Bool)
      (rest : b.backend.State × Bool)
      → (more ≡ true → Deletes s later rest)
      → (more ≡ false → later ≡ none)
      → Deletes s
          (or_later now later)
          (delete_found b tenant now s (if more then rest else (s, false)))
  page_Deletes s (some e) later more rest f g =
      let k = composite_key e.namespace e.key in
      (
        (b.backend.read-delete tenant knowledge_entries k s tenant knowledge_entries k).0,
        λ t c k'. (b.backend.read-delete tenant knowledge_entries k s t c k').1,
      )
  page_Deletes s none later true rest f g = f refl
  page_Deletes s none later false rest f g =
      subst (λ o. Deletes s o (s, false)) (sym (g refl)) (refl, λ t c k. refl)

  abbrev has_id : KnowledgeEntry → Bool
  has_id e = str_eq e.id id

  abbrev found : b.backend.State → List KnowledgeEntry
  found s = b.entries tenant knowledge_entries none s

  delete_from-Deletes :
      (fuel offset : ℕ) (s : b.backend.State)
      → length (found s) < offset + fuel
      → Deletes s (find has_id (drop offset (found s))) (delete_from b fuel tenant id offset s)
  delete_from-Deletes zero offset s h =
      subst (λ l. Deletes s (find has_id l) (s, false))
        (drop-past b tenant knowledge_entries none 500 offset (found s) (omega (arith, h)))
        (refl, λ t c k. refl)
  delete_from-Deletes (suc fuel) offset s h =
      let (s', page) = b.list tenant knowledge_entries none offset 500 s in
      let xs = found s in
      let items = b.list-items tenant knowledge_entries none offset 500 s in
      let same = b.list-entries tenant knowledge_entries none offset 500 s in
      let more = b.list-more tenant knowledge_entries none offset 500 s in
      let length_same = ap length same in
      let ih = delete_from-Deletes fuel (offset + 500) s' (omega (arith, h, length_same)) in
      let later = find has_id (drop (offset + 500) (found s')) in
      let next = page-next b tenant knowledge_entries none 500 offset xs in
      let whole : find has_id (drop offset xs) ≡ or_later (find has_id page.items) later =
        ap (find has_id) (sym next)
        ∙ find-append has_id (slice xs offset 500) (drop (offset + 500) xs)
        ∙ ap (λ l. or_later (find has_id l) (find has_id (drop (offset + 500) xs))) (sym items)
        ∙ ap (λ l. or_later (find has_id page.items) (find has_id (drop (offset + 500) l)))
            (sym same) in
      let ends : page.has_more ≡ false → later ≡ none = λ e. ap (find has_id) (
        ap (drop (offset + 500)) same
        ∙ sym (
            drop-past b tenant knowledge_entries none 500 (offset + 500) xs
              (ground (arith, e, more)))) in
      subst (λ o. Deletes s o (delete_from b (suc fuel) tenant id offset s)) (sym whole)
        (Deletes-Same s s' _ _ (b.list-read tenant knowledge_entries none offset 500 s) (
          page_Deletes s' (find has_id page.items) later page.has_more
            (delete_from b fuel tenant id (offset + 500) s') (λ _. ih) ends))

  -- A deletion that may read as many pages as there are entries, and one more, finds the first entry
  -- of the tenant with the identity, in the order of listing; it removes what is stored under that
  -- entry's namespace and key, and nothing else, and says whether there was something; without such
  -- an entry it says no and changes nothing that is read.
  pub delete-Deletes :
      (fuel : ℕ) (s : b.backend.State)
      → length (b.entries tenant knowledge_entries none s) < fuel
      → Deletes s
          (find (λ e. str_eq e.id id) (b.entries tenant knowledge_entries none s))
          (delete b fuel tenant id s)
  unfolding delete
  delete-Deletes fuel s h = delete_from-Deletes fuel 0 s (omega (arith, h))
