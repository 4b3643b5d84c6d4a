-- ===== src/Kernel/Storage/Paging.antt =====
-- `list` of the interface StorageBackend in src/kernel/storage.ts, and the loop over its pages that
-- the managers built on it write out.
pub mod Memory
use openclaw_enterprise_plug.Common.{
  ℕ, zero, suc, ◌+◌, ◌-◌, ◌*◌, ◌≤◌, ◌<◌, String, ◌≡◌, refl, sym, ap, ◌∙◌, Bool, true, false, Option,
  none, some, List, [], ◌∷◌, ◌++◌, length, take, drop, slice, length-drop, find, ltb, if◌then◌else◌,
  if_intro, Bool-cases, inl, inr, arith, ltb→lt, or_else, eq_iff, ◌&&◌,
}
use mathlib.Core.List.{append-nil}
use openclaw_enterprise_plug.Kernel.Storage.{
  StorageQuery, PaginatedResult, Store, collection, selected, list,
}
use openclaw_enterprise_plug.Kernel.Storage.Interface.{StorageBackend}
use openclaw_enterprise_plug.Kernel.Storage.Laws.{
  memory_backend, collection-put, collection_same, read,
}

-- A backend that lists: all that a query finds, in an order that its window does not change, of
-- which `list` answers the window.
pub record PagedBackend (V : Type 0) : Type 1 where
  pub backend : StorageBackend V
  pub entries : String → String → Option String → backend.State → List V
  pub list :
      String → String → Option String → ℕ → ℕ → backend.State → backend.State × PaginatedResult V
  pub list-items :
      (t c : String) (prefix : Option String) (offset limit : ℕ) (s : backend.State)
      → (list t c prefix offset limit s).1.items ≡ slice (entries t c prefix s) offset limit
  pub list-more :
      (t c : String) (prefix : Option String) (offset limit : ℕ) (s : backend.State)
      → (list t c prefix offset limit s).1.has_more
        ≡ ltb (offset + limit) (length (entries t c prefix s))
  pub list-entries :
      (t c : String) (prefix : Option String) (offset limit : ℕ) (s : backend.State)
      → entries t c prefix (list t c prefix offset limit s).0 ≡ entries t c prefix s
  pub list-read :
      (t c : String) (prefix : Option String) (offset limit : ℕ) (s : backend.State)
      (t' c' k' : String)
      → backend.read (list t c prefix offset limit s).0 t' c' k' ≡ backend.read s t' c' k'

-- The item found, or else what the rest of the loop answers.
abbrev pub scanned {ℓ} : {S : Type ℓ} {V : Type 0} → Option V → S → S × Option V → S × Option V
scanned none s rest = rest
scanned (some v) s rest = (s, some v)

find-append :
    {V : Type 0} (p : V → Bool) (xs ys : List V)
    → find p (xs ++ ys) ≡ elim (find p xs) [ none ↦ find p ys | some v ↦ some v ]
find-append p [] ys = refl
find-append p (x ∷ xs) ys = ground (arith, find-append p xs ys)

scanned-or :
    {S : Type 0} {V : Type 0} (o later : Option V) (more : Bool) (s : S) (rest : S × Option V)
    → (more ≡ true → rest.1 ≡ later)
    → (more ≡ false → later ≡ none)
    → (scanned o s (if more then rest else (s, none))).1 ≡ elim o [ none ↦ later | some v ↦ some v ]
scanned-or (some v) later more s rest f g = refl
scanned-or none later true s rest f g = f refl
scanned-or none later false s rest f g = sym (g refl)

module _ {V : Type 0} (b : PagedBackend V) (t c : String) (prefix : Option String) (batch : ℕ) where
  -- The loop that collects the items of all pages, on fuel.
  abbrev pub collect : ℕ → ℕ → b.backend.State → b.backend.State × List V
  collect zero offset s = (s, [])
  collect (suc fuel) offset s =
      let (s', page) = b.list t c prefix offset batch s in
      let (s'', rest) = collect fuel (offset + batch) s' in
      if page.has_more then (s'', page.items ++ rest) else (s', page.items)

  -- The loop that looks for an item page by page, on fuel.
  abbrev pub scan : (V → Bool) → ℕ → ℕ → b.backend.State → b.backend.State × Option V
  scan p zero offset s = (s, none)
  scan p (suc fuel) offset s =
      let (s', page) = b.list t c prefix offset batch s in
      let later = scan p fuel (offset + batch) s' in
      scanned (find p page.items) s' (if page.has_more then later else (s', none))

  take-drop : (n : ℕ) (xs : List V) → take n xs ++ drop n xs ≡ xs
  take-drop zero xs = refl
  take-drop (suc n) [] = refl
  take-drop (suc n) (x ∷ xs) = ap (λ l. x ∷ l) (take-drop n xs)

  drop-nil : (n : ℕ) → drop {A = V} n [] ≡ []
  drop-nil zero = refl
  drop-nil (suc n) = refl

  drop-drop : (m n : ℕ) (xs : List V) → drop (m + n) xs ≡ drop n (drop m xs)
  drop-drop zero n xs = let e : 0 + n ≡ n = omega arith in ap (λ k. drop k xs) e
  drop-drop (suc m) n [] = drop-nil (suc m + n) ∙ sym (drop-nil n)
  drop-drop (suc m) n (x ∷ xs) =
      let e : suc m + n ≡ suc (m + n) = omega arith in
      ap (λ k. drop k (x ∷ xs)) e ∙ drop-drop m n xs

  take-all : (n : ℕ) (xs : List V) → length xs ≤ n → take n xs ≡ xs
  take-all zero [] h = refl
  take-all zero (x ∷ xs) h = absurd (omega (arith, h))
  take-all (suc n) [] h = refl
  take-all (suc n) (x ∷ xs) h = ap (λ l. x ∷ l) (take-all n xs (omega (arith, h)))

  pub drop-past : (n : ℕ) (xs : List V) → length xs ≤ n → [] ≡ drop n xs
  drop-past n [] h = sym (drop-nil n)
  drop-past zero (x ∷ xs) h = absurd (omega (arith, h))
  drop-past (suc n) (x ∷ xs) h = drop-past n xs (omega (arith, h))

  -- The entries stay as they are while the loop reads them.
  abbrev found : b.backend.State → List V
  found s = b.entries t c prefix s

  pub page-last :
      (offset : ℕ) (xs : List V)
      → ltb (offset + batch) (length xs) ≡ false
      → slice xs offset batch ≡ drop offset xs
  page-last offset xs h =
      let l = length-drop offset xs in take-all batch (drop offset xs) (ground (arith, h, l))

  pub page-next :
      (offset : ℕ) (xs : List V)
      → slice xs offset batch ++ drop (offset + batch) xs ≡ drop offset xs
  page-next offset xs =
      ap (λ l. slice xs offset batch ++ l) (drop-drop offset batch xs)
      ∙ take-drop batch (drop offset xs)

  -- With a page size that is not zero, as many turns as there are entries, and one more, are enough:
  -- the loop collects every entry from its offset on, once and in order.
  pub collect-all :
      (fuel offset : ℕ) (s : b.backend.State)
      → 0 < batch
      → length (b.entries t c prefix s) < offset + fuel
      → (collect fuel offset s).1 ≡ drop offset (b.entries t c prefix s)
  collect-all zero offset s z h = drop-past offset (found s) (omega (arith, h))
  collect-all (suc fuel) offset s z h =
      let (s', page) = b.list t c prefix offset batch s in
      let items = b.list-items t c prefix offset batch s in
      let same = b.list-entries t c prefix offset batch s in
      let length_same = ap length same in
      let rest = collect-all fuel (offset + batch) s' z (omega (arith, z, h, length_same)) in
      if_intro (λ (r : b.backend.State × List V). r.1 ≡ drop offset (found s)) page.has_more
        (λ e.
          ap (λ l. l ++ (collect fuel (offset + batch) s').1) items
          ∙ ap (λ l. slice (found s) offset batch ++ l) (rest ∙ ap (drop (offset + batch)) same)
          ∙ page-next offset (found s))
        (λ e. items ∙ page-last offset (found s) (sym (b.list-more t c prefix offset batch s) ∙ e))

  -- The loop leaves what is read in the storage, and what it would list, as they were.
  pub collect-entries :
      (fuel offset : ℕ) (s : b.backend.State)
      → b.entries t c prefix (collect fuel offset s).0 ≡ b.entries t c prefix s
  collect-entries zero offset s = refl
  collect-entries (suc fuel) offset s =
      let (s', page) = b.list t c prefix offset batch s in
      let same = b.list-entries t c prefix offset batch s in
      if_intro (λ (r : b.backend.State × List V). b.entries t c prefix r.0 ≡ found s) page.has_more
        (λ e. collect-entries fuel (offset + batch) s' ∙ same) (λ e. same)

module _ {V : Type 0} (b : PagedBackend V) (t c : String) (prefix : Option String) (batch : ℕ) where
  -- With as many turns as there are entries, and one more, the loop finds the first entry from its
  -- offset on that passes the test.
  pub scan-find :
      (p : V → Bool) (fuel offset : ℕ) (s : b.backend.State)
      → 0 < batch
      → length (b.entries t c prefix s) < offset + fuel
      → (scan b t c prefix batch p fuel offset s).1 ≡ find p (drop offset (b.entries t c prefix s))
  scan-find p zero offset s z h =
      ap (find p) (drop-past b t c prefix batch offset (b.entries t c prefix s) (omega (arith, h)))
  scan-find p (suc fuel) offset s z h =
      let (s', page) = b.list t c prefix offset batch s in
      let xs = b.entries t c prefix s in
      let items = b.list-items t c prefix offset batch s in
      let same = b.list-entries t c prefix offset batch s in
      let more = b.list-more t c prefix offset batch s in
      let length_same = ap length same in
      let rest = drop (offset + batch) xs in
      let ih =
        scan-find p fuel (offset + batch) s' z (omega (arith, z, h, length_same))
        ∙ ap (λ l. find p (drop (offset + batch) l)) same in
      let ends : page.has_more ≡ false → find p rest ≡ none = λ e.
        ap (find p)
          (sym (drop-past b t c prefix batch (offset + batch) xs (ground (arith, e, more)))) in
      scanned-or (find p page.items) (find p rest) page.has_more s'
        (scan b t c prefix batch p fuel (offset + batch) s') (λ _. ih) ends
      ∙ sym (find-append p page.items rest)
      ∙ ap (λ l. find p (l ++ rest)) items
      ∙ ap (find p) (page-next b t c prefix batch offset xs)
