-- ===== src/Kernel/Storage/Tests.antt =====
-- Runs of the memory storage at concrete inputs.
use openclaw_enterprise_plug.Common.{
  ℕ, ◌+◌, ◌≡◌, refl, true, false, Option, none, some, [], ◌∷◌, is_some, if◌then◌else◌,
}
use openclaw_enterprise_plug.Common.Dict
use openclaw_enterprise_plug.Kernel.Storage.{
  Store, collection, get, set, delete, list, batch_set, Updated, updated, threw, atomic_update,
  atomic_update_write, put_collection, selected, page, matches, no_later,
}
use openclaw_enterprise_plug.Kernel.Storage.Interface.{same_place, written, outcome}
use openclaw_enterprise_plug.Kernel.Storage.Laws.{
  read, read-set, read-delete, atomic_update-read, atomic_update_overlap, set_dates,
}

abbrev stored : Store ℕ
unfolding batch_set set put_collection Dict.set Dict.get
stored = set 20 "t" "c" "y" 1 (batch_set 10 "t" "c" (("x", 5) ∷ ("y", 6) ∷ []) [])

abbrev add_one : Option ℕ → Updated ℕ
add_one none = threw "missing"
add_one (some n) = updated (n + 1)

-- Newest first by default.
lists :
    (list
      (λ x y. true)
      "t"
      "c"
      (record { prefix = none; by_key = false; order = none; offset = none; limit = some 1 })
      stored).1
    ≡ record { items = 1 ∷ []; total = 2; has_more = true }
unfolding list selected page matches no_later put_collection Dict.get Dict.set stored
lists = refl

read-set_run :
    read (set 30 "t" "c" "x" 9 stored) "t" "c" "y"
    ≡ (if same_place "t" "c" "x" "t" "c" "y" then some 9 else read stored "t" "c" "y")
read-set_run = read-set 30 "t" "c" "x" 9 stored "t" "c" "y"

read-delete_run :
    ((delete "t" "c" "x" stored).1 ≡ is_some (read stored "t" "c" "x"))
    × (read (delete "t" "c" "x" stored).0 "t" "c" "x"
        ≡ (if same_place "t" "c" "x" "t" "c" "x" then none else read stored "t" "c" "x"))
read-delete_run = read-delete "t" "c" "x" stored "t" "c" "x"

atomic_update-read_example :
    ((atomic_update 30 "t" "c" "x" add_one stored).1 ≡ add_one (read stored "t" "c" "x"))
    × (read (atomic_update 30 "t" "c" "x" add_one stored).0 "t" "c" "x" ≡ (
        if same_place "t" "c" "x" "t" "c" "x"
        then written (outcome (add_one (read stored "t" "c" "x"))) (read stored "t" "c" "x")
        else read stored "t" "c" "x"))
atomic_update-read_example = atomic_update-read 30 "t" "c" "x" add_one stored "t" "c" "x"

atomic_update_overlap_run :
    let (s₁, current) = get "t" "c" "x" stored in
    let (s₂, current') = get "t" "c" "x" s₁ in
    let (s₃, first) = atomic_update_write 30 "t" "c" "x" add_one current s₂ in
    let (s₄, second) = atomic_update_write 31 "t" "c" "x" add_one current' s₃ in
    (first ≡ updated 6) × (second ≡ updated 6) × (read s₄ "t" "c" "x" ≡ some 6)
unfolding Dict.get Dict.set stored
atomic_update_overlap_run =
    atomic_update_overlap 30 31 "t" "c" "x" add_one add_one 6 6 stored refl refl

set_dates_run :
    Dict.get (collection "t" "c" (set 30 "t" "c" "y" 2 stored)) "y"
    ≡ some (record { value = 2; created_at = 10; updated_at = 30 })
unfolding Dict.get Dict.set stored
set_dates_run =
    set_dates 30 "t" "c" "y" 2 stored (record { value = 1; created_at = 10; updated_at = 20 }) refl
