-- ===== src/Kernel/Cache/Tests.antt =====
-- Runs of the cache at concrete inputs.
use openclaw_enterprise_plug.Common.{
  ℕ, ◌+◌, ◌≡◌, refl, true, not, none, some, [], ◌∷◌, arith, is_some, or_else, str_eq, if◌then◌else◌,
}
use openclaw_enterprise_plug.Common.Dict
use openclaw_enterprise_plug.Kernel.Cache.{
  Cache, get, set, has, set_if_absent, set_if_absent_write, evict_expired, increment,
  increment_write,
}
use openclaw_enterprise_plug.Kernel.Cache.View.{
  view, shown, get-view, view-set, view-evict_expired, set_if_absent-view, set_if_absent_overlap,
  increment-view, increment_overlap,
}

-- `a` expires after 110, `b` never.
abbrev two : Cache ℕ
two =
    ("a", record { value = 1; expires_at = some 110 })
    ∷ ("b", record { value = 2; expires_at = none })
    ∷ []

reads :
    ((get 110 "a" two).1 ≡ some 1) × ((get 111 "a" two).1 ≡ none) × ((get 999 "b" two).1 ≡ some 2)
unfolding get Dict.get
reads = (refl, refl, refl)

counts : (increment 50 50 "a" 4 none two).1 ≡ 5
unfolding increment Dict.get
counts = refl

get-view_example :
    ((get 111 "a" two).1 ≡ view 111 two "a") × (view 120 (get 111 "a" two).0 "b" ≡ view 120 two "b")
get-view_example = get-view 111 120 "a" "b" two (omega arith)

view-set_run :
    view 130 (set 100 "a" 7 (some 20) two) "a"
    ≡ (if str_eq "a" "a" then shown (some 120) 7 130 else view 130 two "a")
view-set_run = view-set 100 130 "a" "a" 7 (some 20) two

view-evict_expired_run : view 120 (evict_expired 111 two) "a" ≡ view 120 two "a"
unfolding Dict.get
view-evict_expired_run = view-evict_expired 111 120 "a" two (refl, (refl, tt)) (omega arith)

set_if_absent-view_run :
    let (c', done) = set_if_absent 120 121 "a" 9 50 two in
    (done ≡ not (is_some (view 120 two "a")))
    × (view 130 c' "a" ≡ (if done then shown (some 171) 9 130 else view 130 two "a"))
set_if_absent-view_run = set_if_absent-view 120 121 130 "a" 9 50 two (omega arith)

set_if_absent_overlap_run :
    let (c₁, present) = has 120 "a" two in
    let (c₂, present') = has 120 "a" c₁ in
    let (c₃, done) = set_if_absent_write 121 "a" 8 50 present c₂ in
    let (c₄, done') = set_if_absent_write 121 "a" 9 50 present' c₃ in
    (done ≡ true) × (done' ≡ true) × (view 130 c₄ "a" ≡ shown (some 171) 9 130)
unfolding Dict.get
set_if_absent_overlap_run = set_if_absent_overlap 120 121 130 "a" 8 9 50 two refl

increment-view_run :
    let (c', n) = increment 50 51 "a" 4 none two in
    (n ≡ or_else (view 50 two "a") 0 + 4) × (view 9999 c' "a" ≡ some n)
increment-view_run = increment-view 50 51 9999 "a" 4 two

increment_overlap_run :
    let (c₁, v) = get 50 "a" two in
    let (c₂, w) = get 50 "a" c₁ in
    let (c₃, n) = increment_write 51 "a" v 4 none c₂ in
    let (c₄, n') = increment_write 51 "a" w 5 none c₃ in
    (n ≡ or_else (view 50 two "a") 0 + 4)
    × (n' ≡ or_else (view 50 two "a") 0 + 5)
    × (view 60 c₄ "a" ≡ some n')
increment_overlap_run = increment_overlap 50 51 60 "a" 4 5 two
