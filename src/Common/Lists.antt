-- ===== src/Common/Lists.antt =====
-- Arrays as lists, measured by native numbers.
use Prim.Native.Nat.{ℕ, zero, suc, ◌+◌, ◌-◌}
use mathlib.Core.Path.{◌≡◌, refl, ap, ◌∙◌}
use mathlib.Core.Bool.{Bool, true, false}
use mathlib.Core.Logic.{inl, inr}
use mathlib.Core.List.{List, [], ◌∷◌, ◌++◌}
use mathlib.Core.Option.{Option, none, some}
use native.Mathlib.Omega.{arith}
use openclaw_enterprise_plug.Common.Tests.{if◌then◌else◌, Bool-cases}

module _ {ℓ} {A : Type ℓ} where
  abbrev pub length : List A → ℕ
  length [] = 0
  length (x ∷ xs) = suc (length xs)

  abbrev pub get_elem? : List A → ℕ → Option A
  get_elem? [] i = none
  get_elem? (x ∷ xs) zero = some x
  get_elem? (x ∷ xs) (suc i) = get_elem? xs i

  abbrev pub take : ℕ → List A → List A
  take zero xs = []
  take (suc n) [] = []
  take (suc n) (x ∷ xs) = x ∷ take n xs

  abbrev pub drop : ℕ → List A → List A
  drop zero xs = xs
  drop (suc n) [] = []
  drop (suc n) (x ∷ xs) = drop n xs

  -- `xs.filter(p)`
  abbrev pub filter : (A → Bool) → List A → List A
  filter p [] = []
  filter p (x ∷ xs) = if p x then x ∷ filter p xs else filter p xs

  -- `xs.find(p)`
  abbrev pub find : (A → Bool) → List A → Option A
  find p [] = none
  find p (x ∷ xs) = if p x then some x else find p xs

  -- `xs.some(p)`
  abbrev pub any : (A → Bool) → List A → Bool
  any p [] = false
  any p (x ∷ xs) = if p x then true else any p xs

  -- `xs.slice(offset, offset + limit)`
  abbrev pub slice : List A → ℕ → ℕ → List A
  slice xs offset limit = take limit (drop offset xs)

  pub length-append : (xs ys : List A) → length (xs ++ ys) ≡ length xs + length ys
  length-append [] ys = omega arith
  length-append (x ∷ xs) ys = omega (arith, length-append xs ys)

  pub length-drop : (n : ℕ) (xs : List A) → length (drop n xs) ≡ length xs - n
  length-drop zero xs = omega arith
  length-drop (suc n) [] = omega arith
  length-drop (suc n) (x ∷ xs) = omega (arith, length-drop n xs)

-- Every element satisfies the predicate.
abbrev pub All {ℓ κ} : {A : Type ℓ} → (A → Type κ) → List A → Type κ
All P [] = Unit
All P (x ∷ xs) = P x × All P xs

pub All-append {ℓ κ} :
    {A : Type ℓ} (P : A → Type κ) (xs ys : List A) → All P xs → All P ys → All P (xs ++ ys)
All-append P [] ys hx hy = hy
All-append P (x ∷ xs) ys hx hy = (hx.0, All-append P xs ys hx.1 hy)

module _ {ℓ} {A : Type ℓ} where
  -- `xs[i] = v`; a write out of bounds changes nothing.
  abbrev pub set_at : ℕ → A → List A → List A
  set_at i v [] = []
  set_at zero v (x ∷ xs) = v ∷ xs
  set_at (suc i) v (x ∷ xs) = x ∷ set_at i v xs

  -- `const x = xs.find(p); if (x) change(x)`: the first element that passes is changed in place.
  abbrev pub update_first : (A → Bool) → (A → A) → List A → List A
  update_first p f [] = []
  update_first p f (x ∷ xs) = if p x then f x ∷ xs else x ∷ update_first p f xs

  -- The elements with their positions, counted from `i`.
  abbrev pub indexed : ℕ → List A → List (ℕ × A)
  indexed i [] = []
  indexed i (x ∷ xs) = (i, x) ∷ indexed (suc i) xs

  abbrev pub head? : List A → Option A
  head? [] = none
  head? (x ∷ xs) = some x

  -- `xs.sort(compare)`, which is stable, by the test that `a` may stand before `b`.
  abbrev pub insert_before : (A → A → Bool) → A → List A → List A
  insert_before le x [] = x ∷ []
  insert_before le x (y ∷ ys) = if le x y then x ∷ y ∷ ys else y ∷ insert_before le x ys

  abbrev pub sort : (A → A → Bool) → List A → List A
  sort le [] = []
  sort le (x ∷ xs) = insert_before le x (sort le xs)

  pub All-update_first {κ} :
      (P : A → Type κ) (p : A → Bool) (f : A → A) (xs : List A)
      → ((x : A) → p x ≡ true → P x → P (f x))
      → All P xs
      → All P (update_first p f xs)
  All-update_first P p f [] step h = h
  All-update_first P p f (x ∷ xs) step h = elim (Bool-cases (p x)) [
    | inl e ↦ rw e (step x e h.0, h.1)
    | inr e ↦ rw e (h.0, All-update_first P p f xs step h.1)
  ]

  pub All-set_at {κ} :
      (P : A → Type κ) (i : ℕ) (v : A) (xs : List A) → P v → All P xs → All P (set_at i v xs)
  All-set_at P i v [] pv h = h
  All-set_at P zero v (x ∷ xs) pv h = (pv, h.1)
  All-set_at P (suc i) v (x ∷ xs) pv h = (h.0, All-set_at P i v xs pv h.1)

  pub All-filter {κ} :
      (P : A → Type κ) (p : A → Bool) (xs : List A) → All P xs → All P (filter p xs)
  All-filter P p [] h = h
  All-filter P p (x ∷ xs) h = elim (Bool-cases (p x)) [
    | inl e ↦ rw e (h.0, All-filter P p xs h.1)
    | inr e ↦ rw e (All-filter P p xs h.1)
  ]

  -- The first of the least elements, which is what the head of a stable sort is.
  abbrev pub least : (A → A → Bool) → List A → Option A
  least le [] = none
  least le (x ∷ xs) = elim (least le xs) [
    | none ↦ some x
    | some y ↦ if le x y then some x else some y
  ]

  head?-insert_before :
      (le : A → A → Bool) (x : A) (ys : List A)
      → head? (insert_before le x ys)
        ≡ elim (head? ys) [ none ↦ some x | some y ↦ if le x y then some x else some y ]
  head?-insert_before le x [] = refl
  head?-insert_before le x (y ∷ ys) = ground arith

  pub head?-sort : (le : A → A → Bool) (xs : List A) → head? (sort le xs) ≡ least le xs
  head?-sort le [] = refl
  head?-sort le (x ∷ xs) =
      head?-insert_before le x (sort le xs)
      ∙ ap (λ o. elim o [ none ↦ some x | some y ↦ if le x y then some x else some y ])
          (head?-sort le xs)

  pub get_elem?-set_at_ne :
      (i j : ℕ) (v : A) (xs : List A) → (j ≡ i → ⊥) → get_elem? (set_at j v xs) i ≡ get_elem? xs i
  get_elem?-set_at_ne i j v [] h = refl
  get_elem?-set_at_ne zero zero v (x ∷ xs) h = absurd (h refl)
  get_elem?-set_at_ne zero (suc j) v (x ∷ xs) h = refl
  get_elem?-set_at_ne (suc i) zero v (x ∷ xs) h = refl
  get_elem?-set_at_ne (suc i) (suc j) v (x ∷ xs) h =
      get_elem?-set_at_ne i j v xs (λ e. h (ap suc e))
