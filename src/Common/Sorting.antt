-- ===== src/Common/Sorting.antt =====
-- What sorting and slicing keep: the elements, their number, and an order that every sort puts in.
use Prim.Native.Nat.{ℕ, zero, suc, min}
use mathlib.Core.Path.{◌≡◌, refl, ap, ◌∙◌}
use mathlib.Core.Bool.{Bool, true, false}
use mathlib.Core.List.{List, [], ◌∷◌}
use native.Mathlib.Omega.{arith}
use openclaw_enterprise_plug.Common.Tests.{if_intro}
use openclaw_enterprise_plug.Common.Lists.{length, take, drop, All, sort, insert_before, filter}

module _ {ℓ} {A : Type ℓ} where
  pub length-take : (n : ℕ) (xs : List A) → length (take n xs) ≡ min n (length xs)
  length-take zero xs = omega arith
  length-take (suc n) [] = omega arith
  length-take (suc n) (x ∷ xs) = omega (arith, length-take n xs)

  length-insert_before :
      (le : A → A → Bool) (x : A) (ys : List A) → length (insert_before le x ys) ≡ suc (length ys)
  length-insert_before le x [] = refl
  length-insert_before le x (y ∷ ys) = ground (arith, length-insert_before le x ys)

  pub length-sort : (le : A → A → Bool) (xs : List A) → length (sort le xs) ≡ length xs
  length-sort le [] = refl
  length-sort le (x ∷ xs) = length-insert_before le x (sort le xs) ∙ ap suc (length-sort le xs)

  -- How many elements pass a test.
  abbrev pub count : (A → Bool) → List A → ℕ
  count p xs = length (filter p xs)

  count-insert_before :
      (le : A → A → Bool) (p : A → Bool) (x : A) (ys : List A)
      → count p (insert_before le x ys) ≡ count p (x ∷ ys)
  count-insert_before le p x [] = refl
  count-insert_before le p x (y ∷ ys) = ground (arith, count-insert_before le p x ys)

  -- A list and the list sorted have the same elements, each as often.
  pub count-sort :
      (le : A → A → Bool) (p : A → Bool) (xs : List A) → count p (sort le xs) ≡ count p xs
  count-sort le p [] = refl
  count-sort le p (x ∷ xs) =
      ground (arith, count-insert_before le p x (sort le xs), count-sort le p xs)

module _ {ℓ κ} {A : Type ℓ} (P : A → Type κ) where
  pub All-take : (n : ℕ) (xs : List A) → All P xs → All P (take n xs)
  All-take zero xs h = tt
  All-take (suc n) [] h = h
  All-take (suc n) (x ∷ xs) h = (h.0, All-take n xs h.1)

  pub All-drop : (n : ℕ) (xs : List A) → All P xs → All P (drop n xs)
  All-drop zero xs h = h
  All-drop (suc n) [] h = h
  All-drop (suc n) (x ∷ xs) h = All-drop n xs h.1

  All-insert_before :
      (le : A → A → Bool) (x : A) (ys : List A) → P x → All P ys → All P (insert_before le x ys)
  All-insert_before le x [] p h = (p, h)
  All-insert_before le x (y ∷ ys) p h =
      if_intro (All P) (le x y) (λ _. (p, h)) (λ _. (h.0, All-insert_before le x ys p h.1))

  pub All-sort : (le : A → A → Bool) (xs : List A) → All P xs → All P (sort le xs)
  All-sort le [] h = h
  All-sort le (x ∷ xs) h = All-insert_before le x (sort le xs) h.0 (All-sort le xs h.1)

-- Each element may stand before every later one.
abbrev pub IsSorted {ℓ} : {A : Type ℓ} → (A → A → Bool) → List A → Type ℓ
IsSorted le [] = Unit
IsSorted le (x ∷ xs) = All (λ y. le x y ≡ true) xs × IsSorted le xs

-- The test of a total preorder.
abbrev pub IsOrder {ℓ} : {A : Type ℓ} → (A → A → Bool) → Type ℓ
IsOrder {A} le =
    ((x y : A) → le x y ≡ false → le y x ≡ true)
    × ((x y z : A) → le x y ≡ true → le y z ≡ true → le x z ≡ true)

module _ {ℓ} {A : Type ℓ} (le : A → A → Bool) (o : IsOrder le) where
  All-later :
      (x y : A) (ys : List A)
      → le x y ≡ true
      → All (λ z. le y z ≡ true) ys
      → All (λ z. le x z ≡ true) ys
  All-later x y [] e h = tt
  All-later x y (z ∷ ys) e h = (o.1 x y z e h.0, All-later x y ys e h.1)

  insert_before-IsSorted :
      (x : A) (ys : List A) → IsSorted le ys → IsSorted le (insert_before le x ys)
  insert_before-IsSorted x [] h = (tt, tt)
  insert_before-IsSorted x (y ∷ ys) h =
      if_intro (IsSorted le) (le x y) (λ e. ((e, All-later x y ys e h.0), h))
        (λ e. (
          All-insert_before (λ z. le y z ≡ true) le x ys (o.0 x y e) h.0,
          insert_before-IsSorted x ys h.1,
        ))

  pub sort-IsSorted : (xs : List A) → IsSorted le (sort le xs)
  sort-IsSorted [] = tt
  sort-IsSorted (x ∷ xs) = insert_before-IsSorted x (sort le xs) (sort-IsSorted xs)

module _ {ℓ} {A : Type ℓ} (le : A → A → Bool) where
  pub take-IsSorted : (n : ℕ) (xs : List A) → IsSorted le xs → IsSorted le (take n xs)
  take-IsSorted zero xs h = tt
  take-IsSorted (suc n) [] h = h
  take-IsSorted (suc n) (x ∷ xs) h =
      (All-take (λ z. le x z ≡ true) n xs h.0, take-IsSorted n xs h.1)

  pub drop-IsSorted : (n : ℕ) (xs : List A) → IsSorted le xs → IsSorted le (drop n xs)
  drop-IsSorted zero xs h = h
  drop-IsSorted (suc n) [] h = h
  drop-IsSorted (suc n) (x ∷ xs) h = drop-IsSorted n xs h.1
