-- ===== src/Common/Least.antt =====
-- The head of a stable sort: a least element, and the first of those.
use openclaw_enterprise_plug.Common.Tests.{Bool-cases, Option-cases}
use openclaw_enterprise_plug.Common.Lists.{All, filter, indexed, All-filter, get_elem?, least}
use Prim.Native.Nat.{ℕ, suc, ◌+◌, ◌<◌}
use mathlib.Core.Path.{◌≡◌, refl, sym, ap, subst, ◌∙◌}
use mathlib.Core.Logic.{inl, inr}
use mathlib.Core.Bool.{Bool, true, false}
use mathlib.Core.List.{List, [], ◌∷◌}
use mathlib.Core.Option.{none, some}
use native.Mathlib.Omega.{arith}

-- `All` in one direction under an implication.
pub All-map {ℓ κ μ} :
    {A : Type ℓ} (P : A → Type κ) (Q : A → Type μ) (xs : List A)
    → ((x : A) → P x → Q x)
    → All P xs
    → All Q xs
All-map P Q [] f h = tt
All-map P Q (x ∷ xs) f h = (f x h.0, All-map P Q xs f h.1)

pub All-zip {ℓ κ μ} :
    {A : Type ℓ} (P : A → Type κ) (Q : A → Type μ) (xs : List A)
    → All P xs
    → All Q xs
    → All (λ x. P x × Q x) xs
All-zip P Q [] h k = tt
All-zip P Q (x ∷ xs) h k = ((h.0, k.0), All-zip P Q xs h.1 k.1)

-- The positions rise.
abbrev pub Rises {ℓ} : {A : Type ℓ} → List (ℕ × A) → Type 0
Rises [] = Unit
Rises (a ∷ xs) = All (λ b. a.0 < b.0) xs × Rises xs

module _ {ℓ} {A : Type ℓ} where
  -- All that a filter lets through passes its test.
  pub filter-All : (p : A → Bool) (xs : List A) → All (λ x. p x ≡ true) (filter p xs)
  filter-All p [] = tt
  filter-All p (x ∷ xs) = elim (Bool-cases (p x)) [
    | inl e ↦ rw e (e, filter-All p xs)
    | inr e ↦ rw e (filter-All p xs)
  ]

  -- What holds of all that a filter lets through holds of all that pass its test.
  pub All-of_filter {κ} :
      (P : A → Type κ) (p : A → Bool) (xs : List A)
      → All P (filter p xs)
      → All (λ x. p x ≡ true → P x) xs
  All-of_filter P p [] h = tt
  All-of_filter P p (x ∷ xs) h = elim (Bool-cases (p x)) [
    | inl e ↦
        let k : P x × All P (filter p xs) = rw e at h in ((λ _. k.0), All-of_filter P p xs k.1)
    | inr e ↦ ((λ t. cc), All-of_filter P p xs (rw e at h))
  ]

  -- Each pair of `indexed` is an element of the list with its position.
  get_elem?-indexed_from :
      (l xs : List A) (i : ℕ)
      → ((j : ℕ) → get_elem? l (i + j) ≡ get_elem? xs j)
      → All (λ a. get_elem? l a.0 ≡ some a.1) (indexed i xs)
  get_elem?-indexed_from l [] i h = tt
  get_elem?-indexed_from l (x ∷ xs) i h = (
    ap (get_elem? l) (omega arith) ∙ h 0,
    get_elem?-indexed_from l xs (suc i) (λ j. ap (get_elem? l) (omega arith) ∙ h (suc j)),
  )

  pub get_elem?-indexed : (l : List A) → All (λ a. get_elem? l a.0 ≡ some a.1) (indexed 0 l)
  get_elem?-indexed l = get_elem?-indexed_from l l 0 (λ j. ap (get_elem? l) (omega arith))

  indexed-le : (xs : List A) (i j : ℕ) → j < i → All (λ b. j < b.0) (indexed i xs)
  indexed-le [] i j h = tt
  indexed-le (x ∷ xs) i j h = (h, indexed-le xs (suc i) j (omega arith))

  pub indexed-Rises : (xs : List A) (i : ℕ) → Rises (indexed i xs)
  indexed-Rises [] i = tt
  indexed-Rises (x ∷ xs) i = (indexed-le xs (suc i) i (omega arith), indexed-Rises xs (suc i))

  pub filter-Rises : (p : ℕ × A → Bool) (xs : List (ℕ × A)) → Rises xs → Rises (filter p xs)
  filter-Rises p [] h = tt
  filter-Rises p (x ∷ xs) h = elim (Bool-cases (p x)) [
    | inl e ↦ rw e (All-filter (λ b. x.0 < b.0) p xs h.0, filter-Rises p xs h.1)
    | inr e ↦ rw e (filter-Rises p xs h.1)
  ]

  -- A predicate on the elements, carried over to the pairs and back.
  pub All-indexed {κ} :
      (P : A → Type κ) (xs : List A) (i : ℕ) → All (λ a. P a.1) (indexed i xs) → All P xs
  All-indexed P [] i h = tt
  All-indexed P (x ∷ xs) i h = (h.0, All-indexed P xs (suc i) h.1)

module _ {ℓ} {A : Type ℓ} (le : A → A → Bool) where
  pub least-All {κ} : (P : A → Type κ) (xs : List A) (x : A) → All P xs → least le xs ≡ some x → P x
  least-All P [] x h e = cc
  least-All P (z ∷ xs) x h e = elim (Option-cases (least le xs)) [
    | inl n ↦ let k : z ≡ x = ground (arith, n) in subst P k h.0
    | inr (y, n) ↦ elim (Bool-cases (le z y)) [
      | inl b ↦ let k : z ≡ x = ground (arith, n, b) in subst P k h.0
      | inr b ↦ let k : y ≡ x = ground (arith, n, b) in subst P k (least-All P xs y h.1 n)
    ]
  ]

  pub least_empty : (xs : List A) → least le xs ≡ none → xs ≡ []
  least_empty [] e = refl
  least_empty (z ∷ xs) e = ground arith

  module _ (total : (x y : A) → le x y ≡ false → le y x ≡ true)
      (trans : (x y z : A) → le x y ≡ true → le y z ≡ true → le x z ≡ true) where
    pub first_least : (xs : List A) (x : A) → least le xs ≡ some x → All (λ y. le x y ≡ true) xs
    first_least [] x e = cc
    first_least (z ∷ xs) x e = elim (Option-cases (least le xs)) [
      | inl n ↦
          let k : z ≡ x = ground (arith, n) in
          subst (λ t. All (λ y. le t y ≡ true) (z ∷ xs)) k
            (self z, subst (All (λ y. le z y ≡ true)) (sym (least_empty xs n)) tt)
      | inr (y, n) ↦ elim (Bool-cases (le z y)) [
        | inl b ↦
            let k : z ≡ x = ground (arith, n, b) in
            subst (λ t. All (λ y. le t y ≡ true) (z ∷ xs)) k
              (
                self z,
                All-map (λ w. le y w ≡ true) (λ w. le z w ≡ true) xs (λ w h. trans z y w b h)
                    (first_least xs y n),
              )
        | inr b ↦
            let k : y ≡ x = ground (arith, n, b) in
            subst (λ t. All (λ y. le t y ≡ true) (z ∷ xs)) k (total z y b, first_least xs y n)
      ]
    ]
      where
        self : (z : A) → le z z ≡ true
        self z = elim (Bool-cases (le z z)) [ inl b ↦ b | inr b ↦ total z z b ]

-- Among equals the first is taken: whatever stands before it is not below it.
pub least_first {ℓ} :
    {A : Type ℓ} (le : ℕ × A → ℕ × A → Bool) (xs : List (ℕ × A)) (x : ℕ × A)
    → Rises xs
    → least le xs ≡ some x
    → All (λ y. y.0 < x.0 → le y x ≡ false) xs
least_first le [] x r e = tt
least_first le (z ∷ xs) x r e = elim (Option-cases (least le xs)) [
  | inl n ↦
      let k : z ≡ x = ground (arith, n) in
      subst (λ t. All (λ y. y.0 < t.0 → le y t ≡ false) (z ∷ xs)) k
        (
          (λ h. absurd (omega arith)),
          subst (All (λ y. y.0 < z.0 → le y z ≡ false)) (sym (least_empty le xs n)) tt,
        )
  | inr (y, n) ↦ elim (Bool-cases (le z y)) [
    | inl b ↦
        let k : z ≡ x = ground (arith, n, b) in
        subst (λ t. All (λ y. y.0 < t.0 → le y t ≡ false) (z ∷ xs)) k
          (
            (λ h. absurd (omega arith)),
            All-map (λ w. z.0 < w.0) (λ w. w.0 < z.0 → le w z ≡ false) xs
                (λ w h t. absurd (omega arith)) r.0,
          )
    | inr b ↦
        let k : y ≡ x = ground (arith, n, b) in
        subst (λ t. All (λ y. y.0 < t.0 → le y t ≡ false) (z ∷ xs)) k
          ((λ h. b), least_first le xs y r.1 n)
  ]
]
