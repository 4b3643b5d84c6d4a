-- ===== src/Kernel/EventBus/Glob.antt =====
-- The patterns of subscriptions as globs: `*` stands for any characters but `.`, and every other
-- character for itself.
use Prim.Native.Char.{Char, code}
use Prim.Native.String.append.{nil, cons}
use Prim.Native.String.{[] as empty, ◌∷◌ as ◌∷ᶜ◌, ◌++◌ as ◌++ᶜ◌}
use text.Mathlib.TextLemmas.{nil≢cons, head-eq_of_cons-eq, tail-eq_of_cons-eq, cons≢nil}
use text.Mathlib.TextEquality.{Char-path}
use openclaw_enterprise_plug.Common.{
  String, ◌≡◌, ◌≢◌, refl, sym, ap, ◌∙◌, ◌↔◌, Bool, true, false, some, List, [], ◌∷◌, if◌then◌else◌,
  str_eq, eq_iff, arith, inl, inr, Bool-cases,
}
use openclaw_enterprise_plug.Kernel.EventBus.Pattern.{
  Atom, one, segment, Last, nothing, Regex, atoms, is_star, is_question, is_dot, is_empty, emit,
  begun, parse, glob_to_regex, takes, skips, test_atoms, test,
}

abbrev pub HasNoDot : String → Type 0
HasNoDot empty = Unit
HasNoDot (c ∷ᶜ s) = (is_dot c ≡ false) × HasNoDot s

abbrev pub HasNoQuestion : String → Type 0
HasNoQuestion empty = Unit
HasNoQuestion (c ∷ᶜ p) = (is_question c ≡ false) × HasNoQuestion p

-- The text is one that the glob stands for.
abbrev pub Glob : String → String → Type 0
Glob empty s = s ≡ empty
Glob (c ∷ᶜ p) s =
    if is_star c
    then ((t : String) × (u : String) × (s ≡ t ++ᶜ u) × HasNoDot t × Glob p u)
    else ((u : String) × (s ≡ c ∷ᶜ u) × Glob p u)

abbrev piece : Char → Atom
piece c = if is_star c then segment else one c

abbrev pieces : String → List Atom
pieces empty = []
pieces (c ∷ᶜ p) = piece c ∷ pieces p

emit-begun : (c : Char) (l : List Atom) → emit (begun c) l ≡ piece c ∷ l
emit-begun c l = elim (Bool-cases (is_star c)) [ inl e ↦ rw e refl | inr e ↦ rw e refl ]

parse-pieces : (l : Last) (p : String) → HasNoQuestion p → parse l p ≡ some (emit l (pieces p))
unfolding parse
parse-pieces l empty h = refl
parse-pieces l (c ∷ᶜ p) h =
    rw (parse, h.0, parse-pieces (begun c) p h.1)
      (rw h.0 (ap (λ r. some (emit l r)) (emit-begun c (pieces p))))

takes_iff :
    (c : Char) (f : String → Bool) (s : String)
    → (takes c f s ≡ true) ↔ ((u : String) × (s ≡ c ∷ᶜ u) × (f u ≡ true))
takes_iff c f empty = ((λ h. ground (arith, h)), (λ (u, e, h). absurd (nil≢cons e)))
takes_iff c f (d ∷ᶜ s) = (
  (λ h.
      let e : code c ≡ code d = ground (arith, h) in
      (s, ap (λ x. x ∷ᶜ s) (sym (Char-path c d e)), ground (arith, h))),
  (λ (u, e, h).
      let same = ap code (head-eq_of_cons-eq e) in
      let rest : f s ≡ true = ap f (tail-eq_of_cons-eq e) ∙ h in ground (arith, same, rest)),
)

-- The text falls into a part without `.` and one that passes the test.
abbrev Splits : (String → Bool) → String → Type 0
Splits f s = (t : String) × (u : String) × (s ≡ t ++ᶜ u) × HasNoDot t × (f u ≡ true)

skips_of_split :
    (f : String → Bool) (c : Char) (s t u : String)
    → ((t : String) (u : String) → s ≡ t ++ᶜ u → HasNoDot t → f u ≡ true → skips f s ≡ true)
    → c ∷ᶜ s ≡ t ++ᶜ u
    → HasNoDot t
    → f u ≡ true
    → skips f (c ∷ᶜ s) ≡ true
skips_of_split f c s empty u ih e d h =
    let now : f (c ∷ᶜ s) ≡ true = ap f (e ∙ nil u) ∙ h in ground (arith, now)
skips_of_split f c s (x ∷ᶜ t) u ih e d h =
    let e' = e ∙ cons x t u in
    let dot = ap is_dot (head-eq_of_cons-eq e') ∙ d.0 in
    let later = ih t u (tail-eq_of_cons-eq e') d.1 h in ground (arith, dot, later)

skips_of :
    (f : String → Bool) (s t u : String) → s ≡ t ++ᶜ u → HasNoDot t → f u ≡ true → skips f s ≡ true
skips_of f empty empty u e d h = ap f (e ∙ nil u) ∙ h
skips_of f empty (x ∷ᶜ t) u e d h = absurd (nil≢cons (e ∙ cons x t u))
skips_of f (c ∷ᶜ s) t u e d h = skips_of_split f c s t u (skips_of f s) e d h

Splits-of_skips : (f : String → Bool) (s : String) → skips f s ≡ true → Splits f s
Splits-of_skips f empty h = (empty, empty, sym (nil empty), tt, h)
Splits-of_skips f (c ∷ᶜ s) h = elim (Bool-cases (f (c ∷ᶜ s))) [
  | inl e ↦ (empty, c ∷ᶜ s, sym (nil (c ∷ᶜ s)), tt, e)
  | inr e ↦
      let (t, u, split, d, rest) = Splits-of_skips f s (ground (arith, h, e)) in
      (c ∷ᶜ t, u, ap (λ x. c ∷ᶜ x) split ∙ sym (cons c t u), (ground (arith, h, e), d), rest)
]

is_empty_iff : (s : String) → (is_empty s ≡ true) ↔ (s ≡ empty)
is_empty_iff empty = ((λ _. refl), (λ _. refl))
is_empty_iff (c ∷ᶜ s) = ((λ h. ground (arith, h)), (λ e. absurd (cons≢nil e)))

pieces_iff : (p s : String) → (test_atoms (pieces p) s ≡ true) ↔ Glob p s
pieces_iff empty s = is_empty_iff s
pieces_iff (c ∷ᶜ p) s = elim (Bool-cases (is_star c)) [
  | inl e ↦ rw e (
    (λ h.
        let (t, u, split, d, rest) = Splits-of_skips (test_atoms (pieces p)) s h in
        (t, u, split, d, (pieces_iff p u).0 rest)),
    (λ (t, u, split, d, rest).
        skips_of (test_atoms (pieces p)) s t u split d ((pieces_iff p u).1 rest)),
  )
  | inr e ↦
      let i = takes_iff c (test_atoms (pieces p)) s in
      rw e (
        (λ h. let (u, at, rest) = i.0 h in (u, at, (pieces_iff p u).0 rest)),
        (λ (u, at, rest). i.1 (u, at, (pieces_iff p u).1 rest)),
      )
]

-- A pattern without `?` that is not `*` alone is a regular expression, which accepts exactly the
-- texts that the pattern stands for as a glob.
pub glob_to_regex-Glob :
    (pattern s : String)
    → HasNoQuestion pattern
    → pattern ≢ "*"
    → (r : Regex) × (glob_to_regex pattern ≡ some r) × ((test r s ≡ true) ↔ Glob pattern s)
unfolding glob_to_regex test
glob_to_regex-Glob pattern s h ne =
    let not_line : str_eq pattern "*" ≡ false = ground (arith, ne, eq_iff pattern "*") in
    (
      atoms (pieces pattern),
      rw (not_line, parse-pieces nothing pattern h) refl,
      pieces_iff pattern s,
    )
