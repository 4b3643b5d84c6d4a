-- ===== src/Governance/ContentFilter/Termination.antt =====
-- The loop over the matches of a rule ends, if the engine of regular expressions goes forward.
use openclaw_enterprise_plug.Common.{
  ℕ, zero, suc, ◌+◌, ◌≤◌, ◌<◌, String, ◌≡◌, ◌≢◌, refl, sym, ap, ◌∙◌, Option, none, some, List, [],
  ◌∷◌, str_eq, eq_iff, or_else, arith, Bool-cases, inl, inr, Option-cases,
}
use openclaw_enterprise_plug.Governance.ContentFilter.{
  allow, RegexClassifierRule, FilterableContent, Match, Findings, noted, matched, scan_rule,
  scan_rules, verdict, filter,
}

-- What the documentation of `exec` says of a global pattern: a match that starts at the position or
-- later ends behind its start if it is not empty, and no match lies behind the end of the text.
abbrev pub GoesForward : (String → String → ℕ → Option Match) → (String → ℕ) → Type 0
GoesForward exec length_of =
    (p t : String) (i : ℕ) (m : Match)
    → exec p t i ≡ some m
    → (i ≤ m.last_index) × (m.text ≢ "" → i < m.last_index) × (m.last_index ≤ length_of t)

module _ (exec : String → String → ℕ → Option Match)
    (replace_all : String → String → String → String) (length_of : String → ℕ)
    (forward : GoesForward exec length_of) where
  abbrev Agree : ℕ → (ℕ → Findings → Findings) → (ℕ → Findings → Findings) → Type 0
  Agree i next next' = (j : ℕ) (g : Findings) → i < j → next j g ≡ next' j g

  matched_alike :
      (next next' : ℕ → Findings → Findings) (r : RegexClassifierRule) (t : String) (i : ℕ)
      (o : Option Match) (f : Findings)
      → exec r.pattern_text t i ≡ o
      → Agree i next next'
      → matched exec replace_all next r o f ≡ matched exec replace_all next' r o f
  matched_alike next next' r t i none f e h = refl
  matched_alike next next' r t i (some m) f e h =
      let (le, lt, end) = forward r.pattern_text t i m e in
      elim (Bool-cases (str_eq m.text "")) [
        | inl y ↦ rw y (h (suc m.last_index) f (omega (arith, le)))
        | inr n ↦
            let ne : m.text ≢ "" = λ q. ground (arith, n, q, eq_iff m.text "") in
            rw n (h m.last_index (noted r m.text f) (lt ne))
      ]

  past_end :
      (r : RegexClassifierRule) (t : String) (i : ℕ)
      → length_of t < i
      → exec r.pattern_text t i ≡ none
  past_end r t i h = elim (Option-cases (exec r.pattern_text t i)) [
    | inl e ↦ e
    | inr (m, e) ↦
        let (le, lt, end) = forward r.pattern_text t i m e in absurd (omega (arith, h, le, end))
  ]

  scan_past :
      (fuel : ℕ) (r : RegexClassifierRule) (t : String) (i : ℕ) (f : Findings)
      → length_of t < i
      → scan_rule exec replace_all fuel r t i f ≡ f
  scan_past zero r t i f h = refl
  scan_past (suc fuel) r t i f h =
      ap (λ o. matched exec replace_all (λ j g. scan_rule exec replace_all fuel r t j g) r o f)
        (past_end r t i h)

  scan_rule_fuel :
      (fuel fuel' : ℕ) (r : RegexClassifierRule) (t : String) (i : ℕ) (f : Findings)
      → length_of t < fuel + i
      → length_of t < fuel' + i
      → scan_rule exec replace_all fuel r t i f ≡ scan_rule exec replace_all fuel' r t i f
  scan_rule_fuel zero fuel' r t i f h k = sym (scan_past fuel' r t i f (omega (arith, h)))
  scan_rule_fuel (suc fuel) zero r t i f h k = scan_past (suc fuel) r t i f (omega (arith, k))
  scan_rule_fuel (suc fuel) (suc fuel') r t i f h k =
      matched_alike (λ j g. scan_rule exec replace_all fuel r t j g)
        (λ j g. scan_rule exec replace_all fuel' r t j g) r t i (exec r.pattern_text t i) f refl
        (λ j g l. scan_rule_fuel fuel fuel' r t j g (omega (arith, h, l)) (omega (arith, k, l)))

  scan_rules_fuel :
      (fuel fuel' : ℕ) (rs : List RegexClassifierRule) (t : String) (f : Findings)
      → length_of t < fuel
      → length_of t < fuel'
      → scan_rules exec replace_all fuel rs t f ≡ scan_rules exec replace_all fuel' rs t f
  scan_rules_fuel fuel fuel' [] t f h k = refl
  scan_rules_fuel fuel fuel' (r ∷ rs) t f h k =
      scan_rules_fuel fuel fuel' rs t (scan_rule exec replace_all fuel r t 0 f) h k
      ∙ ap (scan_rules exec replace_all fuel' rs t)
          (scan_rule_fuel fuel fuel' r t 0 f (omega (arith, h)) (omega (arith, k)))

  pub filter_fuel :
      (fuel fuel' : ℕ) (rules : List RegexClassifierRule) (c : FilterableContent)
      → length_of (or_else c.text "") < fuel
      → length_of (or_else c.text "") < fuel'
      → filter exec replace_all fuel rules c ≡ filter exec replace_all fuel' rules c
  unfolding filter
  filter_fuel fuel fuel' rules c h k =
      ap (verdict exec replace_all rules c)
        (scan_rules_fuel fuel fuel' rules (or_else c.text "") ([], allow) h k)
