-- ===== src/Governance/ContentFilter/Outcome.antt =====
-- What the filter decides, and that its loops end.
use openclaw_enterprise_plug.Common.{
  ℕ, zero, suc, ◌+◌, ◌<◌, String, ◌≡◌, ◌≢◌, refl, ap, ◌∙◌, false, Option, none, some, List, [], ◌∷◌,
  ◌++◌, ltb, str_eq, eq_iff, if◌then◌else◌, if_intro, or_else, arith,
}
use openclaw_enterprise_plug.Governance.ContentFilter.{
  FilterAction, allow, redact, review, block, action_rank, RegexClassifierRule, FilterViolation,
  FilterableContent, Match, violation, Findings, noted, matched, scan_rule, scan_rules, verdict,
  filter,
}
use openclaw_enterprise_plug.Governance.ContentFilter.Termination.{GoesForward, filter_fuel}

-- A violation was noted, and the worst action is to block.
abbrev IsBlocked : Findings → Type 0
IsBlocked f = (f.0 ≢ []) × (f.1 ≡ block)

append_ne : (vs : List FilterViolation) (v : FilterViolation) → vs ++ v ∷ [] ≢ []
append_ne [] v h = ground (arith, h)
append_ne (x ∷ vs) v h = ground (arith, h)

worst_block : (a : FilterAction) → (if ltb (action_rank a) 3 then block else a) ≡ block
worst_block allow = refl
worst_block redact = refl
worst_block review = refl
worst_block block = refl

still_block : (a : FilterAction) → (if ltb 3 (action_rank a) then a else block) ≡ block
still_block allow = refl
still_block redact = refl
still_block review = refl
still_block block = refl

noted-IsBlocked :
    (r : RegexClassifierRule) (t : String) (f : Findings) → IsBlocked f → IsBlocked (noted r t f)
noted-IsBlocked r t f h = (
  append_ne f.0 (violation r t),
  ap (λ a. if ltb (action_rank a) (action_rank r.action) then r.action else a) h.1
      ∙ still_block r.action,
)

noted_block :
    (r : RegexClassifierRule) (t : String) (f : Findings)
    → r.action ≡ block
    → IsBlocked (noted r t f)
noted_block r t f e = (
  append_ne f.0 (violation r t),
  ap (λ a. if ltb (action_rank f.1) (action_rank a) then a else f.1) e ∙ worst_block f.1,
)

module _ (exec : String → String → ℕ → Option Match)
    (replace_all : String → String → String → String) where
  matched-IsBlocked :
      (next : ℕ → Findings → Findings) (r : RegexClassifierRule) (o : Option Match) (f : Findings)
      → ((j : ℕ) (g : Findings) → IsBlocked g → IsBlocked (next j g))
      → IsBlocked f
      → IsBlocked (matched exec replace_all next r o f)
  matched-IsBlocked next r none f keep h = h
  matched-IsBlocked next r (some m) f keep h =
      if_intro IsBlocked (str_eq m.text "") (λ _. keep (suc m.last_index) f h)
        (λ _. keep m.last_index (noted r m.text f) (noted-IsBlocked r m.text f h))

  scan_rule-IsBlocked :
      (fuel : ℕ) (r : RegexClassifierRule) (t : String) (i : ℕ) (f : Findings)
      → IsBlocked f
      → IsBlocked (scan_rule exec replace_all fuel r t i f)
  scan_rule-IsBlocked zero r t i f h = h
  scan_rule-IsBlocked (suc fuel) r t i f h =
      matched-IsBlocked (λ j g. scan_rule exec replace_all fuel r t j g) r (exec r.pattern_text t i)
        f (λ j g. scan_rule-IsBlocked fuel r t j g) h

  scan_rules-IsBlocked :
      (fuel : ℕ) (rs : List RegexClassifierRule) (t : String) (f : Findings)
      → IsBlocked f
      → IsBlocked (scan_rules exec replace_all fuel rs t f)
  scan_rules-IsBlocked fuel [] t f h = h
  scan_rules-IsBlocked fuel (r ∷ rs) t f h =
      scan_rules-IsBlocked fuel rs t (scan_rule exec replace_all fuel r t 0 f)
        (scan_rule-IsBlocked fuel r t 0 f h)

  -- The rule finds something in the text, from a position on: after as many empty matches, each
  -- followed by a step over one character, a match that is not empty.
  abbrev pub Finds : RegexClassifierRule → String → ℕ → ℕ → Type 0
  Finds r t zero i = (m : Match) × (exec r.pattern_text t i ≡ some m) × (m.text ≢ "")
  Finds r t (suc n) i =
      (m : Match) × (exec r.pattern_text t i ≡ some m)
      × (m.text ≡ "")
      × Finds r t n (suc m.last_index)

  found_block :
      (fuel n : ℕ) (r : RegexClassifierRule) (t : String) (i : ℕ) (f : Findings)
      → r.action ≡ block
      → Finds r t n i
      → n < fuel
      → IsBlocked (scan_rule exec replace_all fuel r t i f)
  found_block zero n r t i f a g l = absurd (omega (arith, l))
  found_block (suc fuel) zero r t i f a (m, e, ne) l = rw e (
      if_intro IsBlocked (str_eq m.text "") (λ y. absurd (ne ((eq_iff m.text "").0 y)))
        (λ _.
          scan_rule-IsBlocked fuel r t m.last_index (noted r m.text f) (noted_block r m.text f a)))
  found_block (suc fuel) (suc n) r t i f a (m, e, y, g) l = rw e (
      if_intro IsBlocked (str_eq m.text "")
        (λ _. found_block fuel n r t (suc m.last_index) f a g (omega (arith, l)))
        (λ no. absurd (ground (arith, no, y, eq_iff m.text ""))))

  verdict-blocked :
      (rules : List RegexClassifierRule) (c : FilterableContent) (vs : List FilterViolation)
      (a : FilterAction)
      → vs ≢ []
      → a ≡ block
      → let r = verdict exec replace_all rules c (vs, a) in
        (r.passed ≡ false) × (r.action ≡ block) × (r.content.text ≡ some "")
  verdict-blocked rules c [] a ne e = absurd (ne refl)
  verdict-blocked rules c (v ∷ vs) block ne e = (refl, refl, refl)
  verdict-blocked rules c (v ∷ vs) allow ne e = cc
  verdict-blocked rules c (v ∷ vs) redact ne e = cc
  verdict-blocked rules c (v ∷ vs) review ne e = cc

  scan_rules-found :
      (fuel n : ℕ) (before rest : List RegexClassifierRule) (r : RegexClassifierRule) (t : String)
      (f : Findings)
      → r.action ≡ block
      → Finds r t n 0
      → n < fuel
      → IsBlocked (scan_rules exec replace_all fuel (before ++ r ∷ rest) t f)
  scan_rules-found fuel n [] rest r t f a g l =
      scan_rules-IsBlocked fuel rest t (scan_rule exec replace_all fuel r t 0 f)
        (found_block fuel n r t 0 f a g l)
  scan_rules-found fuel n (b ∷ before) rest r t f a g l =
      scan_rules-found fuel n before rest r t (scan_rule exec replace_all fuel b t 0 f) a g l

  module _ (length_of : String → ℕ) (forward : GoesForward exec length_of) where
    -- A text in which any rule that blocks finds something, at once or after empty matches, is not
    -- passed, whatever the other rules find: the action is to block, and the text is emptied. The
    -- filter has one turn for each position of the text, and one more, and the engine of regular
    -- expressions goes forward in the text.
    pub filter-blocked :
        (fuel n : ℕ) (before rest : List RegexClassifierRule) (r : RegexClassifierRule)
        (c : FilterableContent)
        → length_of (or_else c.text "") < fuel
        → r.action ≡ block
        → Finds r (or_else c.text "") n 0
        → let result = filter exec replace_all fuel (before ++ r ∷ rest) c in
          (result.passed ≡ false) × (result.action ≡ block) × (result.content.text ≡ some "")
    unfolding filter
    filter-blocked fuel n before rest r c l a g =
        let rules = before ++ r ∷ rest in
        let text = or_else c.text "" in
        let more = suc (fuel + n) in
        let f = scan_rules exec replace_all more rules text ([], allow) in
        let h = scan_rules-found more n before rest r text ([], allow) a g (omega arith) in
        let same =
          filter_fuel exec replace_all length_of forward fuel more rules c l (omega (arith, l)) in
        let v = verdict-blocked rules c f.0 f.1 h.0 h.1 in
        (
          ap (λ x. x.passed) same ∙ v.0,
          ap (λ x. x.action) same ∙ v.1,
          ap (λ x. x.content.text) same ∙ v.2,
        )
