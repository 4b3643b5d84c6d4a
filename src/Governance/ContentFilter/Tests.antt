-- ===== src/Governance/ContentFilter/Tests.antt =====
-- The filter over an engine that finds every pattern once, in a text of two characters: at the start
-- it has an empty match, and then the second character.
use openclaw_enterprise_plug.Common.{
  ℕ, zero, suc, String, ◌≡◌, refl, sym, ap, false, Option, none, some, [], ◌∷◌, ◌++◌, arith, eq_iff,
}
use openclaw_enterprise_plug.Governance.ContentFilter.{
  FilterAction, RegexClassifierRule, FilterableContent, Match, critical, block, redact, filter,
}
use openclaw_enterprise_plug.Governance.ContentFilter.Outcome.{filter-blocked}
use openclaw_enterprise_plug.Governance.ContentFilter.Termination.{GoesForward}

abbrev exec : String → String → ℕ → Option Match
exec p t zero = some (record { text = ""; last_index = 0 })
exec p t (suc zero) = some (record { text = "k"; last_index = 2 })
exec p t (suc (suc i)) = none

abbrev replace_all : String → String → String → String
replace_all p replacement t = replacement

abbrev two_characters : String → ℕ
two_characters t = 2

ends_at :
    (k : Match) (m : Match) → some k ≡ some m → (k.text ≡ m.text) × (k.last_index ≡ m.last_index)
ends_at k m h = (
  ap (λ o. elim o [ none ↦ "" | some x ↦ x.text ]) h,
  ap (λ o. elim o [ none ↦ 0 | some x ↦ x.last_index ]) h,
)

exec-GoesForward : GoesForward exec two_characters
exec-GoesForward p t zero m h =
    let (e, l) = ends_at (record { text = ""; last_index = 0 }) m h in
    (omega (arith, l), (λ ne. absurd (ne (sym e))), omega (arith, l))
exec-GoesForward p t (suc zero) m h =
    let (e, l) = ends_at (record { text = "k"; last_index = 2 }) m h in
    (omega (arith, l), (λ _. omega (arith, l)), omega (arith, l))
exec-GoesForward p t (suc (suc i)) m h = cc

abbrev rule : String → FilterAction → RegexClassifierRule
rule name action = record {
  name = name;
  pattern_text = "k";
  severity = critical;
  action = action;
  replacement = none;
}

abbrev content : FilterableContent
content = record { text = some "ak"; attachments = "a.pdf" ∷ []; tool_calls = [] }

filter-blocked_example :
    let result =
      filter exec replace_all 3 ((rule "mask" redact ∷ []) ++ rule "secret" block ∷ []) content in
    (result.passed ≡ false) × (result.action ≡ block) × (result.content.text ≡ some "")
filter-blocked_example =
    filter-blocked exec replace_all two_characters exec-GoesForward 3 1 (rule "mask" redact ∷ []) []
      (rule "secret" block) content (omega arith) refl
      (
        record { text = ""; last_index = 0 },
        refl,
        refl,
        (record { text = "k"; last_index = 2 }, refl, λ h. ground (arith, h, eq_iff "k" "")),
      )

redacted_run :
    (filter exec replace_all 3 (rule "mask" redact ∷ []) content).content.text ≡ some "[REDACTED]"
unfolding filter
redacted_run = refl
