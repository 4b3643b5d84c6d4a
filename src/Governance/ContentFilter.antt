-- ===== src/Governance/ContentFilter.antt =====
-- src/governance/data-protection: the types of content-filter.ts and the filter of
-- impl/regex-classifier.ts. The engine of regular expressions is a parameter: what `exec` finds in a
-- text from a position on, and what `replace` of all matches answers. A pattern is a text, which is
-- always made global, as `globalPattern` does. Attachments and calls of tools are names.
mod Outcome
mod Termination
mod Tests
use openclaw_enterprise_plug.Common.{
  ℕ, zero, suc, ◌+◌, String, Bool, true, false, Option, none, some, List, [], ◌∷◌, ◌++◌, map, ltb,
  str_eq, if◌then◌else◌, or_else, append,
}

pub data FilterAction : Type 0 where
  allow redact review block : FilterAction

abbrev pub action_rank : FilterAction → ℕ
action_rank allow = 0
action_rank redact = 1
action_rank review = 2
action_rank block = 3

pub data Severity : Type 0 where
  info warning critical : Severity

pub record RegexClassifierRule : Type 0 where
  pub name : String
  pub pattern_text : String
  pub severity : Severity
  pub action : FilterAction
  pub replacement : Option String

pub record FilterViolation : Type 0 where
  pub rule : String
  pub severity : Severity
  pub description : String
  pub matched_content : String

pub record FilterableContent : Type 0 where
  pub text : Option String
  pub attachments : List String
  pub tool_calls : List String

pub record FilterResult : Type 0 where
  pub passed : Bool
  pub content : FilterableContent
  pub violations : List FilterViolation
  pub action : FilterAction

-- A match: its text and the position behind it, which `exec` leaves in `lastIndex`.
pub record Match : Type 0 where
  pub text : String
  pub last_index : ℕ

abbrev pub violation : RegexClassifierRule → String → FilterViolation
violation rule matched = record {
  rule = rule.name;
  severity = rule.severity;
  description = append "Content matched rule \"" (append rule.name "\"");
  matched_content = matched;
}

-- The violations so far, with the worst action.
abbrev pub Findings : Type 0
Findings = List FilterViolation × FilterAction

abbrev pub noted : RegexClassifierRule → String → Findings → Findings
noted rule matched (vs, worst) = (
  vs ++ violation rule matched ∷ [],
  if ltb (action_rank worst) (action_rank rule.action) then rule.action else worst,
)

module _ (exec : String → String → ℕ → Option Match)
    (replace_all : String → String → String → String) where
  abbrev pub matched :
      (ℕ → Findings → Findings) → RegexClassifierRule → Option Match → Findings → Findings
  matched next rule none f = f
  matched next rule (some m) f =
      if str_eq m.text ""
      then next (suc m.last_index) f
      else next m.last_index (noted rule m.text f)

  -- The loop over the matches of a rule from a position on, on fuel.
  abbrev pub scan_rule : ℕ → RegexClassifierRule → String → ℕ → Findings → Findings
  scan_rule zero rule text i f = f
  scan_rule (suc fuel) rule text i f =
      matched (λ j g. scan_rule fuel rule text j g) rule (exec rule.pattern_text text i) f

  abbrev pub scan_rules : ℕ → List RegexClassifierRule → String → Findings → Findings
  scan_rules fuel [] text f = f
  scan_rules fuel (r ∷ rs) text f = scan_rules fuel rs text (scan_rule fuel r text 0 f)

  abbrev pub is_redact : FilterAction → Bool
  is_redact redact = true
  is_redact _ = false

  abbrev pub redacted : List RegexClassifierRule → String → String
  redacted [] text = text
  redacted (r ∷ rs) text =
      if is_redact r.action
      then redacted rs (replace_all r.pattern_text (or_else r.replacement "[REDACTED]") text)
      else redacted rs text

  abbrev pub verdict : List RegexClassifierRule → FilterableContent → Findings → FilterResult
  verdict rules c ([], worst) = record {
    passed = true;
    content = c;
    violations = [];
    action = allow;
  }
  verdict rules c (v ∷ vs, block) = record {
    passed = false;
    content = record { text = some ""; attachments = []; tool_calls = [] };
    violations = v ∷ vs;
    action = block;
  }
  verdict rules c (v ∷ vs, review) = record {
    passed = false;
    content = c;
    violations = v ∷ vs;
    action = review;
  }
  verdict rules c (v ∷ vs, redact) = record {
    passed = true;
    content = record c { text = some (redacted rules (or_else c.text "")) };
    violations = v ∷ vs;
    action = redact;
  }
  verdict rules c (v ∷ vs, allow) = record {
    passed = true;
    content = c;
    violations = v ∷ vs;
    action = allow;
  }

  unfoldable pub filter : ℕ → List RegexClassifierRule → FilterableContent → FilterResult
  filter fuel rules c = verdict rules c (scan_rules fuel rules (or_else c.text "") ([], allow))
