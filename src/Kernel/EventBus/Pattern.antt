-- ===== src/Kernel/EventBus/Pattern.antt =====
-- globToRegex of src/kernel-impl/memory/event-bus.ts, and what the regular expression that it makes
-- accepts. The function escapes the characters of regular expressions but for `?`, so that one makes
-- the character before it optional, a second one after it (or one after a `*`) changes nothing, and
-- one more, or one at the start, is an error of syntax.
use Prim.Native.Char.{Char, code}
use Prim.Native.String.{[] as empty, ◌∷◌ as ◌∷ᶜ◌}
use openclaw_enterprise_plug.Common.{
  String, Bool, true, false, ◌&&◌, ◌||◌, not, Option, none, some, List, [], ◌∷◌, ◌==◌,
  if◌then◌else◌, str_eq,
}

-- A character, one that may be missing, and `[^.]*`.
pub data Atom : Type 0 where
  one maybe : Char → Atom
  segment : Atom

-- The atom that was read last: whether a `?` still makes it optional, or only lazy, or is an error.
pub data Last : Type 0 where
  nothing : Last
  plain quantified lazy : Atom → Last

-- `^.+$`, and `^` and `$` around atoms.
pub data Regex : Type 0 where
  line : Regex
  atoms : List Atom → Regex

abbrev pub is_star : Char → Bool
is_star c = code c == 42

abbrev pub is_question : Char → Bool
is_question c = code c == 63

abbrev pub is_dot : Char → Bool
is_dot c = code c == 46

abbrev pub emit : Last → List Atom → List Atom
emit nothing rest = rest
emit (plain a) rest = a ∷ rest
emit (quantified a) rest = a ∷ rest
emit (lazy a) rest = a ∷ rest

-- A `?` after the atom.
abbrev optional : Atom → Atom
optional (one c) = maybe c
optional (maybe c) = maybe c
optional segment = segment

abbrev question : Last → Option Last
question nothing = none
question (plain a) = some (quantified (optional a))
question (quantified a) = some (lazy a)
question (lazy a) = none

abbrev pub begun : Char → Last
begun c = if is_star c then quantified segment else plain (one c)

abbrev emit_into : Last → Option (List Atom) → Option (List Atom)
emit_into l none = none
emit_into l (some rest) = some (emit l rest)

unfoldable pub parse : Last → String → Option (List Atom)
parse l empty = some (emit l [])
parse l (c ∷ᶜ p) =
    let q = is_question c in
    elim (if q then question l else some (begun c)) [
      | none ↦ none
      | some l' ↦ emit_into (if q then nothing else l) (parse l' p)
    ]

-- The result of `globToRegex`, or that `new RegExp` throws.
unfoldable pub glob_to_regex : String → Option Regex
unfolding parse
glob_to_regex pattern =
    if str_eq pattern "*"
    then some line
    else elim (parse nothing pattern) [ none ↦ none | some rest ↦ some (atoms rest) ]

abbrev pub is_empty : String → Bool
is_empty empty = true
is_empty (c ∷ᶜ s) = false

abbrev is_line_end : Char → Bool
is_line_end c = code c == 10 || code c == 13 || code c == 8232 || code c == 8233

-- The text begins with the character and goes on rest the test asks.
abbrev pub takes : Char → (String → Bool) → String → Bool
takes c f empty = false
takes c f (d ∷ᶜ s) = code c == code d && f s

-- After some characters other than `.`, the text goes on rest the test asks.
abbrev pub skips : (String → Bool) → String → Bool
skips f empty = f empty
skips f (c ∷ᶜ s) = f (c ∷ᶜ s) || (not (is_dot c) && skips f s)

abbrev pub test_atoms : List Atom → String → Bool
test_atoms [] s = is_empty s
test_atoms (one c ∷ rest) s = takes c (test_atoms rest) s
test_atoms (maybe c ∷ rest) s = test_atoms rest s || takes c (test_atoms rest) s
test_atoms (segment ∷ rest) s = skips (test_atoms rest) s

abbrev has_no_line_end : String → Bool
has_no_line_end empty = true
has_no_line_end (c ∷ᶜ s) = not (is_line_end c) && has_no_line_end s

-- `regex.test(text)`
unfoldable pub test : Regex → String → Bool
test line s = not (is_empty s) && has_no_line_end s
test (atoms rest) s = test_atoms rest s
