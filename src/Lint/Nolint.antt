-- ===== src/Lint/Nolint.antt =====
-- ParseNolintSuppressions of tools/cpplint.py.
pub mod Known
mod Runs
pub mod Sound
use ringfile.Prelude.{
  ℕ, ◌+◌, ◌-◌, Bool, true, false, ◌&&◌, Option, none, some, List, [], ◌∷◌, ◌++◌, Text,
  if◌then◌else◌, codes, same, map, drop, take, length, starts_with,
}
use ringfile.Prelude.Strings.{one_of, ends_with}
use ringfile.Lint.Regex.{
  Re, search_re, Hit, group_of, all_of, lit, boundary, maybe, group, plus, not_in, char,
}
use ringfile.Lint.Report.{Event, report, suppress}
use ringfile.Lint.Categories.{error_categories}

-- r'\bNOLINT(NEXTLINE)?\b(\([^)]+\))?'
abbrev pub nolint_re : Re
nolint_re = all_of (
    boundary
    ∷ lit (codes "NOLINT")
    ∷ maybe (group 1 (lit (codes "NEXTLINE")))
    ∷ boundary
    ∷ maybe (group 2 (all_of (char b'(' ∷ plus (not_in (codes ")")) ∷ char b')' ∷ [])))
    ∷ [])

-- s[1:-1]
unfoldable pub inner : Text → Text
inner s = take (length s - 2) (drop 1 s)

unfoldable pub is_category : Text → Bool
is_category category = one_of category (map codes error_categories)

-- The line that is meant, and what follows the word NOLINT.
unfoldable pub nolint_events : Text → ℕ → ℕ → Option Text → List Event
unfolding inner
nolint_events filename linenum line none = suppress none line ∷ []
nolint_events filename linenum line (some category) =
    if same category (codes "(*)")
    then suppress none line ∷ []
    else if starts_with category (codes "(") && ends_with category (codes ")")
    then (if is_category (inner category)
        then suppress (some (inner category)) line ∷ []
        else report (record {
          filename = filename;
          linenum = linenum;
          category = codes "readability/nolint";
          confidence = 5;
          message = codes "Unknown NOLINT error category: " ++ inner category;
        })
          ∷ [])
    else []

unfoldable pub parse_nolint_suppressions : Text → Text → ℕ → List Event
unfolding nolint_events
parse_nolint_suppressions filename raw_line linenum = elim (search_re nolint_re raw_line) [
  | none ↦ []
  | some h ↦
      nolint_events filename linenum
        (elim (group_of 1 h.groups) [ some next ↦ linenum + 1 | none ↦ linenum ])
        (group_of 2 h.groups)
]
