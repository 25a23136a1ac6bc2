-- ===== src/Lint/Nolint/Sound.antt =====
-- What ParseNolintSuppressions reports.
use ringfile.Prelude.{ℕ, Option, none, some, Text, same, inl, inr, Option-cases}
use ringfile.Prelude.Strings.{one_of}
use ringfile.Lint.Categories.{error_categories}
use ringfile.Lint.Regex.{search_re}
use ringfile.Lint.Report.{suppress}
use ringfile.Lint.Nolint.{nolint_re, is_category, nolint_events, parse_nolint_suppressions}
use ringfile.Lint.Conditions.{IsSound, IsSoundReport, is_sound, sound_rules}

module _ (filename : Text) where
  suppress-IsSound : (key : Option Text) (line : ℕ) → IsSoundReport filename (suppress key line)
  unfolding IsSoundReport
  suppress-IsSound key line = tt

  nolint_events-IsSound :
      (linenum line : ℕ) (o : Option Text)
      → IsSound filename (nolint_events filename linenum line o)
  unfolding nolint_events is_sound is_category one_of error_categories same
  nolint_events-IsSound linenum line none = search (sound_rules, suppress-IsSound)
  nolint_events-IsSound linenum line (some category) =
      search (sound_rules, suppress-IsSound) depth 10

  pub nolint-IsSound :
      (raw_line : Text) (linenum : ℕ)
      → IsSound filename (parse_nolint_suppressions filename raw_line linenum)
  unfolding parse_nolint_suppressions
  nolint-IsSound raw_line linenum = elim (Option-cases (search_re nolint_re raw_line)) [
    | inl e ↦ rw (parse_nolint_suppressions, e) (search sound_rules)
    | inr (h, e) ↦ rw (parse_nolint_suppressions, e) (nolint_events-IsSound linenum _ _)
  ]
