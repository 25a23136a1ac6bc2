-- ===== src/Lint/LineChecks/Sound.antt =====
-- What the checks that look at a line only report.
use ringfile.Prelude.{Option-cases, inl, inr, length, ℕ, zero, suc, ◌+◌, Text, List, [], ◌∷◌, same}
use ringfile.Prelude.Strings.{one_of}
use ringfile.Lint.Categories.{error_categories}
use ringfile.Lint.Nolint.{is_category}
use ringfile.Lint.Regex.{match_re, group_or_empty}
use ringfile.Lint.FileChecks.Guard.{line_at}
use ringfile.Lint.Brackets.{close_expression}
use ringfile.Lint.Conditions.{IsSound, is_sound, sound_rules}
use ringfile.Lint.LineChecks.{
  capture_re, Threading, threading_events, threading_list, check_posix_threading,
  check_vlog_arguments, check_invalid_increment, check_make_pair_uses_deduction,
  check_default_lambda_captures,
}
use ringfile.Lint.LineChecks.Specifiers.{
  specifiers, check_redundant_virtual, check_redundant_override_or_final, std_events,
  flag_cxx11_features,
}

module _ (filename : Text) where
  threading_events-IsSound :
      (line : Text) (linenum : ℕ) (ts : List Threading)
      → IsSound filename (threading_events filename line linenum ts)
  unfolding threading_events is_sound is_category one_of error_categories same
  threading_events-IsSound line linenum [] = search sound_rules
  threading_events-IsSound line linenum (t ∷ ts) =
      let others = threading_events-IsSound line linenum ts in search (sound_rules, others) depth 8

  pub threading-IsSound :
      (line : Text) (linenum : ℕ) → IsSound filename (check_posix_threading filename line linenum)
  unfolding check_posix_threading
  threading-IsSound line linenum = threading_events-IsSound line linenum threading_list

  pub vlog-IsSound :
      (line : Text) (linenum : ℕ) → IsSound filename (check_vlog_arguments filename line linenum)
  unfolding check_vlog_arguments is_sound is_category one_of error_categories same
  vlog-IsSound line linenum = search sound_rules depth 8

  pub increment-IsSound :
      (line : Text) (linenum : ℕ) → IsSound filename (check_invalid_increment filename line linenum)
  unfolding check_invalid_increment is_sound is_category one_of error_categories same
  increment-IsSound line linenum = search sound_rules depth 8

  pub make_pair-IsSound :
      (line : Text) (linenum : ℕ)
      → IsSound filename (check_make_pair_uses_deduction filename line linenum)
  unfolding check_make_pair_uses_deduction is_sound is_category one_of error_categories same
  make_pair-IsSound line linenum = search sound_rules depth 8

  pub captures-IsSound :
      (elided : List Text) (linenum : ℕ)
      → IsSound filename (check_default_lambda_captures filename elided linenum)
  unfolding check_default_lambda_captures is_sound is_category one_of error_categories same
  captures-IsSound elided linenum =
      elim (Option-cases (match_re capture_re (line_at elided linenum))) [
        | inl e ↦ rw (check_default_lambda_captures, e) (search sound_rules)
        | inr (h, e) ↦
            elim (Option-cases (close_expression elided linenum (length (group_or_empty 1 h)))) [
              | inl f ↦ rw (check_default_lambda_captures, e, f) (search sound_rules)
              | inr (place, f) ↦
                  rw (check_default_lambda_captures, e, f) (search sound_rules depth 8)
            ]
      ]

  specifiers-IsSound :
      (linenum n : ℕ) (elided : List Text) (i end_col : ℕ)
      → IsSound filename (specifiers filename linenum n elided i end_col)
  unfolding specifiers is_sound is_category one_of error_categories same
  specifiers-IsSound linenum zero elided i end_col = search sound_rules
  specifiers-IsSound linenum (suc n) elided i end_col =
      let next = specifiers-IsSound linenum n elided (i + 1) 0 in
      search (sound_rules, next) depth 10

  pub virtual-IsSound :
      (elided : List Text) (linenum : ℕ)
      → IsSound filename (check_redundant_virtual filename elided linenum)
  unfolding check_redundant_virtual
  virtual-IsSound elided linenum = search (sound_rules, specifiers-IsSound) depth 8

  pub override-IsSound :
      (line : Text) (linenum : ℕ)
      → IsSound filename (check_redundant_override_or_final filename line linenum)
  unfolding check_redundant_override_or_final is_sound is_category one_of error_categories same
  override-IsSound line linenum = search sound_rules depth 8

  std-IsSound :
      (line : Text) (linenum : ℕ) (names : List Text)
      → IsSound filename (std_events filename line linenum names)
  unfolding std_events is_sound is_category one_of error_categories same
  std-IsSound line linenum [] = search sound_rules
  std-IsSound line linenum (name ∷ names) =
      let others = std-IsSound line linenum names in search (sound_rules, others) depth 8

  pub cxx11-IsSound :
      (line : Text) (linenum : ℕ) → IsSound filename (flag_cxx11_features filename line linenum)
  unfolding flag_cxx11_features is_sound is_category one_of error_categories same
  cxx11-IsSound line linenum = search (sound_rules, std-IsSound) depth 8
