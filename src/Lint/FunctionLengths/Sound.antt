-- ===== src/Lint/FunctionLengths/Sound.antt =====
-- What CheckForFunctionLengths reports.
use ringfile.Prelude.{ℕ, true, List, Text, same, ◌≡◌, arith, codes}
use ringfile.Prelude.Strings.{one_of}
use ringfile.Lint.Categories.{error_categories}
use ringfile.Lint.Nolint.{is_category}
use ringfile.Lint.Conditions.{IsSound, is_sound, sound_rules}
use ringfile.Lint.Function.{FunctionState, error_level, check}
use ringfile.Lint.FunctionLengths.{
  Kind, opens, declares, unfound, ends, counted, blank, act, kind, check_for_function_lengths,
}

error_level-is_sound :
    (lines base : ℕ) → is_sound (codes "readability/fn_size") (error_level lines base) ≡ true
unfolding is_sound is_category one_of error_categories same error_level
error_level-is_sound lines base = ground arith

module _ (filename : Text) where
  check-IsSound :
      (verbose linenum : ℕ) (s : FunctionState)
      → IsSound filename (check verbose filename linenum s)
  unfolding check
  check-IsSound verbose linenum s = search (sound_rules, error_level-is_sound)

  act-IsSound :
      (verbose linenum : ℕ) (k : Kind) (s : FunctionState)
      → IsSound filename (act verbose filename linenum k s).1
  unfolding act is_sound is_category one_of error_categories same
  act-IsSound verbose linenum (opens name) s = search sound_rules
  act-IsSound verbose linenum declares s = search sound_rules
  act-IsSound verbose linenum unfound s = search sound_rules
  act-IsSound verbose linenum ends s = check-IsSound verbose linenum s
  act-IsSound verbose linenum counted s = search sound_rules
  act-IsSound verbose linenum blank s = search sound_rules

  pub lengths-IsSound :
      (verbose : ℕ) (lines : List Text) (linenum : ℕ) (s : FunctionState)
      → IsSound filename (check_for_function_lengths verbose filename lines linenum s).1
  unfolding check_for_function_lengths
  lengths-IsSound verbose lines linenum s = act-IsSound verbose linenum (kind lines linenum) s
