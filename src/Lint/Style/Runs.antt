-- ===== src/Lint/Style/Runs.antt =====
-- Runs of the checks of the style of a line.
use ringfile.Prelude.{◌≡◌, refl, false, none, List, [], ◌∷◌, Text, codes, length, same}
use ringfile.Prelude.Strings.{find, is_space, one_of}
use ringfile.Lint.Regex.{matches, searches, search_re, group_or_empty, mem}
use ringfile.Lint.FileChecks.{call, is_some}
use ringfile.Lint.Cleanse.{CleansedLines}
use ringfile.Lint.Outcomes.{IsSoundOption}
use ringfile.Lint.Nesting.Stack.{init}
use ringfile.Lint.Style.Comments.{check_spacing_for_function_call}
use ringfile.Lint.Style.Operators.{check_parenthesis_spacing, check_alt_tokens}
use ringfile.Lint.FileChecks.Guard.{line_at}
use ringfile.Lint.Style.Rvalues.{check_rvalue_reference}
use ringfile.Lint.Style.All.{check_style}
use ringfile.Lint.Style.Sound.{check_style-IsSound}

abbrev lines_of : List Text → CleansedLines
lines_of lines = record {
  elided = lines;
  lines = lines;
  raw_lines = lines;
  num_lines = length lines;
  lines_without_raw_strings = lines;
}

abbrev code : CleansedLines
code = lines_of (codes "//" ∷ codes "  if(x==1){f( x) ;}" ∷ codes "//" ∷ [])

-- the checks, with the data of ASCII
check_style-IsSound_test : IsSoundOption (codes "a.cc") (
    check_style
      (λ s. s)
      (λ x. false)
      (λ x. false)
      (codes "A_H_")
      (codes "a.cc")
      code
      1
      (codes "cc")
      init
      80)
check_style-IsSound_test =
    check_style-IsSound (codes "a.cc") (λ s. s) (λ x. false) (λ x. false) (codes "A_H_") code 1
      (codes "cc") init 80

parenthesis_test :
    check_parenthesis_spacing (codes "a.cc") (codes " if(x) {") 3
    ≡ call (codes "a.cc") 3 (codes "whitespace/parens") 5 (codes "Missing space before ( in if(")
      ∷ []
unfolding check_parenthesis_spacing search_re group_or_empty is_space mem
parenthesis_test = refl

alt_token_test :
    check_alt_tokens (codes "a.cc") (codes "if (a and (b))") 3
    ≡ call
        (codes "a.cc")
        3
        (codes "readability/alt_tokens")
        2
        (codes "Use operator && instead of and")
      ∷ []
unfolding check_alt_tokens matches is_space is_some find mem same group_or_empty
alt_token_test = refl

call_test :
    check_spacing_for_function_call (codes "a.cc") (codes "f( x)") 3
    ≡ call
        (codes "a.cc")
        3
        (codes "whitespace/parens")
        4
        (codes "Extra space after ( in function call")
      ∷ []
unfolding check_spacing_for_function_call searches is_space mem
call_test = refl

-- IsRValueType does not end for a&&b below the beginning of a declaration.
endless_test :
    check_rvalue_reference (codes "a.cc") (codes "int64 foo(" ∷ codes "    a&&b" ∷ []) 1 init ≡ none
unfolding check_rvalue_reference search_re searches matches group_or_empty is_space mem find is_some
    same line_at one_of
endless_test = refl
