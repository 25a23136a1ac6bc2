-- ===== src/Lint/FunctionLengths/Runs.antt =====
-- Runs of the check of function lengths.
use ringfile.Prelude.{◌≡◌, ◌↔◌, ◌≤◌, ◌*◌, ◌^◌, refl, codes, [], ◌∷◌, List, Text, same}
use ringfile.Prelude.Strings.{is_space, is_unicode_space, drop_while}
use ringfile.Lint.Regex.{matches, searches, match_re, search_re, mem, is_word, group_or_empty}
use ringfile.Lint.FileChecks.Guard.{line_at, words_from}
use ringfile.Lint.Function.{init, base_trigger}
use ringfile.Lint.FunctionLengths.{
  kind, opens, ends, blank, counted, find_body, is_starting, function_name, last_word,
}
use ringfile.Lint.FunctionLengths.Bodies.{check_from, check_from-function, IsBody, counted_lines}

abbrev source_lines : List Text
source_lines =
    codes "//" ∷ codes "int f() {" ∷ codes "  return 1;" ∷ codes "" ∷ codes "}" ∷ codes "//" ∷ []

opens_test : kind source_lines 1 ≡ opens (codes "f()")
unfolding kind is_starting find_body function_name last_word matches searches match_re search_re mem
    is_space is_word group_or_empty line_at words_from drop_while is_unicode_space same
opens_test = refl

counted_test : kind source_lines 2 ≡ counted
unfolding kind is_starting matches match_re mem is_space line_at
counted_test = refl

blank_test : kind source_lines 3 ≡ blank
unfolding kind is_starting matches match_re mem is_space line_at
blank_test = refl

ends_test : kind source_lines 4 ≡ ends
unfolding kind is_starting matches match_re mem is_space line_at
ends_test = refl

source_lines-IsBody : IsBody source_lines 2 2
unfolding IsBody kind is_starting matches match_re mem is_space line_at
source_lines-IsBody = (tt, (tt, tt))

check_from-function_example :
    ((check_from 0 (codes "a.cc") source_lines 1 4 init).1 ≡ [])
    ↔ (counted_lines source_lines 2 2 ≤ base_trigger (codes "f()") * 2 ^ 0)
check_from-function_example =
    check_from-function 0 (codes "a.cc") source_lines 1 2 (codes "f()") init opens_test
      source_lines-IsBody ends_test
