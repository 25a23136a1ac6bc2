-- ===== src/Lint/Language/Runs.antt =====
-- Runs of the checks of the use of the language.
use ringfile.Prelude.{◌≡◌, refl, none, some, [], ◌∷◌, codes}
use ringfile.Prelude.Strings.{count, is_space}
use ringfile.Lint.Regex.{matches, searches, search_re, mem}
use ringfile.Lint.FileChecks.{call}
use ringfile.Lint.Brackets.{
  close_expression, is_open, find_end_of_expression_in_line, end_step, after_operator,
}
use ringfile.Lint.Conditions.{IsSound}
use ringfile.Prelude.{All}
use ringfile.Prelude.Strings.{split}
use ringfile.Lint.Constructs.Collapse.{with_commas, IsComplete, IsShortest, collapse-with_commas}
use ringfile.Lint.Constructs.{constructor_args, collapse, collapse_from}
use ringfile.Lint.Language.Calls.{check_printf, text_up_to}
use ringfile.Lint.Language.Casts.{is_dereferenced}
use ringfile.Lint.Language.All.{language_events}
use ringfile.Lint.Language.Sound.{language_events-IsSound}

language_events-IsSound_test : IsSound (codes "a.h") (
    language_events
      (codes "a.h")
      (codes "h")
      (codes "//" ∷ codes "short port; sprintf(s, x); int a[n];" ∷ codes "//" ∷ [])
      1)
language_events-IsSound_test =
    language_events-IsSound (codes "a.h") (codes "h")
      (codes "//" ∷ codes "short port; sprintf(s, x); int a[n];" ∷ codes "//" ∷ []) 1

printf_test :
    check_printf (codes "a.cc") (codes "sprintf(s)") 3
    ≡ call
        (codes "a.cc")
        3
        (codes "runtime/printf")
        5
        (codes "Never use sprintf. Use snprintf instead.")
      ∷ []
unfolding check_printf search_re searches is_space
printf_test = refl

inside_test : text_up_to (b')' ∷ []) (codes "a(), b(c())) + d()") ≡ some (codes "a(), b(c())")
unfolding text_up_to mem
inside_test = refl

-- the arguments of a constructor: a comma between angle brackets ends no argument
collapse_test :
    collapse (codes "map<int" ∷ codes " int> m" ∷ codes " int n" ∷ [])
    ≡ some (codes "map<int, int> m" ∷ codes " int n" ∷ [])
unfolding collapse collapse_from count
collapse_test = refl

-- a comparison in the last argument
collapse_raises : collapse (codes "bool b = c < d" ∷ []) ≡ none
unfolding collapse collapse_from count
collapse_raises = refl

-- a line that ends with the brackets of a cast
dereferenced_raises :
    is_dereferenced (codes "f(&static_cast<int*>" ∷ codes "(x));" ∷ []) 0 14 ≡ none
unfolding is_dereferenced close_expression is_open matches mem find_end_of_expression_in_line
    end_step after_operator searches
dereferenced_raises = refl

split_test :
    collapse (constructor_args (codes "map<int, int> m, int n"))
    ≡ some (codes "map<int, int> m" ∷ codes " int n" ∷ [])
unfolding collapse collapse_from count split
split_test = refl

collapse-with_commas_example :
    (with_commas (codes "map<int, int> m" ∷ codes " int n" ∷ [])
      ≡ b',' ∷ b'm' ∷ codes "ap<int, int> m, int n")
    × All IsComplete (codes "map<int, int> m" ∷ codes " int n" ∷ [])
    × All IsShortest (codes "map<int, int> m" ∷ codes " int n" ∷ [])
collapse-with_commas_example =
    collapse-with_commas b'm' (codes "ap<int, int> m, int n")
      (codes "map<int, int> m" ∷ codes " int n" ∷ []) split_test
