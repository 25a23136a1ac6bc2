-- ===== src/Lint/LineChecks/Runs.antt =====
-- Runs of the checks of lines.
use ringfile.Prelude.{◌≡◌, refl, codes, [], ◌∷◌, All, length, true}
use ringfile.Prelude.Strings.{is_space}
use ringfile.Lint.Regex.{searches, matches, mem}
use ringfile.Lint.FileChecks.Guard.{line_at}
use ringfile.Lint.LineChecks.{
  check_posix_threading, check_vlog_arguments, check_invalid_increment,
  check_make_pair_uses_deduction, check_default_lambda_captures, is_forward_class_declaration,
}
use ringfile.Lint.LineChecks.Listed.{line_checks-IsListed, IsListed}

threading_test :
    length (check_posix_threading (codes "a.cc") (codes "x = rand() + *ctime(t);") 3) ≡ 2
unfolding check_posix_threading searches is_space mem
threading_test = refl

forward_test : is_forward_class_declaration (codes "template <T> class Foo;" ∷ []) 0 ≡ true
unfolding is_forward_class_declaration matches is_space line_at
forward_test = refl

line_checks-IsListed_test :
    All (IsListed 3) (check_posix_threading (codes "a.cc") (codes "x = rand();") 3)
    × All (IsListed 3) (check_vlog_arguments (codes "a.cc") (codes "x = rand();") 3)
    × All (IsListed 3) (check_invalid_increment (codes "a.cc") (codes "x = rand();") 3)
    × All (IsListed 3) (check_make_pair_uses_deduction (codes "a.cc") (codes "x = rand();") 3)
    × All (IsListed 3) (check_default_lambda_captures (codes "a.cc") (codes "x = rand();" ∷ []) 3)
line_checks-IsListed_test =
    line_checks-IsListed (codes "a.cc") (codes "x = rand();") (codes "x = rand();" ∷ []) 3
