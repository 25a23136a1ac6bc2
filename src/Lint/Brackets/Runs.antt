-- ===== src/Lint/Brackets/Runs.antt =====
-- Runs of the search for brackets.
use ringfile.Prelude.{◌≡◌, refl, true, some, [], ◌∷◌, codes}
use ringfile.Lint.Regex.{searches, matches}
use ringfile.Prelude.Strings.{is_space}
use ringfile.Lint.Brackets.{
  found, find_end_of_expression_in_line, end_step, after_operator, close_expression, somewhere,
  reverse_close_expression, start_step, ge_at, find_start_of_expression_in_line,
}
use ringfile.Lint.Brackets.{is_open, is_close}
use ringfile.Lint.Brackets.Code.{Code, end, plain, nest, round, square, curly, is_plain}
use ringfile.Lint.Brackets.Lines.{close_expression-text, close_expression-text_line}
use ringfile.Lint.Brackets.Forward.{find_end-text}
use ringfile.Lint.Brackets.Backward.{find_start-find_end}
use ringfile.Lint.Brackets.Ends.{close_expression-IsOnLine, IsOnLine}

find_end_test : find_end_of_expression_in_line (codes "f(a[1], b<c) + 1") 1 [] ≡ found 12
unfolding find_end_of_expression_in_line end_step after_operator searches is_space
find_end_test = refl

lines_test :
    close_expression (codes "f(a," ∷ codes "  x->y);" ∷ []) 0 1
    ≡ some (somewhere (codes "  x->y);") 1 7)
unfolding close_expression find_end_of_expression_in_line end_step after_operator searches is_space
    matches
lines_test = refl

back_test :
    reverse_close_expression (codes "f(a," ∷ codes "  x->y);" ∷ []) 1 6
    ≡ some (somewhere (codes "f(a,") 0 1)
unfolding reverse_close_expression find_start_of_expression_in_line start_step after_operator
    searches ge_at is_space matches
back_test = refl

a_is_plain : is_plain b'a' ≡ true
unfolding is_plain is_open is_close
a_is_plain = refl

i_is_plain : is_plain b'i' ≡ true
unfolding is_plain is_open is_close
i_is_plain = refl

comma_is_plain : is_plain b',' ≡ true
unfolding is_plain is_open is_close
comma_is_plain = refl

-- the piece of code a[i],{}
abbrev piece : Code
piece =
    plain b'a' a_is_plain
      (nest square (plain b'i' i_is_plain end) (plain b',' comma_is_plain (nest curly end end)))

close_expression-text_example :
    close_expression
      (codes "//" ∷ codes "f(a[" ∷ codes "i]" ∷ codes ",{}) + (1);" ∷ codes "}" ∷ [])
      1
      1
    ≡ some (somewhere (codes ",{}) + (1);") 3 4)
close_expression-text_example =
    close_expression-text (codes "//" ∷ []) (codes "i]" ∷ []) (codes "}" ∷ []) (codes "f")
      (codes "a[") (codes ",{}") (codes " + (1);") round piece refl

find_start-find_end_example :
    (find_end_of_expression_in_line (codes "f(a[i],{}) < 1") 1 [] ≡ found 10)
    × (find_start_of_expression_in_line (codes "f(a[i],{}) < 1") 10 [] ≡ found 1)
find_start-find_end_example = find_start-find_end (codes "f") (codes " < 1") round piece

find_end-text_test : find_end_of_expression_in_line (codes "f(a[i],{}) < 1") 1 [] ≡ found 10
find_end-text_test = find_end-text (codes "f") (codes " < 1") round piece

close_expression-text_line_test :
    close_expression (codes "//" ∷ codes "f(a[i],{}) < 1" ∷ codes "}" ∷ []) 1 1
    ≡ some (somewhere (codes "f(a[i],{}) < 1") 1 10)
close_expression-text_line_test =
    close_expression-text_line (codes "//" ∷ []) (codes "}" ∷ []) (codes "f") (codes " < 1") round
      piece

close_expression-IsOnLine_example :
    IsOnLine (codes "f(a," ∷ codes "  x->y);" ∷ []) 0 (somewhere (codes "  x->y);") 1 7)
close_expression-IsOnLine_example =
    close_expression-IsOnLine (codes "f(a," ∷ codes "  x->y);" ∷ []) 0 1 lines_test
