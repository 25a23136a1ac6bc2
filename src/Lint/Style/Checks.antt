-- ===== src/Lint/Style/Checks.antt =====
-- CheckCheck of tools/cpplint.py: the macros like CHECK that have one for a comparison.
use ringfile.Prelude.{
  ℕ, zero, suc, ◌+◌, ◌-◌, Bool, not, ◌&&◌, ◌||◌, leb, ◌==◌, Option, none, some, List, [], ◌∷◌, ◌++◌,
  Text, if◌then◌else◌, codes, length, drop, take, same,
}
use ringfile.Prelude.Strings.{find, one_of, strip}
use ringfile.Lint.Regex.{
  any_word, Re, match_re, matches, group_or_empty, all_of, any_of, lit, char, in_class, not_in, sat,
  non_space, spaces, bol, eol, boundary, star, plus, maybe, group, dot, digit,
}
use ringfile.Lint.Report.{Event}
use ringfile.Lint.FileChecks.{call}
use ringfile.Lint.FileChecks.Guard.{line_at}
use ringfile.Lint.Conditions.{when, on}
use ringfile.Prelude.Strings.{is_unicode_space}
use ringfile.Lint.FileChecks.{is_some}
use ringfile.Lint.Brackets.{
  Place, found, failed, unclosed, close_expression, find_end_of_expression_in_line,
}

-- _CHECK_MACROS
abbrev pub check_macros : List Text
check_macros =
    codes "DCHECK"
    ∷ codes "CHECK"
    ∷ codes "EXPECT_TRUE_M"
    ∷ codes "EXPECT_TRUE"
    ∷ codes "ASSERT_TRUE_M"
    ∷ codes "ASSERT_TRUE"
    ∷ codes "EXPECT_FALSE_M"
    ∷ codes "EXPECT_FALSE"
    ∷ codes "ASSERT_FALSE_M"
    ∷ codes "ASSERT_FALSE"
    ∷ []

-- The names of comparisons, for a condition that should hold and for one that should not.
abbrev pub comparison : Text → Text × Text
comparison op =
    if same op (codes "==")
    then (codes "EQ", codes "NE")
    else if same op (codes "!=")
    then (codes "NE", codes "EQ")
    else if same op (codes ">=")
    then (codes "GE", codes "LT")
    else if same op (codes ">")
    then (codes "GT", codes "LE")
    else if same op (codes "<=")
    then (codes "LE", codes "GT")
    else (codes "LT", codes "GE")

-- _CHECK_REPLACEMENT
unfoldable pub check_replacement : Text → Text → Text
check_replacement macro op =
    let (name, inverse) = comparison op in
    if same macro (codes "DCHECK")
    then codes "DCHECK_" ++ name
    else if same macro (codes "CHECK")
    then codes "CHECK_" ++ name
    else if same macro (codes "EXPECT_TRUE")
    then codes "EXPECT_" ++ name
    else if same macro (codes "ASSERT_TRUE")
    then codes "ASSERT_" ++ name
    else if same macro (codes "EXPECT_TRUE_M")
    then codes "EXPECT_" ++ name ++ codes "_M"
    else if same macro (codes "ASSERT_TRUE_M")
    then codes "ASSERT_" ++ name ++ codes "_M"
    else if same macro (codes "EXPECT_FALSE")
    then codes "EXPECT_" ++ inverse
    else if same macro (codes "ASSERT_FALSE")
    then codes "ASSERT_" ++ inverse
    else if same macro (codes "EXPECT_FALSE_M")
    then codes "EXPECT_" ++ inverse ++ codes "_M"
    else codes "ASSERT_" ++ inverse ++ codes "_M"

-- FindCheckMacro
unfoldable pub find_check_macro : List Text → Text → Option (Text × ℕ)
find_check_macro [] line = none
find_check_macro (macro ∷ macros) line =
    let others = find_check_macro macros line in
    let here =
      match_re
        (all_of
          (bol ∷ group 1 (all_of (star dot ∷ boundary ∷ lit macro ∷ spaces ∷ [])) ∷ char b'(' ∷ []))
        line in
    if not (is_some (find line macro))
    then others
    else elim here [ none ↦ others | some h ↦ some (macro, length (group_or_empty 1 h)) ]

-- The lines of the numbers from one on, joined.
abbrev pub lines_between : List Text → ℕ → ℕ → Text
lines_between lines zero i = []
lines_between lines (suc n) i = line_at lines i ++ lines_between lines n (i + 1)

-- What stands between the parentheses, which end at the place, the column being end_pos.
unfoldable pub condition_of : List Text → ℕ → ℕ → Place → ℕ → Text
condition_of lines linenum start_pos place end_pos =
    let line = line_at lines linenum in
    if linenum == place.linenum
    then drop (start_pos + 1) (take (end_pos - 1) line)
    else drop (start_pos + 1) line
      ++ lines_between lines (place.linenum - (linenum + 1)) (linenum + 1)
      ++ take (end_pos - 1) place.line

-- r'^\s*(<<|<<=|>>|>>=|->\*|->|&&|\|\||==|!=|>=|>|<=|<|\()(.*)$'
abbrev pub token_re : Re
token_re = all_of (
    bol
    ∷ spaces
    ∷ group 1 (
        any_word (
          "<<" ∷ "<<=" ∷ ">>" ∷ ">>=" ∷ "->*" ∷ "->" ∷ "&&" ∷ "||" ∷ "==" ∷ "!=" ∷ ">=" ∷ ">" ∷ "<="
          ∷ "<" ∷ "(" ∷ []))
    ∷ group 2 (star dot)
    ∷ eol
    ∷ [])

abbrev pub stream_tokens : List Text
stream_tokens = codes "<<" ∷ codes "<<=" ∷ codes ">>" ∷ codes ">>=" ∷ codes "->*" ∷ codes "->" ∷ []

-- The text in front of the first token, or one character
unfoldable pub skip_plain : Text → Option (Text × Text)
skip_plain expression =
    elim (match_re
      (all_of (bol ∷ group 1 (plus (not_in (codes "-=!<>()&|"))) ∷ group 2 (star dot) ∷ eol ∷ []))
      expression) [
        | some h ↦ some (group_or_empty 1 h, group_or_empty 2 h)
        | none ↦
            elim (match_re
              (all_of
                (bol ∷ group 1 (all_of (spaces ∷ non_space ∷ [])) ∷ group 2 (star dot) ∷ eol ∷ []))
              expression) [ some h ↦ some (group_or_empty 1 h, group_or_empty 2 h) | none ↦ none ]
      ]

-- The condition is taken apart at its comparison: the left side, the operator and the right side. A
-- round takes a character at least, so that as many rounds as characters are enough. `none` is that
-- there is no comparison that can be replaced.
unfoldable pub parse_condition : ℕ → Text → Text → Option (Text × Text × Text)
unfolding skip_plain
parse_condition zero lhs expression = none
parse_condition (suc fuel) lhs [] = none
parse_condition (suc fuel) lhs (x ∷ s) = elim (match_re token_re (x ∷ s)) [
  | none ↦ elim (skip_plain (x ∷ s)) [
    | none ↦ none
    | some (plain, rest) ↦ parse_condition fuel (lhs ++ plain) rest
  ]
  | some h ↦
      let token = group_or_empty 1 h in
      let rest = group_or_empty 2 h in
      let after_shift = parse_condition fuel (lhs ++ token) rest in
      let after_nest : Option (Text × Text × Text) =
        elim (find_end_of_expression_in_line rest 0 (b'(' ∷ [])) [
          | found end ↦ parse_condition fuel (lhs ++ codes "(" ++ take end rest) (drop end rest)
          | failed ↦ none
          | unclosed st ↦ none
        ] in
      if same token (codes "(")
      then after_nest
      else if same token (codes "&&") || same token (codes "||")
      then none
      else if one_of token stream_tokens
      then after_shift
      else some (lhs, token, rest)
]

-- r'^([-+]?(\d+|0[xX][0-9a-fA-F]+)[lLuU]{0,3}|".*"|\'.*\')$'
abbrev pub constant_re : Re
constant_re = all_of (
    bol
    ∷ group 1 (
        any_of (
          all_of (
            (all_of (
              maybe (in_class (codes "-+"))
              ∷ group 1 (
                  any_of (
                    plus digit
                    ∷ all_of (
                        char b'0'
                        ∷ in_class (codes "xX")
                        ∷ plus (
                            sat (λ x.
                              (leb b'0' x && leb x b'9')
                              || (leb b'a' x && leb x b'f')
                              || (leb b'A' x && leb x b'F')))
                        ∷ [])
                    ∷ []))
              ∷ []))
            ∷ maybe (in_class (codes "lLuU"))
            ∷ maybe (in_class (codes "lLuU"))
            ∷ maybe (in_class (codes "lLuU"))
            ∷ [])
          ∷ (all_of (char b'"' ∷ star dot ∷ char b'"' ∷ []))
          ∷ (all_of (char b'\'' ∷ star dot ∷ char b'\'' ∷ []))
          ∷ []))
    ∷ eol
    ∷ [])

abbrev pub is_constant : Text → Bool
is_constant t = matches constant_re (strip is_unicode_space t)

-- A comparison with a constant
unfoldable pub is_replaceable : Text → Text → Bool
is_replaceable lhs rhs =
    not (same lhs [])
    && not (same rhs [])
    && not (is_some (find rhs (codes "&&")))
    && not (is_some (find rhs (codes "||")))
    && (is_constant lhs || is_constant rhs)

-- CheckCheck
unfoldable pub check_check : Text → List Text → ℕ → List Event
unfolding find_check_macro condition_of parse_condition is_replaceable check_replacement
check_check filename lines linenum =
    on (find_check_macro check_macros (line_at lines linenum)) (λ m.
      on (close_expression lines linenum m.1) (λ place. on place.pos (λ end_pos.
        let expression = condition_of lines linenum m.1 place end_pos in
        if not (matches (all_of (spaces ∷ char b';' ∷ [])) (drop end_pos place.line))
        then []
        else on (parse_condition (length expression) [] expression) (λ p.
          let (lhs, operator, rhs) = p in
          when (is_replaceable lhs rhs) (
            call filename linenum (codes "readability/check") 2 (
              codes "Consider using "
              ++ check_replacement m.0 operator
              ++ codes " instead of "
              ++ m.0
              ++ codes "(a "
              ++ operator
              ++ codes " b)"))))))
