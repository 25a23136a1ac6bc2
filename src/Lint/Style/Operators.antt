-- ===== src/Lint/Style/Operators.antt =====
-- CheckOperatorSpacing, CheckParenthesisSpacing, CheckCommaSpacing and CheckAltTokens of
-- tools/cpplint.py.
pub mod AltTokens
pub mod Parentheses
use ringfile.Prelude.{
  ℕ, zero, suc, ◌+◌, Bool, false, not, ◌&&◌, ◌||◌, leb, ◌==◌, Option, none, some, List, [], ◌∷◌,
  ◌++◌, Text, if◌then◌else◌, codes, length, same, map,
}
use ringfile.Prelude.Strings.{is_space}
use ringfile.Lint.Regex.{
  any_word, Re, Hit, match_re, search_re, matches, searches, group_or_empty, all_of, any_of, lit,
  char, sat, space, non_space, spaces, bol, eol, boundary, star, plus, maybe, group, dot, is_word,
  mem,
}
use ringfile.Lint.Report.{Event}
use ringfile.Lint.FileChecks.{call}
use ringfile.Lint.FileChecks.Guard.{line_at}
use ringfile.Lint.Conditions.{when, on, on_or}
use ringfile.Lint.FileChecks.{is_some}
use ringfile.Lint.Brackets.{Place, close_expression, reverse_close_expression}
unfoldable pub use ringfile.Lint.Style.Operators.AltTokens.{
  alt_tokens, lookup, alt_token_re, find_iter, alt_token_events, check_alt_tokens,
}
unfoldable pub use ringfile.Lint.Style.Operators.Parentheses.{
  control_re, is_for_exception, check_parenthesis_spacing, check_comma_spacing,
}

-- r'^(.*\boperator\b)(\S+)(\s*\(.*)$'
abbrev pub operator_method_re : Re
operator_method_re = all_of (
    bol
    ∷ group 1 (all_of (star dot ∷ boundary ∷ lit (codes "operator") ∷ boundary ∷ []))
    ∷ group 2 (plus non_space)
    ∷ group 3 (all_of (spaces ∷ char b'(' ∷ star dot ∷ []))
    ∷ eol
    ∷ [])

-- The names of operator methods are replaced. A round takes away one whole word `operator`, so that as
-- many rounds as characters are enough.
unfoldable pub hide_operators : ℕ → Text → Text
hide_operators zero line = line
hide_operators (suc fuel) line = elim (match_re operator_method_re line) [
  | none ↦ line
  | some h ↦
      hide_operators fuel
        (group_or_empty 1 h ++ map (λ x. b'_') (group_or_empty 2 h) ++ group_or_empty 3 h)
]

-- Whether the bracket has no other end. A bracket that was found on the line gives a place.
abbrev pub is_single : Option Place → Bool
is_single none = false
is_single (some place) = not (is_some place.pos)

-- Angle brackets without spaces on both sides
unfoldable pub angle_events : Text → List Text → Text → ℕ → List Event
angle_events filename elided line linenum =
    on
      (match_re
        (all_of (
          bol
          ∷ group 1 (all_of (star dot ∷ sat (λ x. not (mem x (codes "<") || is_space x)) ∷ []))
          ∷ char b'<'
          ∷ sat (λ x. not (mem x (codes "=<,") || is_space x))
          ∷ []))
        line)
      (λ h.
        when (is_single (close_expression elided linenum (length (group_or_empty 1 h)))) (
          call filename linenum (codes "whitespace/operators") 3 (codes "Missing spaces around <")))
    ++ on
        (match_re
          (all_of (
            bol
            ∷ group 1 (all_of (star dot ∷ sat (λ x. not (mem x (codes "->") || is_space x)) ∷ []))
            ∷ char b'>'
            ∷ sat (λ x. not (mem x (codes "=>,") || is_space x))
            ∷ []))
          line)
        (λ h.
          when (is_single (reverse_close_expression elided linenum (length (group_or_empty 1 h)))) (
            call filename linenum (codes "whitespace/operators") 3
              (codes "Missing spaces around >")))

-- str.isdigit, for ASCII
abbrev pub is_number : Text → Bool
is_number [] = false
is_number (x ∷ []) = leb b'0' x && leb x b'9'
is_number (x ∷ s) = leb b'0' x && leb x b'9' && is_number s

-- r'(operator|\S)(?:L|UL|ULL|l|ul|ull)?<<([^\s,=])'
abbrev pub shift_re : Re
shift_re = all_of (
    group 1 (any_of (lit (codes "operator") ∷ non_space ∷ []))
    ∷ maybe (any_word ("L" ∷ "UL" ∷ "ULL" ∷ "l" ∷ "ul" ∷ "ull" ∷ []))
    ∷ lit (codes "<<")
    ∷ group 2 (sat (λ x. not (mem x (codes ",=") || is_space x)))
    ∷ [])

unfoldable pub is_shift : Hit → Bool
is_shift h =
    let left = group_or_empty 1 h in
    let right = group_or_empty 2 h in
    not (same left (codes "("))
    && not (is_number left && is_number right)
    && not (same left (codes "operator") && same right (codes ";"))

-- CheckOperatorSpacing
unfoldable pub check_operator_spacing : Text → List Text → ℕ → List Event
unfolding hide_operators angle_events is_shift
check_operator_spacing filename elided linenum =
    let original = line_at elided linenum in
    let line = hide_operators (length original) original in
    when
      (searches
          (all_of (
            sat (λ x. mem x (codes ".") || is_word x)
            ∷ char b'='
            ∷ sat (λ x. mem x (codes ".") || is_word x)
            ∷ []))
          line
        && not (
            searches
              (all_of (
                boundary
                ∷ group 1 (any_of (lit (codes "if") ∷ lit (codes "while") ∷ []))
                ∷ char b' '
                ∷ []))
              line))
      (call filename linenum (codes "whitespace/operators") 4 (codes "Missing spaces around ="))
    ++ on_or
        (search_re
          (all_of (
            sat (λ x. not (mem x (codes "<>=!") || is_space x))
            ∷ group 1 (any_word ("==" ∷ "!=" ∷ "<=" ∷ ">=" ∷ "||" ∷ []))
            ∷ sat (λ x. not (mem x (codes "<>=!,;)") || is_space x))
            ∷ []))
          line)
        (λ h.
          call filename linenum (codes "whitespace/operators") 3
            (codes "Missing spaces around " ++ group_or_empty 1 h)
          ∷ [])
        (if matches (all_of (char b'#' ∷ star dot ∷ lit (codes "include") ∷ [])) line
          then []
          else angle_events filename elided line linenum)
    ++ on (search_re shift_re line) (λ h.
      when (is_shift h)
        (call filename linenum (codes "whitespace/operators") 3 (codes "Missing spaces around <<")))
    ++ when
        (searches
          (all_of (
            lit (codes ">>")
            ∷ sat
                (λ x. mem x (codes "_") || (leb b'a' x && leb x b'z') || (leb b'A' x && leb x b'Z'))
            ∷ []))
          line)
        (call filename linenum (codes "whitespace/operators") 3 (codes "Missing spaces around >>"))
    ++ on
        (search_re
          (group 1 (
            any_of (
              all_of (char b'!' ∷ space ∷ [])
              ∷ all_of (char b'~' ∷ space ∷ [])
              ∷ all_of (space ∷ lit (codes "--") ∷ sat (λ x. mem x (codes ";") || is_space x) ∷ [])
              ∷ all_of (space ∷ lit (codes "++") ∷ sat (λ x. mem x (codes ";") || is_space x) ∷ [])
              ∷ [])))
          line)
        (λ h.
          call filename linenum (codes "whitespace/operators") 4
            (codes "Extra space for operator " ++ group_or_empty 1 h)
          ∷ [])
