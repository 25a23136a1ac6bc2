-- ===== src/Lint/Style/Operators/Parentheses.antt =====
-- CheckParenthesisSpacing and CheckCommaSpacing of tools/cpplint.py.
use ringfile.Prelude.{
  ℕ, ◌+◌, Bool, not, ◌&&◌, ◌||◌, leb, ◌==◌, List, [], ◌∷◌, ◌++◌, Text, codes, length, same,
}
use ringfile.Prelude.Strings.{is_space}
use ringfile.Lint.Regex.{
  any_word, Re, Hit, search_re, replace_all, searches, group_or_empty, all_of, lit, char, not_in,
  sat, spaces, eol, boundary, star, plus, group, dot, mem,
}
use ringfile.Lint.Report.{Event}
use ringfile.Lint.FileChecks.{call}
use ringfile.Lint.Conditions.{when, on}

-- r'\b(if|for|while|switch)\s*\(([ ]*)(.).*[^ ]+([ ]*)\)\s*{\s*$'
abbrev pub control_re : Re
control_re = all_of (
    boundary
    ∷ group 1 (any_word ("if" ∷ "for" ∷ "while" ∷ "switch" ∷ []))
    ∷ spaces
    ∷ char b'('
    ∷ group 2 (star (char b' '))
    ∷ group 3 dot
    ∷ star dot
    ∷ plus (not_in (codes " "))
    ∷ group 4 (star (char b' '))
    ∷ char b')'
    ∷ spaces
    ∷ char b'{'
    ∷ spaces
    ∷ eol
    ∷ [])

-- The empty parts of the head of a for loop
unfoldable pub is_for_exception : Text → Hit → Bool
is_for_exception line h =
    (same (group_or_empty 3 h) (codes ";")
      && length (group_or_empty 2 h) == 1 + length (group_or_empty 4 h))
    || (same (group_or_empty 2 h) []
        && searches
            (all_of (
              boundary
              ∷ lit (codes "for")
              ∷ spaces
              ∷ char b'('
              ∷ star dot
              ∷ lit (codes "; )")
              ∷ []))
            line)

-- CheckParenthesisSpacing
unfoldable pub check_parenthesis_spacing : Text → Text → ℕ → List Event
unfolding is_for_exception
check_parenthesis_spacing filename line linenum =
    on
      (search_re
        (all_of (char b' ' ∷ group 1 (any_word ("if(" ∷ "for(" ∷ "while(" ∷ "switch(" ∷ [])) ∷ []))
        line)
      (λ h.
        call filename linenum (codes "whitespace/parens") 5
          (codes "Missing space before ( in " ++ group_or_empty 1 h)
        ∷ [])
    ++ on (search_re control_re line) (λ h.
      when
        (not (length (group_or_empty 2 h) == length (group_or_empty 4 h))
          && not (is_for_exception line h))
        (call filename linenum (codes "whitespace/parens") 5
          (codes "Mismatching spaces inside () in " ++ group_or_empty 1 h))
      ++ when (leb 2 (length (group_or_empty 2 h))) (
          call filename linenum (codes "whitespace/parens") 5
            (codes "Should have zero or one spaces inside ( and ) in " ++ group_or_empty 1 h)))

-- CheckCommaSpacing, at an elided line and the line without raw strings.
unfoldable pub check_comma_spacing : Text → Text → Text → ℕ → List Event
check_comma_spacing filename raw line linenum =
    when
      (searches (all_of (char b',' ∷ sat (λ x. not (mem x (codes ",") || is_space x)) ∷ [])) (
          replace_all
            (all_of
              (boundary ∷ lit (codes "operator") ∷ spaces ∷ char b',' ∷ spaces ∷ char b'(' ∷ []))
            (λ h. codes "F(") line)
        && searches (all_of (char b',' ∷ sat (λ x. not (mem x (codes ",") || is_space x)) ∷ []))
            raw)
      (call filename linenum (codes "whitespace/comma") 3 (codes "Missing space after ,"))
    ++ when
        (searches (all_of (char b';' ∷ sat (λ x. not (mem x (codes "};\\)/") || is_space x)) ∷ []))
          line)
        (call filename linenum (codes "whitespace/semicolon") 3 (codes "Missing space after ;"))
