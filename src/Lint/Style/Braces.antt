-- ===== src/Lint/Style/Braces.antt =====
-- CheckBracesSpacing, CheckBraces, CheckTrailingSemicolon and CheckEmptyBlockBody of tools/cpplint.py.
use ringfile.Prelude.{
  ℕ, zero, suc, ◌+◌, ◌-◌, Bool, true, false, not, ◌&&◌, ◌||◌, ltb, leb, ◌==◌, Option, none, some,
  List, [], ◌∷◌, ◌++◌, Text, if◌then◌else◌, codes, length, drop,
}
use ringfile.Prelude.Strings.{find, find_from, is_space}
use ringfile.Lint.Regex.{
  Hit, match_re, search_re, matches, searches, group_or_empty, all_of, any_of, lit, char, in_class,
  not_in, sat, space, spaces, bol, eol, boundary, star, plus, maybe, group, dot, mem,
}
use ringfile.Lint.Report.{Event}
use ringfile.Lint.FileChecks.{call, get_indent_level}
use ringfile.Lint.FileChecks.Guard.{line_at}
use ringfile.Lint.Conditions.{when, on, on_or}
use ringfile.Lint.FileChecks.{is_some}
use ringfile.Lint.Brackets.{Place, close_expression}
use ringfile.Lint.Style.Blank.{get_previous_non_blank_line}

-- The lines from the one of a number on, and before another, one behind the other.
abbrev pub joined : List Text → ℕ → ℕ → Text
joined elided zero i = []
joined elided (suc n) i = line_at elided i ++ joined elided n (i + 1)

-- min(a, b)
abbrev pub lesser : ℕ → ℕ → ℕ
lesser a b = if leb a b then a else b

-- What stands behind the closing brace, with the two lines that follow.
unfoldable pub trailing_text : List Text → Place → Text
trailing_text elided place =
    let from = place.linenum + 1 in
    elim place.pos [ none ↦ [] | some endpos ↦ drop endpos place.line ]
    ++ joined elided (lesser (place.linenum + 3) (length elided - 1) - from) from

-- CheckBracesSpacing
unfoldable pub check_braces_spacing : Text → List Text → ℕ → List Event
unfolding trailing_text
check_braces_spacing filename elided linenum =
    let line = line_at elided linenum in
    let semicolon =
      λ (message : Text). call filename linenum (codes "whitespace/semicolon") 5 message in
    on
      (match_re
        (all_of (bol ∷ group 1 (all_of (star dot ∷ not_in (codes " ({") ∷ [])) ∷ char b'{' ∷ []))
        line)
      (λ h. on (close_expression elided linenum (length (group_or_empty 1 h))) (λ place.
        when
          (not (
            matches
              (all_of (
                bol
                ∷ star (sat (λ x. mem x (codes "}") || is_space x))
                ∷ in_class (codes "{.;,)<>]:")
                ∷ []))
              (trailing_text elided place)))
          (call filename linenum (codes "whitespace/braces") 5 (codes "Missing space before {"))))
    ++ when (searches (lit (codes "}else")) line)
        (call filename linenum (codes "whitespace/braces") 5 (codes "Missing space before else"))
    ++ (if searches (all_of (char b':' ∷ spaces ∷ char b';' ∷ spaces ∷ eol ∷ [])) line
        then semicolon (codes "Semicolon defining empty statement. Use {} instead.") ∷ []
        else if searches (all_of (bol ∷ spaces ∷ char b';' ∷ spaces ∷ eol ∷ [])) line
        then semicolon (
            codes "Line contains only semicolon. If this should be an empty statement, "
            ++ codes "use {} instead.")
          ∷ []
        else when
            (searches (all_of (plus space ∷ char b';' ∷ spaces ∷ eol ∷ [])) line
              && not (searches (all_of (boundary ∷ lit (codes "for") ∷ boundary ∷ [])) line))
            (semicolon (
              codes "Extra space before last semicolon. If this should be an empty "
              ++ codes "statement, use {} instead.")))

-- line[pos:], where the -1 of Python is the last character
abbrev pub from_pos : Text → Option ℕ → Text
from_pos line none = drop (length line - 1) line
from_pos line (some pos) = drop pos line

-- The braces around an `else if`
unfoldable pub else_if_events : Text → List Text → Text → ℕ → List Event
else_if_events filename elided line linenum =
    let brace_on_left =
      searches (all_of (char b'}' ∷ spaces ∷ lit (codes "else if") ∷ spaces ∷ char b'(' ∷ []))
        line in
    on (find line (codes "else if")) (λ start. on (find_from start line (codes "(")) (λ pos.
      on (close_expression elided linenum pos) (λ place.
        let brace_on_right = is_some (find (from_pos place.line place.pos) (codes "{")) in
        when ((brace_on_left && not brace_on_right) || (not brace_on_left && brace_on_right)) (
          call filename linenum (codes "readability/braces") 5
            (codes "If an else has a brace on one side, it should have it on both")))))

-- The first of the lines with a semicolon, the first one behind a position, with its number.
unfoldable pub semicolon_line : List Text → ℕ → Option ℕ → Option (ℕ × Text)
semicolon_line [] i pos = none
semicolon_line (line ∷ lines) i pos =
    let rest = semicolon_line lines (i + 1) (some 0) in
    if is_some (find (from_pos line pos) (codes ";")) then some (i, line) else rest

-- A body that ends with the semicolon on the line of a number: `condition` is whether there is an if.
unfoldable pub body_events : Text → List Text → ℕ → ℕ → Bool → ℕ → Text → List Event
body_events filename elided linenum if_indent condition endlinenum endline =
    let next_line = line_at elided (endlinenum + 1) in
    let next_indent = get_indent_level next_line in
    let braces = λ (message : Text). call filename linenum (codes "readability/braces") 4 message in
    if not (
      matches
        (all_of (
          char b';'
          ∷ star (sat (λ x. mem x (codes "}") || is_space x))
          ∷ group 1 (maybe (char b'\\'))
          ∷ eol
          ∷ []))
        (from_pos endline (find endline (codes ";"))))
    then when
        (not (
          matches
            (all_of (
              bol
              ∷ star (not_in (codes "{};"))
              ∷ char b'['
              ∷ star (not_in (codes "[]"))
              ∷ char b']'
              ∷ star (not_in (codes "{}"))
              ∷ char b'{'
              ∷ star (not_in (codes "{}"))
              ∷ char b'}'
              ∷ spaces
              ∷ star (char b')')
              ∷ in_class (codes ";,")
              ∷ spaces
              ∷ eol
              ∷ []))
            endline))
        (braces (codes "If/else bodies with multiple statements require braces"))
    else if not (ltb endlinenum (length elided - 1))
    then []
    else if condition
        && matches (all_of (spaces ∷ lit (codes "else") ∷ boundary ∷ [])) next_line
        && not (next_indent == if_indent)
    then braces (
        codes "Else clause should be indented at the same level as if. "
        ++ codes "Ambiguous nested if/else chains require braces.")
      ∷ []
    else when (ltb if_indent next_indent)
        (braces (codes "If/else bodies with multiple statements require braces"))

-- What is checked behind the head of an if, or behind an else, which ends at a place.
unfoldable pub if_else_events : Text → List Text → ℕ → ℕ → Bool → Place → List Event
unfolding semicolon_line body_events
if_else_events filename elided linenum if_indent condition place =
    let behind = from_pos place.line place.pos in
    if matches (all_of (spaces ∷ char b'{' ∷ [])) behind
      || (matches (all_of (spaces ∷ eol ∷ [])) behind
          && ltb place.linenum (length elided - 1)
          && matches (all_of (spaces ∷ char b'{' ∷ [])) (line_at elided (place.linenum + 1)))
    then []
    else on (semicolon_line (drop place.linenum elided) place.linenum place.pos)
        (λ p. body_events filename elided linenum if_indent condition p.0 p.1)

-- match.end()
abbrev pub end_of : Hit → ℕ
end_of h = length h.prefix + length h.whole

-- The bodies of if and else
unfoldable pub check_if_else : Text → List Text → Text → ℕ → List Event
unfolding if_else_events
check_if_else filename elided line linenum =
    let here = if_else_events filename elided linenum (get_indent_level line) in
    if matches (all_of (spaces ∷ char b'#' ∷ [])) line
    then []
    else on
        (search_re
          (all_of (
            boundary
            ∷ group 1 (
                any_of (
                  all_of (lit (codes "if") ∷ spaces ∷ char b'(' ∷ [])
                  ∷ all_of (lit (codes "else") ∷ boundary ∷ [])
                  ∷ []))
            ∷ []))
          line)
        (λ h.
          on_or (search_re (all_of (boundary ∷ lit (codes "if") ∷ spaces ∷ char b'(' ∷ [])) line)
            (λ k. on (close_expression elided linenum (end_of k - 1)) (here true))
            (here false (record { line = line; linenum = linenum; pos = some (end_of h) })))

-- CheckBraces
unfoldable pub check_braces : Text → List Text → ℕ → List Event
unfolding else_if_events check_if_else
check_braces filename elided linenum =
    let line = line_at elided linenum in
    let prevline = get_previous_non_blank_line elided linenum in
    when
      (matches (all_of (spaces ∷ char b'{' ∷ spaces ∷ eol ∷ [])) line
        && not (searches (all_of (in_class (codes ",;:}{(") ∷ spaces ∷ eol ∷ [])) prevline)
        && not (matches (all_of (spaces ∷ char b'#' ∷ [])) prevline))
      (call filename linenum (codes "whitespace/braces") 4
        (codes "{ should almost always be at the end of the previous line"))
    ++ when
        (matches
            (all_of (
              spaces
              ∷ lit (codes "else")
              ∷ boundary
              ∷ spaces
              ∷ any_of (all_of (lit (codes "if") ∷ boundary ∷ []) ∷ char b'{' ∷ eol ∷ [])
              ∷ []))
            line
          && matches (all_of (spaces ∷ char b'}' ∷ spaces ∷ eol ∷ [])) prevline)
        (call filename linenum (codes "whitespace/newline") 4
          (codes "An else should appear on the same line as the preceding }"))
    ++ (if searches (all_of (lit (codes "else if") ∷ spaces ∷ char b'(' ∷ [])) line
        then else_if_events filename elided line linenum
        else when
            (searches
                (all_of
                  (char b'}' ∷ spaces ∷ lit (codes "else") ∷ star (not_in (codes "{")) ∷ eol ∷ []))
                line
              || matches
                  (all_of
                    (star (not_in (codes "}")) ∷ lit (codes "else") ∷ spaces ∷ char b'{' ∷ []))
                  line)
            (call filename linenum (codes "readability/braces") 5
              (codes "If an else has a brace on one side, it should have it on both")))
    ++ when
        (searches
            (all_of (
              boundary
              ∷ lit (codes "else ")
              ∷ sat (λ x. not (mem x (codes "{") || is_space x))
              ∷ []))
            line
          && not (searches (all_of (boundary ∷ lit (codes "else if") ∷ boundary ∷ [])) line))
        (call filename linenum (codes "whitespace/newline") 4
          (codes "Else clause should never be on same line as else (use 2 lines)"))
    ++ when
        (matches
          (all_of
            (spaces ∷ lit (codes "do ") ∷ sat (λ x. not (mem x (codes "{") || is_space x)) ∷ []))
          line)
        (call filename linenum (codes "whitespace/newline") 4
          (codes "do/while clauses should not be on a single line"))
    ++ check_if_else filename elided line linenum
