-- ===== src/Lint/Language/Casts/CStyle.antt =====
-- ExpectingFunctionArgs and CheckCStyleCast of tools/cpplint.py.
use ringfile.Prelude.{
  ℕ, ◌+◌, ◌-◌, Bool, false, not, ◌&&◌, ◌||◌, leb, Option, none, some, List, [], ◌∷◌, ◌++◌, Text,
  if◌then◌else◌, codes, same,
}
use ringfile.Prelude.Strings.{find, ends_with}
use ringfile.Lint.Regex.{
  Re, Hit, match_re, search_re, matches, searches, group_or_empty, all_of, any_of, lit, char,
  in_class, not_in, sat, space, non_space, spaces, bol, eol, boundary, star, plus, maybe, group,
  dot, digit, mem,
}
use ringfile.Lint.Report.{Event}
use ringfile.Lint.FileChecks.{call}
use ringfile.Lint.FileChecks.Guard.{line_at}
use ringfile.Lint.Cleanse.{CleansedLines}
use ringfile.Lint.FileChecks.{is_some}
use ringfile.Lint.Style.Braces.{joined}

-- ExpectingFunctionArgs
unfoldable pub expecting_function_args : List Text → ℕ → Bool
expecting_function_args elided linenum =
    matches
      (all_of (
        bol
        ∷ spaces
        ∷ lit (codes "MOCK_")
        ∷ maybe (group 1 (lit (codes "CONST_")))
        ∷ lit (codes "METHOD")
        ∷ plus digit
        ∷ maybe (group 2 (lit (codes "_T")))
        ∷ char b'('
        ∷ []))
      (line_at elided linenum)
    || (leb 2 linenum
        && (matches
              (all_of (
                bol
                ∷ spaces
                ∷ lit (codes "MOCK_")
                ∷ maybe (lit (codes "CONST_"))
                ∷ lit (codes "METHOD")
                ∷ plus digit
                ∷ maybe (lit (codes "_T"))
                ∷ char b'('
                ∷ maybe (all_of (plus non_space ∷ char b',' ∷ []))
                ∷ spaces
                ∷ eol
                ∷ []))
              (line_at elided (linenum - 1))
            || matches
                (all_of (
                  bol
                  ∷ spaces
                  ∷ lit (codes "MOCK_")
                  ∷ maybe (lit (codes "CONST_"))
                  ∷ lit (codes "METHOD")
                  ∷ plus digit
                  ∷ maybe (lit (codes "_T"))
                  ∷ char b'('
                  ∷ spaces
                  ∷ eol
                  ∷ []))
                (line_at elided (linenum - 2))
            || searches
                (all_of (
                  boundary
                  ∷ lit (codes "std::")
                  ∷ maybe (char b'm')
                  ∷ lit (codes "function")
                  ∷ spaces
                  ∷ char b'<'
                  ∷ spaces
                  ∷ eol
                  ∷ []))
                (line_at elided (linenum - 1))))

-- What stands in front of the cast, with the lines above it, four at most.
abbrev pub cast_context : List Text → ℕ → Text → Text
cast_context elided linenum prefix =
    let first = linenum - 5 + 1 in joined elided (linenum - first) first ++ prefix

-- Whether what stands around the cast says that it is none.
unfoldable pub is_no_cast : List Text → ℕ → Text → Bool
is_no_cast elided linenum prefix =
    let context = cast_context elided linenum prefix in
    matches
      (all_of (
        star dot
        ∷ boundary
        ∷ any_of (
            lit (codes "sizeof")
            ∷ lit (codes "alignof")
            ∷ lit (codes "alignas")
            ∷ all_of (
                sat (λ x. mem x (codes "_") || (leb b'A' x && leb x b'Z'))
                ∷ star (
                    sat (λ x.
                      mem x (codes "_")
                      || (leb b'A' x && leb x b'Z')
                      || (leb b'0' x && leb x b'9')))
                ∷ [])
            ∷ [])
        ∷ spaces
        ∷ eol
        ∷ []))
      prefix
    || matches
        (all_of (
          star dot
          ∷ boundary
          ∷ sat (λ x. mem x (codes "_") || (leb b'A' x && leb x b'Z'))
          ∷ star (
              sat (λ x.
                mem x (codes "_") || (leb b'A' x && leb x b'Z') || (leb b'0' x && leb x b'9')))
          ∷ spaces
          ∷ char b'('
          ∷ star (
              any_of (
                all_of (char b'(' ∷ star (not_in (codes "()")) ∷ char b')' ∷ [])
                ∷ not_in (codes "()")
                ∷ []))
          ∷ eol
          ∷ []))
        context
    || ends_with context (codes " operator++")
    || ends_with context (codes " operator--")

-- A parameter without a name that is no cause for a report
unfoldable pub is_unnamed_allowed : Text → Text → Text → Bool
is_unnamed_allowed prefix remainder raw_line =
    let zero_match : Bool =
      elim (match_re
        (all_of
          (bol ∷ space ∷ char b'=' ∷ spaces ∷ group 1 (plus non_space) ∷ spaces ∷ char b';' ∷ []))
        remainder) [ none ↦ false | some h ↦ not (same (group_or_empty 1 h) (codes "0")) ] in
    matches (all_of (bol ∷ spaces ∷ char b'>' ∷ [])) remainder
    || zero_match
    || matches (all_of (star dot ∷ char b')' ∷ spaces ∷ eol ∷ [])) prefix
    || is_some (find raw_line (codes "/*"))

-- The report for a match. The expression begins with a parenthesis that is followed by its first group.
unfoldable pub cast_event : Text → CleansedLines → ℕ → Text → Option Hit → Option Event
unfolding is_no_cast is_unnamed_allowed
cast_event filename clean_lines linenum cast_type none = none
cast_event filename clean_lines linenum cast_type (some h) =
    if is_no_cast clean_lines.elided linenum h.prefix
    then none
    else if matches
        (all_of (
          bol
          ∷ spaces
          ∷ any_of (
              char b';'
              ∷ all_of (lit (codes "const") ∷ boundary ∷ [])
              ∷ all_of (lit (codes "throw") ∷ boundary ∷ [])
              ∷ all_of (lit (codes "final") ∷ boundary ∷ [])
              ∷ all_of (lit (codes "override") ∷ boundary ∷ [])
              ∷ in_class (codes "=>{),")
              ∷ [])
          ∷ []))
        h.suffix
    then (if is_unnamed_allowed h.prefix h.suffix (line_at clean_lines.raw_lines linenum)
        then none
        else some (
            call filename linenum (codes "readability/function") 3
              (codes "All parameters should be named in a function")))
    else some (
        call filename linenum (codes "readability/casting") 4 (
          codes "Using C-style cast.  Use "
          ++ cast_type
          ++ codes "<"
          ++ group_or_empty 1 h
          ++ codes ">(...) instead"))

-- CheckCStyleCast: the report, if there is one.
unfoldable pub check_c_style_cast : Text → CleansedLines → ℕ → Text → Re → Option Event
unfolding cast_event
check_c_style_cast filename clean_lines linenum cast_type pattern =
    cast_event filename clean_lines linenum cast_type
      (search_re pattern (line_at clean_lines.elided linenum))
