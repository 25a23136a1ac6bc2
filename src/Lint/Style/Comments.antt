-- ===== src/Lint/Style/Comments.antt =====
-- CheckComment and CheckSpacingForFunctionCall of tools/cpplint.py.
use ringfile.Prelude.{
  ℕ, ◌+◌, ◌-◌, ◌%◌, Bool, true, false, not, ◌&&◌, ◌||◌, ltb, leb, ◌==◌, none, some, List, [], ◌∷◌,
  ◌++◌, Text, if◌then◌else◌, codes, length, drop, take, same,
}
use ringfile.Prelude.Strings.{find, count, is_space}
use ringfile.Lint.Regex.{
  any_word, Re, Hit, match_re, search_re, matches, searches, group_or_empty, group_of, all_of,
  any_of, lit, char, in_class, not_in, sat, not_ahead, word, space, spaces, bol, eol, boundary,
  star, plus, plus_lazy, maybe, group, dot, mem,
}
use ringfile.Lint.Report.{Event}
use ringfile.Lint.FileChecks.{call}
use ringfile.Lint.Conditions.{when, on}

-- _RE_PATTERN_TODO
abbrev pub todo_re : Re
todo_re = all_of (
    bol
    ∷ lit (codes "//")
    ∷ group 1 spaces
    ∷ lit (codes "TODO")
    ∷ maybe (group 2 (all_of (char b'(' ∷ plus_lazy dot ∷ char b')' ∷ [])))
    ∷ maybe (char b':')
    ∷ maybe (group 3 (any_of (space ∷ eol ∷ [])))
    ∷ [])

-- Whether a character of the line is there and is no space.
abbrev pub is_code_at : Text → ℕ → Bool
is_code_at line i = elim (drop i line) [ [] ↦ false | x ∷ s ↦ not (is_space x) ]

-- Whether the comment stands too near to the code in front of it.
unfoldable pub is_near : Text → ℕ → ℕ → Bool
is_near line next_line_start commentpos =
    not (
      matches (all_of (bol ∷ star dot ∷ char b'{' ∷ star (char b' ') ∷ lit (codes "//") ∷ [])) line
      && next_line_start == commentpos)
    && ((leb 1 commentpos && is_code_at line (commentpos - 1))
        || (leb 2 commentpos && is_code_at line (commentpos - 2)))

-- The mistakes of a TODO
unfoldable pub todo_events : Text → ℕ → Hit → List Event
todo_events filename linenum h =
    let middle : Bool = elim (group_of 3 h.groups) [
      | none ↦ true
      | some t ↦ not (same t (codes " ")) && not (same t [])
    ] in
    when (ltb 1 (length (group_or_empty 1 h)))
      (call filename linenum (codes "whitespace/todo") 2 (codes "Too many spaces before TODO"))
    ++ when (same (group_or_empty 2 h) []) (
        call filename linenum (codes "readability/todo") 2 (
          codes "Missing username in TODO; it should look like "
          ++ codes "\"// TODO(my_username): Stuff.\""))
    ++ when middle (
        call filename linenum (codes "whitespace/todo") 2
          (codes "TODO(my_username) should be followed by a space"))

-- CheckComment. A difference of numbers is even where their sum is.
unfoldable pub check_comment : Text → Text → ℕ → ℕ → List Event
unfolding is_near todo_events
check_comment line filename linenum next_line_start = on (find line (codes "//")) (λ commentpos.
    let before = take commentpos line in
    let comment = drop commentpos line in
    if not ((count before (codes "\"") + count before (codes "\\\"")) % 2 == 0)
    then []
    else when (is_near line next_line_start commentpos) (
        call filename linenum (codes "whitespace/comments") 2
          (codes "At least two spaces is best between code and comments"))
      ++ on (match_re todo_re comment) (todo_events filename linenum)
      ++ when (matches (all_of (lit (codes "//") ∷ star (not_in (codes " ")) ∷ word ∷ [])) comment)
          (call filename linenum (codes "whitespace/comments") 4
            (codes "Should have a space between // and comment")))

-- The expressions for if, for, while and switch
abbrev pub control_res : List Re
control_res =
    (all_of (
      boundary
      ∷ lit (codes "if")
      ∷ spaces
      ∷ char b'('
      ∷ group 1 (star dot)
      ∷ char b')'
      ∷ spaces
      ∷ char b'{'
      ∷ []))
    ∷ (all_of (
        boundary
        ∷ lit (codes "for")
        ∷ spaces
        ∷ char b'('
        ∷ group 1 (star dot)
        ∷ char b')'
        ∷ spaces
        ∷ char b'{'
        ∷ []))
    ∷ (all_of (
        boundary
        ∷ lit (codes "while")
        ∷ spaces
        ∷ char b'('
        ∷ group 1 (star dot)
        ∷ char b')'
        ∷ spaces
        ∷ in_class (codes "{;")
        ∷ []))
    ∷ (all_of (
        boundary
        ∷ lit (codes "switch")
        ∷ spaces
        ∷ char b'('
        ∷ group 1 (star dot)
        ∷ char b')'
        ∷ spaces
        ∷ char b'{'
        ∷ []))
    ∷ []

-- The part of the line that is looked at: what stands in the parentheses of a control structure.
unfoldable pub function_call : List Re → Text → Text
function_call [] line = line
function_call (r ∷ rs) line = elim (search_re r line) [
  | none ↦ function_call rs line
  | some h ↦ group_or_empty 1 h
]

unfoldable pub is_ignored_call : Text → Bool
is_ignored_call fncall =
    searches
      (all_of (
        boundary
        ∷ group 1 (
            any_word (
              "if" ∷ "for" ∷ "while" ∷ "switch" ∷ "return" ∷ "new" ∷ "delete" ∷ "catch" ∷ "sizeof"
              ∷ []))
        ∷ boundary
        ∷ []))
      fncall
    || searches
        (all_of (
          lit (codes " (")
          ∷ plus (not_in (codes ")"))
          ∷ lit (codes ")(")
          ∷ star (not_in (codes ")"))
          ∷ group 1 (any_of (char b')' ∷ all_of (char b',' ∷ eol ∷ []) ∷ []))
          ∷ []))
        fncall
    || searches
        (all_of (
          lit (codes " (")
          ∷ plus (not_in (codes ")"))
          ∷ lit (codes ")[")
          ∷ plus (not_in (codes "]"))
          ∷ char b']'
          ∷ []))
        fncall

-- CheckSpacingForFunctionCall
unfoldable pub check_spacing_for_function_call : Text → Text → ℕ → List Event
unfolding function_call is_ignored_call
check_spacing_for_function_call filename line linenum =
    let fncall = function_call control_res line in
    let report = λ (confidence : ℕ) (message : Text).
      call filename linenum (codes "whitespace/parens") confidence message in
    if is_ignored_call fncall
    then []
    else (if searches
          (all_of (
            word
            ∷ spaces
            ∷ char b'('
            ∷ space
            ∷ not_ahead (all_of (spaces ∷ char b'\\' ∷ eol ∷ []))
            ∷ []))
          fncall
        then report 4 (codes "Extra space after ( in function call") ∷ []
        else when
            (searches
              (all_of (
                char b'('
                ∷ plus space
                ∷ not_ahead (any_of (group 1 (all_of (spaces ∷ char b'\\' ∷ [])) ∷ char b'(' ∷ []))
                ∷ []))
              fncall)
            (report 2 (codes "Extra space after (")))
      ++ when
          (searches (all_of (word ∷ plus space ∷ char b'(' ∷ [])) fncall
            && not (
                searches
                  (any_of (
                    all_of (char b'#' ∷ spaces ∷ lit (codes "define") ∷ [])
                    ∷ lit (codes "typedef")
                    ∷ all_of
                        (lit (codes "using") ∷ plus space ∷ plus word ∷ spaces ∷ char b'=' ∷ [])
                    ∷ []))
                  fncall)
            && not (
                searches
                  (all_of (
                    word
                    ∷ plus space
                    ∷ char b'('
                    ∷ star (group 1 (all_of (plus word ∷ lit (codes "::") ∷ [])))
                    ∷ char b'*'
                    ∷ plus word
                    ∷ lit (codes ")(")
                    ∷ []))
                  fncall))
          (if searches
              (all_of (boundary ∷ lit (codes "operator") ∷ star (char b'_') ∷ boundary ∷ [])) line
            then report 0 (codes "Extra space before ( in function call")
            else report 4 (codes "Extra space before ( in function call"))
      ++ when
          (searches
            (all_of (
              not_in (codes ")")
              ∷ plus space
              ∷ char b')'
              ∷ spaces
              ∷ sat (λ x. not (mem x (codes "{") || is_space x))
              ∷ []))
            fncall)
          (if searches (all_of (bol ∷ plus space ∷ char b')' ∷ [])) fncall
            then report 2 (codes "Closing ) should be moved to the previous line")
            else report 2 (codes "Extra space before )"))
