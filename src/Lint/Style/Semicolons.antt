-- ===== src/Lint/Style/Semicolons.antt =====
-- CheckTrailingSemicolon and CheckEmptyBlockBody of tools/cpplint.py. What they report is on the line of
-- the semicolon.
use ringfile.Prelude.{
  ℕ, ◌-◌, Bool, true, false, not, ◌&&◌, ◌||◌, ltb, leb, Option, none, some, List, [], ◌∷◌, Text,
  if◌then◌else◌, codes, length, drop, take, same,
}
use ringfile.Prelude.Strings.{find, one_of}
use ringfile.Lint.Regex.{
  any_word, Hit, match_re, search_re, matches, searches, group_or_empty, all_of, any_of, lit, char,
  in_class, sat, space, spaces, bol, eol, boundary, star, plus, group, dot, mem,
}
use ringfile.Lint.Report.{Event}
use ringfile.Lint.FileChecks.{call}
use ringfile.Lint.FileChecks.Guard.{line_at}
use ringfile.Lint.Conditions.{when, on}
use ringfile.Lint.Paths.{split_last}
use ringfile.Lint.Brackets.{Place, close_expression, reverse_close_expression}
use ringfile.Lint.Style.Blank.{get_previous_non_blank_line}

-- The macros that are known to be followed by a block
abbrev pub block_macros : List Text
block_macros =
    codes "TEST"
    ∷ codes "TEST_F"
    ∷ codes "MATCHER"
    ∷ codes "MATCHER_P"
    ∷ codes "TYPED_TEST"
    ∷ codes "EXCLUSIVE_LOCKS_REQUIRED"
    ∷ codes "SHARED_LOCKS_REQUIRED"
    ∷ codes "LOCKS_EXCLUDED"
    ∷ codes "INTERFACE_DEF"
    ∷ []

abbrev pub holds : Option Hit → (Hit → Bool) → Bool
holds none p = false
holds (some h) p = p h

-- Whether the parentheses in front of a brace belong to a macro, a lambda or a literal.
unfoldable pub is_other_block : Text → Bool
is_other_block line_prefix =
    holds
      (search_re
        (all_of (
          boundary
          ∷ group 1 (plus (sat (λ x. mem x (codes "_") || (leb b'A' x && leb x b'Z'))))
          ∷ spaces
          ∷ eol
          ∷ []))
        line_prefix)
      (λ h. not (one_of (group_or_empty 1 h) block_macros))
    || holds
        (match_re (all_of (bol ∷ group 1 (all_of (star dot ∷ char b']' ∷ [])) ∷ spaces ∷ eol ∷ []))
          line_prefix)
        (λ h. not (
          searches
            (all_of
              (boundary ∷ lit (codes "operator") ∷ spaces ∷ char b'[' ∷ spaces ∷ char b']' ∷ []))
            (group_or_empty 1 h)))
    || searches (all_of (plus space ∷ char b'=' ∷ spaces ∷ eol ∷ [])) line_prefix

-- A brace behind a parenthesis, at the place of its opening parenthesis.
unfoldable pub is_block_at : List Text → Place → Bool
unfolding is_other_block
is_block_at elided place =
    elim place.pos [ none ↦ true | some pos ↦ not (is_other_block (take pos place.line)) ]
    && not (
        ltb 1 place.linenum
        && searches (all_of (char b']' ∷ spaces ∷ eol ∷ [])) (line_at elided (place.linenum - 1)))

-- The position of the opening brace of a block that needs no semicolon.
unfoldable pub block_position : List Text → ℕ → Option ℕ
unfolding is_block_at split_last
block_position elided linenum =
    let line = line_at elided linenum in
    let prevline = get_previous_non_blank_line elided linenum in
    elim (match_re
      (all_of (bol ∷ group 1 (all_of (star dot ∷ char b')' ∷ spaces ∷ [])) ∷ char b'{' ∷ []))
      line) [
        | some h ↦ elim (split_last b')' (group_or_empty 1 h)) [
          | none ↦ none
          | some (before, behind) ↦ elim (reverse_close_expression elided linenum (length before)) [
            | none ↦ none
            | some place ↦
                if is_block_at elided place then some (length (group_or_empty 1 h)) else none
          ]
        ]
        | none ↦
            elim (match_re
              (all_of (
                bol
                ∷ group 1 (
                    all_of (
                      star dot
                      ∷ any_of (
                          lit (codes "else")
                          ∷ all_of (char b')' ∷ spaces ∷ lit (codes "const") ∷ [])
                          ∷ [])
                      ∷ spaces
                      ∷ []))
                ∷ char b'{'
                ∷ []))
              line) [
                | some h ↦ some (length (group_or_empty 1 h))
                | none ↦
                    if searches (all_of (in_class (codes ";{}") ∷ spaces ∷ eol ∷ [])) prevline
                    then elim (match_re (all_of (bol ∷ group 1 spaces ∷ char b'{' ∷ [])) line) [
                      | none ↦ none
                      | some h ↦ some (length (group_or_empty 1 h))
                    ]
                    else none
              ]
      ]

-- CheckTrailingSemicolon
unfoldable pub check_trailing_semicolon : Text → List Text → ℕ → List Event
unfolding block_position
check_trailing_semicolon filename elided linenum = on (block_position elided linenum) (λ pos.
    on (close_expression elided linenum pos) (λ place. on place.pos (λ endpos.
      when (matches (all_of (bol ∷ spaces ∷ char b';' ∷ [])) (drop endpos place.line)) (
        call filename place.linenum (codes "readability/braces") 4
          (codes "You don't need a ; after a }")))))

-- CheckEmptyBlockBody
unfoldable pub check_empty_block_body : Text → List Text → ℕ → List Event
check_empty_block_body filename elided linenum =
    let line = line_at elided linenum in
    on
      (match_re
        (all_of
          (spaces ∷ group 1 (any_word ("for" ∷ "while" ∷ "if" ∷ [])) ∷ spaces ∷ char b'(' ∷ []))
        line)
      (λ h. on (find line (codes "(")) (λ pos. on (close_expression elided linenum pos) (λ place.
        on place.pos (λ end_pos. when (matches (char b';') (drop end_pos place.line)) (
          if same (group_or_empty 1 h) (codes "if")
          then call filename place.linenum (codes "whitespace/empty_conditional_body") 5
              (codes "Empty conditional bodies should use {}")
          else call filename place.linenum (codes "whitespace/empty_loop_body") 5
              (codes "Empty loop bodies should use {} or continue"))))))
