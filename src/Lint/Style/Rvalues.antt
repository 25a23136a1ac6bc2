-- ===== src/Lint/Style/Rvalues.antt =====
-- CheckRValueReference, IsRValueAllowed and IsDeletedOrDefault of tools/cpplint.py.
use ringfile.Prelude.{
  ℕ, zero, suc, ◌+◌, ◌-◌, Bool, false, not, ◌&&◌, ◌||◌, ltb, Option, none, some, List, [], ◌∷◌,
  Text, if◌then◌else◌, codes, length, drop, same,
}
use ringfile.Prelude.Strings.{find, ends_with}
use ringfile.Lint.Regex.{
  Re, Hit, match_re, matches, searches, group_or_empty, all_of, any_of, lit, char, in_class, sat,
  space, non_space, spaces, bol, eol, boundary, star, plus, group, dot, is_word, mem,
}
use ringfile.Lint.Report.{Event}
use ringfile.Lint.FileChecks.{call}
use ringfile.Lint.FileChecks.Guard.{line_at}
use ringfile.Lint.Conditions.{when}
use ringfile.Lint.FileChecks.{is_some}
use ringfile.Lint.Brackets.{close_expression}
use ringfile.Lint.Nesting.Stack.{Nesting}
use ringfile.Lint.Style.RvalueTypes.{is_rvalue_type}

-- IsDeletedOrDefault
unfoldable pub is_deleted_or_default : List Text → ℕ → Bool
is_deleted_or_default elided linenum = elim (find (line_at elided linenum) (codes "(")) [
  | none ↦ false
  | some open_paren ↦ elim (close_expression elided linenum open_paren) [
    | none ↦ false
    | some place ↦ elim place.pos [
      | none ↦ false
      | some close_paren ↦
          matches
            (all_of (
              spaces
              ∷ char b'='
              ∷ spaces
              ∷ lit (codes "de")
              ∷ any_of (lit (codes "lete") ∷ lit (codes "fault") ∷ [])
              ∷ boundary
              ∷ []))
            (drop close_paren place.line)
    ]
  ]
]

-- r'GOOGLE_ALLOW_RVALUE_REFERENCES_(?:PUSH|POP)'
abbrev pub region_re : Re
region_re = all_of (
    lit (codes "GOOGLE_ALLOW_RVALUE_REFERENCES_P")
    ∷ any_of (lit (codes "USH") ∷ lit (codes "OP") ∷ [])
    ∷ [])

-- Whether the first macro on the lines ends the region; `none` is that there is no macro.
unfoldable pub region_end : List Text → Option Bool
region_end [] = none
region_end (line ∷ lines) =
    let rest = region_end lines in
    if matches region_re line then some (ends_with line (codes "POP")) else rest

-- What the macros say, of which those above are looked for on the line of the number and above it, but
-- not on line 0.
unfoldable pub in_region : List Text → Option Bool → ℕ → Option Bool
in_region elided after zero = none
in_region elided after (suc i) =
    let line = line_at elided (suc i) in
    let above = in_region elided after i in
    if not (matches region_re line)
    then above
    else if not (ends_with line (codes "PUSH"))
    then some false
    else elim after [ some b ↦ some b | none ↦ above ]

-- Whether the line has an operator, a constructor or what looks like one.
unfoldable pub is_constructor_line : List Text → ℕ → Bool
is_constructor_line elided linenum =
    let line = line_at elided linenum in
    let previous_line =
      if ltb 0 linenum then line_at elided (linenum - 1) else codes "ReturnType" in
    let qualified : Bool =
      elim (match_re
        (all_of (
          spaces
          ∷ group 1 (plus (sat (λ x. mem x (codes "<>") || is_word x)))
          ∷ spaces
          ∷ lit (codes "::")
          ∷ spaces
          ∷ group 2 (plus (sat (λ x. mem x (codes "<>") || is_word x)))
          ∷ spaces
          ∷ char b'('
          ∷ []))
        line) [ none ↦ false | some h ↦ same (group_or_empty 1 h) (group_or_empty 2 h) ] in
    searches
      (all_of (boundary ∷ lit (codes "operator") ∷ spaces ∷ char b'=' ∷ spaces ∷ char b'(' ∷ []))
      line
    || qualified
    || searches
        (all_of (
          boundary
          ∷ any_of (lit (codes "explicit") ∷ lit (codes "inline") ∷ [])
          ∷ plus space
          ∷ plus (sat (λ x. mem x (codes "<>") || is_word x))
          ∷ spaces
          ∷ char b'('
          ∷ []))
        line
    || (matches
          (all_of
            (spaces ∷ plus (sat (λ x. mem x (codes "<>") || is_word x)) ∷ spaces ∷ char b'(' ∷ []))
          line
        && (matches (all_of (bol ∷ spaces ∷ eol ∷ [])) previous_line
            || searches (all_of (in_class (codes "{}:;") ∷ spaces ∷ eol ∷ [])) previous_line))

-- IsRValueAllowed
unfoldable pub is_rvalue_allowed : List Text → ℕ → Bool
unfolding region_end in_region is_constructor_line is_deleted_or_default
is_rvalue_allowed elided linenum =
    elim (in_region elided (region_end (drop linenum elided)) linenum) [
      | some b ↦ b
      | none ↦ is_constructor_line elided linenum && is_deleted_or_default elided linenum
    ]

-- The position of && without spaces around it, and what stands in front of it.
unfoldable pub and_match : Text → Option Hit
and_match line =
    elim (match_re
      (all_of (bol ∷ group 1 (all_of (star dot ∷ non_space ∷ [])) ∷ lit (codes "&&") ∷ [])) line) [
        | some h ↦ some h
        | none ↦ match_re (all_of (group 1 (star dot) ∷ lit (codes "&&") ∷ non_space ∷ [])) line
      ]

-- CheckRValueReference; `none` is the RuntimeError of IsRValueType.
unfoldable pub check_rvalue_reference : Text → List Text → ℕ → Nesting → Option (List Event)
unfolding and_match is_rvalue_type is_rvalue_allowed
check_rvalue_reference filename elided linenum s =
    let line = line_at elided linenum in
    elim (and_match line) [
      | none ↦ some []
      | some h ↦
          let and_pos = length (group_or_empty 1 h) in
          let asked =
            is_rvalue_type (length line + 1) s.previous_stack_top elided linenum and_pos in
          if is_some (find line (codes "(&&)"))
            || searches (all_of (boundary ∷ lit (codes "operator") ∷ spaces ∷ eol ∷ []))
                (group_or_empty 1 h)
          then some []
          else elim asked [
            | none ↦ none
            | some b ↦ some (
                if b
                then when (not (is_rvalue_allowed elided linenum)) (
                    call filename linenum (codes "build/c++11") 3
                      (codes "RValue references are an unapproved C++ feature."))
                else call filename linenum (codes "whitespace/operators") 3
                    (codes "Missing spaces around &&")
                  ∷ [])
          ]
    ]
