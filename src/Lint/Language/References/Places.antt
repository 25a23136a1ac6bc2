-- ===== src/Lint/Language/References/Places.antt =====
-- Where a reference that is not const is allowed, in CheckForNonConstReference of tools/cpplint.py.
use ringfile.Prelude.{
  ℕ, zero, suc, ◌+◌, ◌-◌, Bool, true, false, not, ◌&&◌, ◌||◌, ltb, leb, ◌==◌, Option, none, some,
  List, [], ◌∷◌, ◌++◌, Text, if◌then◌else◌, codes, length, drop,
}
use mathlib.Core.Option
use ringfile.Prelude.Strings.{strip}
use ringfile.Lint.Regex.{
  Re, Hit, match_re, search_re, matches, searches, group_or_empty, all_of, any_of, lit, char,
  in_class, not_in, sat, word, space, non_space, spaces, bol, eol, boundary, star, plus, maybe,
  group, dot, is_word, mem,
}
use ringfile.Lint.FileChecks.Guard.{line_at}
use ringfile.Prelude.Strings.{is_unicode_space, drop_while}
use ringfile.Lint.FileChecks.{is_some}
use ringfile.Lint.Paths.{split_last}
use ringfile.Lint.Brackets.{close_expression, reverse_close_expression}

-- Whether a function with "override" begins on the line or on one of so many above it: the loop of
-- IsDerivedFunction.
unfoldable pub is_derived_from : ℕ → List Text → ℕ → Bool
is_derived_from zero elided i = false
is_derived_from (suc n) elided i =
    let above : Bool = elim i [ zero ↦ false | suc k ↦ is_derived_from n elided k ] in
    elim (match_re
      (all_of
        (bol ∷ group 1 (all_of (star (not_in (codes "()")) ∷ plus word ∷ [])) ∷ char b'(' ∷ []))
      (line_at elided i)) [
        | none ↦ above
        | some h ↦ elim (close_expression elided i (length (group_or_empty 1 h))) [
          | none ↦ false
          | some place ↦ elim place.pos [
            | none ↦ false
            | some closing_paren ↦
                searches (all_of (boundary ∷ lit (codes "override") ∷ boundary ∷ []))
                  (drop closing_paren place.line)
          ]
        ]
      ]

-- IsDerivedFunction
unfoldable pub is_derived_function : List Text → ℕ → Bool
unfolding is_derived_from
is_derived_function elided linenum = is_derived_from 10 elided linenum

-- The loop of IsInitializerList, at a line, whose text is given: lines 0 and 1 are not looked at.
unfoldable pub is_initializer_from : List Text → Text → ℕ → Bool
is_initializer_from elided line zero = false
is_initializer_from elided line (suc i) =
    let above = is_initializer_from elided (line_at elided i) i in
    if i == 0
    then false
    else if searches (all_of (space ∷ char b':' ∷ spaces ∷ plus word ∷ in_class (codes "({") ∷ []))
          line
        || searches (all_of (char b'}' ∷ spaces ∷ char b',' ∷ spaces ∷ eol ∷ [])) line
    then true
    else if searches (all_of (in_class (codes "{};") ∷ spaces ∷ eol ∷ [])) line
    then false
    else above

-- IsInitializerList
unfoldable pub is_initializer_list : List Text → ℕ → Bool
unfolding is_initializer_from
is_initializer_list elided linenum =
    let line = line_at elided linenum in
    is_initializer_from elided
      (elim (match_re (all_of (bol ∷ group 1 (star dot) ∷ char b'{' ∷ spaces ∷ eol ∷ [])) line) [
        | none ↦ line
        | some h ↦ group_or_empty 1 h
      ])
      linenum

-- The part of a type that ends on the line above
unfoldable pub previous_part : Text → Text → Option Text
previous_part line previous_line =
    let part = λ (o : Option Hit). Option.map (group_or_empty 1) o in
    if matches
      (all_of (
        spaces
        ∷ lit (codes "::")
        ∷ plus (any_of (sat (λ x. mem x (codes "<>") || is_word x) ∷ lit (codes "::") ∷ []))
        ∷ spaces
        ∷ char b'&'
        ∷ spaces
        ∷ non_space
        ∷ []))
      line
    then part (
        search_re
          (all_of (
            boundary
            ∷ group 1 (
                all_of (
                  maybe (all_of (lit (codes "const") ∷ spaces ∷ []))
                  ∷ plus
                      (any_of (sat (λ x. mem x (codes "<>") || is_word x) ∷ lit (codes "::") ∷ []))
                  ∷ sat (λ x. mem x (codes "<>") || is_word x)
                  ∷ []))
            ∷ spaces
            ∷ eol
            ∷ []))
          previous_line)
    else if matches
        (all_of (
          spaces
          ∷ sat (λ x. mem x (codes "_") || (leb b'a' x && leb x b'z') || (leb b'A' x && leb x b'Z'))
          ∷ plus (
              group 1 (any_of (sat (λ x. mem x (codes "<>") || is_word x) ∷ lit (codes "::") ∷ [])))
          ∷ spaces
          ∷ char b'&'
          ∷ spaces
          ∷ non_space
          ∷ []))
        line
    then part (
        search_re
          (all_of (
            boundary
            ∷ group 1 (
                all_of (
                  maybe (all_of (lit (codes "const") ∷ spaces ∷ []))
                  ∷ plus
                      (any_of (sat (λ x. mem x (codes "<>") || is_word x) ∷ lit (codes "::") ∷ []))
                  ∷ lit (codes "::")
                  ∷ []))
            ∷ spaces
            ∷ eol
            ∷ []))
          previous_line)
    else none

-- The lines of the numbers from one on, each without white space at its ends, one behind the other.
abbrev pub stripped : List Text → ℕ → ℕ → Text
stripped elided zero i = []
stripped elided (suc n) i = strip is_unicode_space (line_at elided i) ++ stripped elided n (i + 1)

-- A template that begins on a line above. A bracket that was found gives a place.
unfoldable pub template_text : List Text → ℕ → Text → Text
template_text elided linenum line = elim (split_last b'>' line) [
  | none ↦ line
  | some (before, behind) ↦ elim (reverse_close_expression elided linenum (length before)) [
    | none ↦ line
    | some place ↦
        if is_some place.pos && ltb place.linenum linenum
        then stripped elided (linenum + 1 - place.linenum) place.linenum
        else line
  ]
]

-- The line, joined with the lines above over which its type is split.
unfoldable pub whole_type : List Text → ℕ → Text
unfolding previous_part template_text split_last
whole_type elided linenum =
    let line = line_at elided linenum in
    if not (ltb 1 linenum) then line else elim (previous_part line (line_at elided (linenum - 1))) [
      | some part ↦ part ++ drop_while is_unicode_space line
      | none ↦ template_text elided linenum line
    ]

-- Whether an initializer list begins above: so many lines that end with ) or a comma are passed.
unfoldable pub after_colon : ℕ → List Text → ℕ → Bool
after_colon zero elided i = false
after_colon (suc n) elided zero = false
after_colon (suc n) elided (suc k) =
    let line = line_at elided (suc k) in
    let above = after_colon n elided k in
    if not (searches (all_of (in_class (codes "),") ∷ spaces ∷ eol ∷ [])) line)
    then false
    else if matches (all_of (bol ∷ spaces ∷ char b':' ∷ plus space ∷ non_space ∷ [])) line
    then true
    else above

-- whitelisted_functions
abbrev pub whitelisted_re : Re
whitelisted_re = all_of (
    any_of (
      all_of (
        in_class (codes "sS")
        ∷ lit (codes "wap")
        ∷ maybe (all_of (char b'<' ∷ word ∷ plus (char b':') ∷ char b'>' ∷ []))
        ∷ [])
      ∷ all_of
          (lit (codes "operator") ∷ spaces ∷ in_class (codes "<>") ∷ in_class (codes "<>") ∷ [])
      ∷ lit (codes "static_assert")
      ∷ lit (codes "COMPILE_ASSERT")
      ∷ [])
    ∷ spaces
    ∷ char b'('
    ∷ [])

unfoldable pub is_whitelisted : List Text → ℕ → Text → Bool
is_whitelisted elided linenum line =
    searches whitelisted_re line
    || (not (
          searches (all_of (plus non_space ∷ char b'(' ∷ star (not_in (codes ")")) ∷ eol ∷ []))
            line)
        && ((ltb 0 linenum && searches whitelisted_re (line_at elided (linenum - 1)))
            || (ltb 1 linenum && searches whitelisted_re (line_at elided (linenum - 2)))))
