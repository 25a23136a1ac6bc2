-- ===== src/Lint/Language/Casts/Addresses.antt =====
-- The address of a cast, in CheckCasts of tools/cpplint.py.
use ringfile.Prelude.{
  ℕ, ◌+◌, ◌-◌, Bool, false, not, ◌||◌, ltb, ◌==◌, Option, none, some, List, [], ◌∷◌, ◌++◌, Text,
  if◌then◌else◌, codes, length, drop, same,
}
use mathlib.Core.Option
use ringfile.Lint.Regex.{
  any_word, Re, Hit, match_re, search_re, matches, group_or_empty, all_of, any_of, lit, char,
  not_in, sat, spaces, bol, boundary, star, plus, group, dot, is_word, mem,
}
use ringfile.Lint.Report.{Event}
use ringfile.Lint.FileChecks.{call}
use ringfile.Lint.FileChecks.Guard.{line_at}
use ringfile.Prelude.{get_elem?}
use ringfile.Lint.Brackets.{close_expression}

-- Whether the result of the cast whose brackets begin at a position is dereferenced. `none` is the
-- IndexError of clean_lines.elided[y1][x1] where the line ends with the brackets.
unfoldable pub is_dereferenced : List Text → ℕ → ℕ → Option Bool
is_dereferenced elided linenum pos = elim (close_expression elided linenum pos) [
  | none ↦ none
  | some p ↦ elim p.pos [
    | none ↦ some false
    | some x1 ↦ elim (get_elem? p.line x1) [
      | none ↦ none
      | some c ↦
          if not (c == b'(') then some false else elim (close_expression elided p.linenum x1) [
            | none ↦ none
            | some q ↦ elim q.pos [
              | none ↦ some false
              | some x2 ↦ some (
                  matches (all_of (spaces ∷ any_of (lit (codes "->") ∷ char b'[' ∷ []) ∷ [])) (
                    drop x2 q.line
                    ++ (if ltb q.linenum (length elided - 1)
                        then line_at elided (q.linenum + 1)
                        else [])))
            ]
          ]
    ]
  ]
]

abbrev pub address_re : Re
address_re = all_of (
    sat (λ x. not (is_word x))
    ∷ char b'&'
    ∷ any_of (
        all_of (
          char b'('
          ∷ group 1 (plus (not_in (codes ")")))
          ∷ char b')'
          ∷ sat (λ x. mem x (codes "(") || is_word x)
          ∷ [])
        ∷ all_of (
            group 2 (any_word ("static" ∷ "dynamic" ∷ "down" ∷ "reinterpret" ∷ []))
            ∷ lit (codes "_cast")
            ∷ boundary
            ∷ [])
        ∷ [])
    ∷ [])

-- r'^(.*&(?:static|dynamic|down|reinterpret)_cast\b)<'
abbrev pub cast_address_re : Re
cast_address_re = all_of (
    bol
    ∷ group 1 (
        all_of (
          star dot
          ∷ char b'&'
          ∷ any_word ("static" ∷ "dynamic" ∷ "down" ∷ "reinterpret" ∷ [])
          ∷ lit (codes "_cast")
          ∷ boundary
          ∷ []))
    ∷ char b'<'
    ∷ [])

unfoldable pub address_event : Text → ℕ → Bool → Event
address_event filename linenum dereferenced =
    if dereferenced
    then call filename linenum (codes "readability/casting") 4 (
        codes "Are you taking an address of something dereferenced "
        ++ codes "from a cast?  Wrapping the dereferenced expression in "
        ++ codes "parentheses will make the binding more obvious")
    else call filename linenum (codes "runtime/casting") 4 (
        codes "Are you taking an address of a cast?  "
        ++ codes "This is dangerous: could be a temp var.  "
        ++ codes "Take the address before doing the cast, rather than after")

-- The report for the match of a cast whose brackets are looked for
unfoldable pub brackets_events : Text → List Text → ℕ → Option Hit → Option (List Event)
unfolding is_dereferenced address_event
brackets_events filename elided linenum none = some (address_event filename linenum false ∷ [])
brackets_events filename elided linenum (some k) =
    Option.map (λ dereferenced. address_event filename linenum dereferenced ∷ [])
      (is_dereferenced elided linenum (length (group_or_empty 1 k)))

-- The report for the match of the address of a cast
unfoldable pub taken_events : Text → List Text → ℕ → Option Hit → Option (List Event)
unfolding brackets_events
taken_events filename elided linenum none = some []
taken_events filename elided linenum (some h) =
    if same (group_or_empty 1 h) (codes "*")
    then some []
    else brackets_events filename elided linenum (match_re cast_address_re (line_at elided linenum))

-- The address of a cast
unfoldable pub address_events : Text → List Text → ℕ → Option (List Event)
unfolding taken_events
address_events filename elided linenum =
    taken_events filename elided linenum (search_re address_re (line_at elided linenum))
