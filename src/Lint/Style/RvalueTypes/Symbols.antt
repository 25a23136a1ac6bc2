-- ===== src/Lint/Style/RvalueTypes/Symbols.antt =====
-- What stands around a possible type of an rvalue reference, for IsRValueType of tools/cpplint.py.
use ringfile.Prelude.{
  ℕ, zero, suc, ◌+◌, ◌-◌, Bool, true, false, not, ◌||◌, ◌==◌, Option, none, some, List, [], ◌∷◌,
  ◌++◌, Text, if◌then◌else◌, codes, length, take,
}
use ringfile.Prelude.Strings.{is_space}
use ringfile.Lint.Regex.{
  Re, Hit, match_re, searches, group_or_empty, all_of, any_of, lit, char, in_class, sat, word,
  space, spaces, bol, eol, boundary, star, plus, group, dot, is_word, mem,
}
use ringfile.Lint.FileChecks.Guard.{line_at}
use ringfile.Lint.Brackets.{reverse_close_expression}
use ringfile.Lint.Style.Braces.{joined}

-- Whether the text in front of the other end of a bracket is of a form. A bracket that was found on the
-- line gives a place.
abbrev pub opens_behind : Re → List Text → ℕ → ℕ → Bool
opens_behind r elided linenum column = elim (reverse_close_expression elided linenum column) [
  | none ↦ false
  | some place ↦ elim place.pos [
    | none ↦ false
    | some start_col ↦ searches r (take start_col place.line)
  ]
]

-- IsDecltype
unfoldable pub is_decltype : List Text → ℕ → ℕ → Bool
is_decltype elided linenum column =
    opens_behind (all_of (boundary ∷ lit (codes "decltype") ∷ spaces ∷ eol ∷ [])) elided linenum
      column

-- IsTemplateParameterList
unfoldable pub is_template_parameter_list : List Text → ℕ → ℕ → Bool
is_template_parameter_list elided linenum column =
    opens_behind (all_of (boundary ∷ lit (codes "template") ∷ spaces ∷ eol ∷ [])) elided linenum
      column

-- r'^(.*)(\b\w+|[>*)&])\s*$'
abbrev pub one_word_re : Re
one_word_re = all_of (
    bol
    ∷ group 1 (star dot)
    ∷ group 2 (any_of (all_of (boundary ∷ plus word ∷ []) ∷ in_class (codes ">*)&") ∷ []))
    ∷ spaces
    ∷ eol
    ∷ [])

abbrev pub simple_types : List Text
simple_types =
    codes "char"
    ∷ codes "char16_t"
    ∷ codes "char32_t"
    ∷ codes "wchar_t"
    ∷ codes "bool"
    ∷ codes "short"
    ∷ codes "int"
    ∷ codes "long"
    ∷ codes "signed"
    ∷ codes "unsigned"
    ∷ codes "float"
    ∷ codes "double"
    ∷ codes "void"
    ∷ codes "auto"
    ∷ codes ">"
    ∷ codes "*"
    ∷ codes "&"
    ∷ []

-- r'\b(?:const_cast\s*<|static_cast\s*<|dynamic_cast\s*<|reinterpret_cast\s*<|\w+\s)\s*$'
abbrev pub cast_re : Re
cast_re = all_of (
    boundary
    ∷ any_of (
        all_of (lit (codes "const_cast") ∷ spaces ∷ char b'<' ∷ [])
        ∷ all_of (lit (codes "static_cast") ∷ spaces ∷ char b'<' ∷ [])
        ∷ all_of (lit (codes "dynamic_cast") ∷ spaces ∷ char b'<' ∷ [])
        ∷ all_of (lit (codes "reinterpret_cast") ∷ spaces ∷ char b'<' ∷ [])
        ∷ all_of (plus word ∷ space ∷ [])
        ∷ [])
    ∷ spaces
    ∷ eol
    ∷ [])

-- r'^(.*)([^\w\s,])[\w\s,]*$'
abbrev pub symbol_re : Re
symbol_re = all_of (
    bol
    ∷ group 1 (star dot)
    ∷ group 2 (sat (λ x. not (mem x (codes ",") || is_word x || is_space x)))
    ∷ star (sat (λ x. mem x (codes ",") || is_word x || is_space x))
    ∷ eol
    ∷ [])

-- The last symbol of the text on a line, or of the lines above it, with the number of its line.
unfoldable pub symbol_above : List Text → Text → ℕ → Option (Hit × ℕ)
symbol_above elided line zero = elim (match_re symbol_re line) [
  | none ↦ none
  | some h ↦ some (h, 0)
]
symbol_above elided line (suc start) =
    let above = symbol_above elided (line_at elided start) start in
    elim (match_re symbol_re line) [ none ↦ above | some h ↦ some (h, suc start) ]

-- Whether a semicolon comes before the closing brace, from inside so many braces.
unfoldable pub semicolon_first : ℕ → Text → Bool
semicolon_first depth [] = false
semicolon_first depth (x ∷ s) =
    let deeper = semicolon_first (depth + 1) s in
    let less = semicolon_first (depth - 1) s in
    let rest = semicolon_first depth s in
    if x == b';'
    then true
    else if x == b'{'
    then deeper
    else if x == b'}'
    then (if depth == 1 then false else less)
    else rest

-- The text from which the code looks for the closing brace: the line up to the brace, and all lines
-- below it.
abbrev pub below_brace : List Text → ℕ → Hit → Text
below_brace elided start h =
    take (length (group_or_empty 1 h) + 1) (line_at elided start)
    ++ joined elided (length elided - (start + 1)) (start + 1)

-- The text in front of a semicolon, with the five lines above it at most.
abbrev pub above_semicolon : List Text → ℕ → Hit → Text
above_semicolon elided start h =
    let first = start - 6 + 1 in joined elided (start - first) first ++ group_or_empty 1 h
