-- ===== src/Lint/Style/RvalueTypes.antt =====
-- IsRValueType of tools/cpplint.py, and what it calls: whether a type stands in front of &&.
pub mod Symbols
use ringfile.Prelude.{
  ℕ, zero, suc, ◌+◌, ◌-◌, Bool, true, false, not, ◌||◌, Option, none, some, List, [], ◌∷◌, Text,
  if◌then◌else◌, codes, length, drop, take, same,
}
use ringfile.Prelude.Strings.{one_of}
use ringfile.Lint.Regex.{
  Re, Hit, match_re, matches, searches, group_or_empty, all_of, any_of, lit, char, in_class, not_in,
  word, space, non_space, spaces, bol, eol, boundary, star, plus, maybe, group, dot,
}
use ringfile.Lint.FileChecks.Guard.{line_at}
use ringfile.Lint.Nesting.Block.{Block, is_block_info}
unfoldable pub use ringfile.Lint.Style.RvalueTypes.Symbols.{
  opens_behind, is_decltype, is_template_parameter_list, one_word_re, simple_types, cast_re,
  symbol_re, symbol_above, semicolon_first, below_brace, above_semicolon,
}

-- What an opening parenthesis says: an answer, or the column in front of the name of a function.
pub data Verdict : Type 0 where
  answer : Bool → Verdict
  ask_at : ℕ → Verdict

-- r'^(.*)\s+\w(?:\w|::)*(?:<[^<>]*>)?\s*$'
abbrev pub function_re : Re
function_re = all_of (
    bol
    ∷ group 1 (star dot)
    ∷ plus space
    ∷ word
    ∷ star (any_of (word ∷ lit (codes "::") ∷ []))
    ∷ maybe (all_of (char b'<' ∷ star (not_in (codes "<>")) ∷ char b'>' ∷ []))
    ∷ spaces
    ∷ eol
    ∷ [])

-- r'\s*(\w+)\((?:const\s+)?(\w+)'
abbrev pub implicit_constructor_re : Re
implicit_constructor_re = all_of (
    spaces
    ∷ group 1 (plus word)
    ∷ char b'('
    ∷ maybe (all_of (lit (codes "const") ∷ plus space ∷ []))
    ∷ group 2 (plus word)
    ∷ [])

unfoldable pub is_implicit_constructor : Text → Bool
is_implicit_constructor prefix = elim (match_re implicit_constructor_re prefix) [
  | none ↦ false
  | some h ↦ same (group_or_empty 1 h) (group_or_empty 2 h)
]

abbrev pub in_block : Option Block → Bool
in_block none = false
in_block (some b) = is_block_info b.kind

unfoldable pub at_parenthesis : Option Block → Text → Text → Verdict
unfolding is_implicit_constructor
at_parenthesis previous_stack_top prefix before_text =
    if searches
      (all_of (
        any_of (
          char b']'
          ∷ all_of (boundary ∷ lit (codes "for") ∷ [])
          ∷ all_of (boundary ∷ lit (codes "sizeof") ∷ [])
          ∷ all_of (boundary ∷ lit (codes "operator") ∷ spaces ∷ plus non_space ∷ spaces ∷ [])
          ∷ [])
        ∷ spaces
        ∷ eol
        ∷ []))
      before_text
    then answer true
    else if searches
        (all_of (
          any_of (
            all_of (boundary ∷ lit (codes "if") ∷ [])
            ∷ all_of (boundary ∷ lit (codes "while") ∷ [])
            ∷ all_of (in_class (codes "-+=%^(<!?:,&*") ∷ spaces ∷ [])
            ∷ [])
          ∷ eol
          ∷ []))
        before_text
    then answer false
    else elim (match_re function_re before_text) [
      | none ↦ answer (not (in_block previous_stack_top))
      | some h ↦
          if searches
              (all_of
                (boundary ∷ any_of (lit (codes "explicit") ∷ lit (codes "inline") ∷ []) ∷ eol ∷ []))
              (group_or_empty 1 h)
            || is_implicit_constructor prefix
          then answer true
          else ask_at (length (group_or_empty 1 h))
    ]

-- What the symbol in front of the word says.
unfoldable pub at_symbol : Option Block → List Text → Text → Hit → ℕ → Verdict
unfolding semicolon_first at_parenthesis is_template_parameter_list
at_symbol previous_stack_top elided prefix h start =
    let symbol = group_or_empty 2 h in
    if same symbol (codes "}")
    then answer true
    else if same symbol (codes ";")
    then answer (
        not (
          searches
            (all_of
              (lit (codes "for") ∷ spaces ∷ char b'(' ∷ star (not_in (codes "{};")) ∷ eol ∷ []))
            (above_semicolon elided start h)))
    else if same symbol (codes "{")
    then answer (semicolon_first 1 (below_brace elided start h))
    else if same symbol (codes "(")
    then at_parenthesis previous_stack_top prefix (group_or_empty 1 h)
    else if same symbol (codes ">")
    then answer (is_template_parameter_list elided start (length (group_or_empty 1 h)))
    else answer false

-- What is known without a look at the symbol in front of the word.
unfoldable pub at_word : List Text → ℕ → Text → Hit → Option Bool
unfolding is_decltype
at_word elided linenum suffix h =
    let word_text = group_or_empty 2 h in
    if matches
        (all_of (
          lit (codes "&&") ∷ spaces ∷ any_of (in_class (codes ">,") ∷ lit (codes "...") ∷ []) ∷ []))
        suffix
      || one_of word_text simple_types
    then some true
    else if same word_text (codes ")")
    then some (is_decltype elided linenum (length (group_or_empty 1 h) + length word_text - 1))
    else if searches cast_re (group_or_empty 1 h)
    then some true
    else none

-- IsRValueType. A call inside is about the same line and the column of a name that may stand on a line
-- above. A call depends on the column only up to the length of the line, so that of more calls than the
-- line has characters and one more, two are alike and there is no end: `none` is the RuntimeError of the
-- recursion.
unfoldable pub is_rvalue_type : ℕ → Option Block → List Text → ℕ → ℕ → Option Bool
unfolding at_word symbol_above at_symbol
is_rvalue_type zero previous_stack_top elided linenum column = none
is_rvalue_type (suc fuel) previous_stack_top elided linenum column =
    let line = line_at elided linenum in
    let prefix = take column line in
    elim (match_re one_word_re prefix) [
      | none ↦ some false
      | some h ↦ elim (at_word elided linenum (drop column line) h) [
        | some b ↦ some b
        | none ↦ elim (symbol_above elided (group_or_empty 1 h) linenum) [
          | none ↦ some true
          | some (k, start) ↦ elim (at_symbol previous_stack_top elided prefix k start) [
            | answer b ↦ some b
            | ask_at column' ↦ is_rvalue_type fuel previous_stack_top elided linenum column'
          ]
        ]
      ]
    ]
