-- ===== src/Lint/Nesting/Declarations.antt =====
-- The namespace and class declarations that NestingState.Update of tools/cpplint.py takes from the
-- beginning of a line, and InTemplateArgumentList.
use ringfile.Prelude.{
  ℕ, zero, suc, ◌+◌, ◌-◌, Bool, true, false, not, ◌&&◌, ◌||◌, ltb, leb, ◌==◌, Option, none, some,
  List, [], ◌∷◌, Text, if◌then◌else◌, codes, length, drop, same,
}
use ringfile.Prelude.Strings.{find, is_space}
use ringfile.Lint.Regex.{
  Hit, Re, match_re, group_or_empty, all_of, any_of, lit, char, not_in, sat, word, space, spaces,
  bol, eol, boundary, star, plus, maybe, group, dot, is_word, mem,
}
use ringfile.Lint.FileChecks.Guard.{line_at}
use ringfile.Lint.Cleanse.{CleansedLines}
use ringfile.Lint.Brackets.{close_expression}
use ringfile.Lint.Nesting.Block.{class_info, namespace_info, Block, new_block, new_class}
use ringfile.Lint.Nesting.Stack.{append_block, Nesting, append_block}

-- r'^[^{};=\[\]\.<>]*(.)'
abbrev pub suspect_re : Re
suspect_re = all_of (bol ∷ star (not_in (codes "{};=[].<>")) ∷ group 1 dot ∷ [])

-- token in cs, for one character
abbrev pub one_char : Text → Text → Bool
one_char [] cs = false
one_char (x ∷ s) cs = mem x cs

-- InTemplateArgumentList. A round passes a character or a line; `none` is that the fuel is spent, or
-- the IndexError of CloseExpression.
unfoldable pub in_template_argument_list : ℕ → List Text → ℕ → ℕ → Option Bool
in_template_argument_list zero lines linenum pos = none
in_template_argument_list (suc fuel) lines linenum pos =
    let line = line_at lines linenum in
    let next_line = in_template_argument_list fuel lines (linenum + 1) 0 in
    if not (ltb linenum (length lines))
    then some false
    else elim (match_re suspect_re (drop pos line)) [
      | none ↦ next_line
      | some h ↦
          let token = group_or_empty 1 h in
          let pos' = pos + length h.whole in
          let after_token =
            if leb (length line) (pos' + 1)
            then next_line
            else in_template_argument_list fuel lines linenum (pos' + 1) in
          let after_list : Option Bool = elim (close_expression lines linenum (pos' - 1)) [
            | none ↦ none
            | some p ↦ elim p.pos [
              | none ↦ some false
              | some end_pos ↦ in_template_argument_list fuel lines p.linenum end_pos
            ]
          ] in
          if one_char token (codes "{};")
          then some false
          else if one_char token (codes ">=[].")
          then some true
          else if not (same token (codes "<"))
          then after_token
          else after_list
    ]

-- r'^\s*namespace\b\s*([:\w]+)?(.*)$'
abbrev pub namespace_re : Re
namespace_re = all_of (
    bol
    ∷ spaces
    ∷ lit (codes "namespace")
    ∷ boundary
    ∷ spaces
    ∷ maybe (group 1 (plus (sat (λ x. mem x (codes ":") || is_word x))))
    ∷ group 2 (star dot)
    ∷ eol
    ∷ [])

-- A namespace declaration at the beginning of the line: what is behind it, and the state with it.
unfoldable pub begin_namespace : ℕ → Nesting → Option Hit → Option (Text × Nesting)
begin_namespace linenum s none = none
begin_namespace linenum s (some h) =
    let rest = group_or_empty 2 h in
    let brace = find rest (codes "{") in
    let seen : Bool = elim brace [ none ↦ false | some i ↦ true ] in
    let new : ℕ → Block = λ id.
      new_block id
        (namespace_info (record { name = group_or_empty 1 h; starting_linenum = linenum })) seen in
    some (elim brace [ none ↦ rest | some i ↦ drop (i + 1) rest ], append_block new s)

-- The loop over the namespace declarations at the beginning of the line, which gives what is left of
-- the line. A round leaves a shorter line, so that as many rounds as characters are enough.
unfoldable pub consume_namespaces : ℕ → ℕ → Text → Nesting → Text × Nesting
unfolding begin_namespace
consume_namespaces zero linenum line s = (line, s)
consume_namespaces (suc fuel) linenum line s =
    elim (begin_namespace linenum s (match_re namespace_re line)) [
      | none ↦ (line, s)
      | some (rest, s') ↦ consume_namespaces fuel linenum rest s'
    ]

-- r'^(\s*(?:template\s*<[\w\s<>,:]*>\s*)?(class|struct)\s+(?:[A-Z_]+\s+)*(\w+(?:::\w+)*))(.*)$'
abbrev pub class_re : Re
class_re = all_of (
    bol
    ∷ group 1 (
        all_of (
          spaces
          ∷ maybe (
              all_of (
                lit (codes "template")
                ∷ spaces
                ∷ char b'<'
                ∷ star (sat (λ x. mem x (codes "<>,:") || is_word x || is_space x))
                ∷ char b'>'
                ∷ spaces
                ∷ []))
          ∷ group 2 (any_of (lit (codes "class") ∷ lit (codes "struct") ∷ []))
          ∷ plus space
          ∷ star (
              all_of (
                plus (sat (λ x. mem x (codes "_") || (leb b'A' x && leb x b'Z')))
                ∷ plus space
                ∷ []))
          ∷ group 3 (all_of (plus word ∷ star (all_of (lit (codes "::") ∷ plus word ∷ [])) ∷ []))
          ∷ []))
    ∷ group 4 (star dot)
    ∷ eol
    ∷ [])

abbrev pub no_parentheses : List Block → Bool
no_parentheses [] = true
no_parentheses (b ∷ st) = b.opened == b.closed

-- The rounds that are enough for in_template_argument_list
abbrev pub characters : List Text → ℕ
characters [] = 1
characters (line ∷ lines) = length line + 1 + characters lines

-- A class declaration in what is left of the line
unfoldable pub begin_class :
    CleansedLines → ℕ → Text → Nesting → Option Hit → Option (Text × Nesting)
begin_class clean_lines linenum line s none = some (line, s)
begin_class clean_lines linenum line s (some h) =
    let new : ℕ → Block = λ id.
      new_block id
        (class_info (new_class (group_or_empty 3 h) (group_or_empty 2 h) clean_lines linenum))
        false in
    let in_arguments =
      in_template_argument_list (characters clean_lines.elided) clean_lines.elided linenum
        (length (group_or_empty 1 h)) in
    if not (no_parentheses s.braces.stack) then some (line, s) else elim in_arguments [
      | none ↦ none
      | some true ↦ some (line, s)
      | some false ↦ some (group_or_empty 4 h, append_block new s)
    ]

unfoldable pub consume_class : CleansedLines → ℕ → Text → Nesting → Option (Text × Nesting)
unfolding begin_class
consume_class clean_lines linenum line s =
    begin_class clean_lines linenum line s (match_re class_re line)
