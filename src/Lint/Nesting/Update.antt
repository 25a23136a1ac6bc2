-- ===== src/Lint/Nesting/Update.antt =====
-- NestingState.Update of tools/cpplint.py.
use mathlib.Core.Option
use ringfile.Prelude.{
  ℕ, ◌+◌, Bool, true, not, ◌&&◌, ◌||◌, ◌==◌, Option, none, some, List, [], ◌∷◌, ◌++◌, Text,
  if◌then◌else◌, codes, length,
}
use ringfile.Lint.Regex.{
  any_word, Hit, Re, match_re, matches, group_or_empty, all_of, any_of, lit, char, not_in, space,
  spaces, bol, eol, boundary, star, plus, maybe, group, dot,
}
use ringfile.Lint.Report.{Event}
use ringfile.Lint.FileChecks.{call}
use ringfile.Lint.FileChecks.Guard.{line_at}
use ringfile.Lint.Cleanse.{CleansedLines}
use ringfile.Lint.Nesting.Ends.{check_end, parent_name}
use ringfile.Lint.Conditions.{when}
use ringfile.Lint.Nesting.Block.{
  BlockKind, no_asm, block_asm, ClassInfo, block_info, extern_c_info, class_info, namespace_info,
  Block, new_block, check_begin,
}
use ringfile.Lint.Nesting.Stack.{
  Nesting, with_stack, append_block, seen_open_brace, on_top, update_directive, asm_re,
  count_parentheses,
}
use ringfile.Lint.Nesting.Declarations.{consume_namespaces, consume_class}

-- The check of what stands before the opening brace
unfoldable pub begin_checks : CleansedLines → ℕ → List Block → List Block
begin_checks clean_lines linenum st =
    if seen_open_brace st then st else on_top (check_begin clean_lines linenum) st

-- r'^(.*)\b(public|private|protected|signals)(\s+(?:slots\s*)?)?:(?:[^:]|$)'
abbrev pub access_re : Re
access_re = all_of (
    bol
    ∷ group 1 (star dot)
    ∷ boundary
    ∷ group 2 (any_word ("public" ∷ "private" ∷ "protected" ∷ "signals" ∷ []))
    ∷ maybe
        (group 3 (all_of (plus space ∷ maybe (all_of (lit (codes "slots") ∷ spaces ∷ [])) ∷ [])))
    ∷ char b':'
    ∷ any_of (not_in (codes ":") ∷ eol ∷ [])
    ∷ [])

-- r'^\s*$'
abbrev pub blank_re : Re
blank_re = all_of (bol ∷ spaces ∷ eol ∷ [])

-- The access keyword of a line in a class
unfoldable pub class_access : Text → ℕ → Option Hit → ClassInfo → ClassInfo × List Event
class_access filename linenum none c = (c, [])
class_access filename linenum (some h) c =
    let indent = group_or_empty 1 h in
    let keyword = group_or_empty 2 h in
    (
      record c { access = keyword },
      when (not (length indent == c.class_indent + 1) && matches blank_re indent) (
          call filename linenum (codes "whitespace/indent") 3 (
            keyword
            ++ group_or_empty 3 h
            ++ codes ": should be indented +1 space inside "
            ++ parent_name c)),
    )

unfoldable pub kind_access : Text → ℕ → Text → BlockKind → BlockKind × List Event
unfolding class_access
kind_access filename linenum line block_info = (block_info, [])
kind_access filename linenum line extern_c_info = (extern_c_info, [])
kind_access filename linenum line (namespace_info n) = (namespace_info n, [])
kind_access filename linenum line (class_info c) =
    let (c', events) = class_access filename linenum (match_re access_re line) c in
    (class_info c', events)

unfoldable pub update_access : Text → ℕ → Text → List Block → List Block × List Event
unfolding kind_access
update_access filename linenum line [] = ([], [])
update_access filename linenum line (b ∷ st) =
    let (kind, events) = kind_access filename linenum line b.kind in
    (record b { kind = kind } ∷ st, events)

-- r'^extern\s*"[^"]*"\s*\{'
abbrev pub extern_re : Re
extern_re = all_of (
    bol
    ∷ lit (codes "extern")
    ∷ spaces
    ∷ char b'"'
    ∷ star (not_in (codes "\""))
    ∷ char b'"'
    ∷ spaces
    ∷ char b'{'
    ∷ [])

-- The block of a brace in front of which `line` stands, with its rest.
unfoldable pub open_block : Text → ℕ → Block
open_block line id =
    if matches extern_re line
    then new_block id extern_c_info true
    else record (new_block id block_info true) {
      inline_asm = if matches asm_re line then block_asm else no_asm;
    }

-- An opening brace
unfoldable pub open_brace : Text → Nesting → Nesting
unfolding open_block
open_brace line s =
    if not (seen_open_brace s.braces.stack)
    then with_stack (on_top (λ (b : Block). record b { seen_open_brace = true }) s.braces.stack) s
    else append_block (open_block line) s

-- A semicolon or a closing parenthesis
unfoldable pub end_declaration : List Block → List Block
end_declaration [] = []
end_declaration (b ∷ st) = if b.seen_open_brace then b ∷ st else st

-- A closing brace
unfoldable pub close_brace : Text → CleansedLines → ℕ → List Block → List Block × List Event
close_brace filename clean_lines linenum [] = ([], [])
close_brace filename clean_lines linenum (b ∷ st) =
    (st, check_end filename clean_lines linenum b.kind)

abbrev pub is_token : ℕ → Bool
is_token c = c == b'{' || (c == b';' || (c == b')' || c == b'}'))

-- One round of the loop over braces and semicolons: `line` is what is left where it begins.
unfoldable pub at_token : Text → CleansedLines → ℕ → Text → ℕ → Nesting → Nesting × List Event
unfolding open_brace end_declaration close_brace
at_token filename clean_lines linenum line token s =
    if token == b'{'
    then (open_brace line s, [])
    else if token == b';' || token == b')'
    then (with_stack (end_declaration s.braces.stack) s, [])
    else let (st, events) = close_brace filename clean_lines linenum s.braces.stack in
      (with_stack st s, events)

-- The round at a character, if it is a token.
unfoldable pub at_character : Text → CleansedLines → ℕ → Text → ℕ → Nesting → Nesting × List Event
unfolding at_token
at_character filename clean_lines linenum line c s =
    if is_token c then at_token filename clean_lines linenum line c s else (s, [])

-- The loop. The expression r'^[^{;)}]*([{;)}])(.*)$' finds the first token of a line, since a line
-- has no newline: `rest` is what is left to look at of `line`.
unfoldable pub consume : Text → CleansedLines → ℕ → Text → Text → Nesting → Nesting × List Event
unfolding at_character
consume filename clean_lines linenum line [] s = (s, [])
consume filename clean_lines linenum line (c ∷ rest) s =
    let here = is_token c in
    let (s', events) = at_character filename clean_lines linenum line c s in
    let (s'', others) =
      consume filename clean_lines linenum (if here then rest else line) rest s' in
    (s'', events ++ others)

-- What Update does behind the declarations
unfoldable pub update_blocks : Text → CleansedLines → ℕ → Text → Nesting → Nesting × List Event
unfolding begin_checks update_access consume
update_blocks filename clean_lines linenum line s =
    let (st, access_events) =
      update_access filename linenum line (begin_checks clean_lines linenum s.braces.stack) in
    let (s', events) = consume filename clean_lines linenum line line (with_stack st s) in
    (s', access_events ++ events)

-- Update; `none` as for in_template_argument_list.
unfoldable pub update : Text → CleansedLines → ℕ → Nesting → Option (Nesting × List Event)
unfolding update_directive count_parentheses consume_namespaces consume_class update_blocks
update filename clean_lines linenum s =
    let line = line_at clean_lines.elided linenum in
    let s₁ = update_directive line s in
    let s₂ = with_stack (on_top (count_parentheses line) s₁.braces.stack) s₁ in
    let (rest, s₃) = consume_namespaces (length line) linenum line s₂ in
    Option.map (λ (rest', s₄). update_blocks filename clean_lines linenum rest' s₄)
      (consume_class clean_lines linenum rest s₃)
