-- ===== src/Lint/Nesting/Indentation.antt =====
-- CheckForNamespaceIndentation of tools/cpplint.py, and the functions that it calls.
use ringfile.Prelude.{
  ℕ, Bool, true, false, not, ◌&&◌, ◌||◌, ◌==◌, none, some, List, [], ◌∷◌, Text, if◌then◌else◌,
  codes,
}
use ringfile.Lint.Regex.{Re, matches, all_of, space, bol, plus}
use ringfile.Lint.Report.{Event}
use ringfile.Lint.FileChecks.{call}
use ringfile.Lint.FileChecks.Guard.{line_at}
use ringfile.Lint.Cleanse.{CleansedLines}
use ringfile.Lint.Conditions.{when}
use ringfile.Lint.LineChecks.{is_macro_definition, is_forward_class_declaration}
use ringfile.Lint.Nesting.Block.{Block, check_namespace_indentation, is_namespace}
use ringfile.Lint.Nesting.Stack.{Nesting, top_is}

-- IsBlockInNameSpace
unfoldable pub is_block_in_name_space : List Block → Bool → Bool
is_block_in_name_space st true = top_is is_namespace st
is_block_in_name_space [] false = false
is_block_in_name_space (b ∷ st) false = check_namespace_indentation b.kind && top_is is_namespace st

-- ShouldCheckNamespaceIndentation
unfoldable pub should_check_namespace_indentation : List Block → Bool → List Text → ℕ → Bool
unfolding is_block_in_name_space
should_check_namespace_indentation st is_namespace_indent_item raw_lines_no_comments linenum =
    let is_forward_declaration = is_forward_class_declaration raw_lines_no_comments linenum in
    (is_namespace_indent_item || is_forward_declaration)
    && not (is_macro_definition raw_lines_no_comments linenum)
    && is_block_in_name_space st is_forward_declaration

-- r'^\s+'
abbrev pub indented_re : Re
indented_re = all_of (bol ∷ plus space ∷ [])

-- CheckItemIndentationInNamespace
unfoldable pub check_item_indentation_in_namespace : Text → List Text → ℕ → List Event
check_item_indentation_in_namespace filename raw_lines_no_comments linenum =
    when (matches indented_re (line_at raw_lines_no_comments linenum)) (
      call filename linenum (codes "runtime/indentation_namespace") 4
        (codes "Do not indent within a namespace"))

-- Whether the innermost block was just put on the stack, in a namespace: the previous top of the stack
-- is a namespace and the same object as the block below the innermost.
unfoldable pub is_namespace_indent_item : Nesting → Bool
is_namespace_indent_item s = elim s.braces.stack [
  | [] ↦ false
  | b ∷ st ↦ elim st [
    | [] ↦ false
    | outer ∷ rest ↦ elim s.previous_stack_top [
      | none ↦ false
      | some previous ↦
          check_namespace_indentation b.kind
          && is_namespace previous.kind
          && previous.id == outer.id
    ]
  ]
]

-- CheckForNamespaceIndentation
unfoldable pub check_for_namespace_indentation : Text → Nesting → CleansedLines → ℕ → List Event
unfolding should_check_namespace_indentation is_namespace_indent_item
check_for_namespace_indentation filename s clean_lines line =
    if should_check_namespace_indentation s.braces.stack (is_namespace_indent_item s)
      clean_lines.elided line
    then check_item_indentation_in_namespace filename clean_lines.elided line
    else []
