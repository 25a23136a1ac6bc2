-- ===== src/Lint/Nesting/Block.antt =====
-- The blocks that class NestingState of tools/cpplint.py has on its stack: class _BlockInfo and the
-- classes below it, with their checks.
use ringfile.Prelude.{
  ℕ, ◌+◌, Bool, true, false, ◌==◌, List, [], ◌∷◌, Text, if◌then◌else◌, codes, drop, same,
}
use ringfile.Prelude.Strings.{count}
use ringfile.Lint.Regex.{Re, searches, all_of, any_of, char, not_in, bol, eol, group}
use ringfile.Lint.FileChecks.{get_indent_level}
use ringfile.Lint.FileChecks.Guard.{line_at}
use ringfile.Lint.Cleanse.{CleansedLines}

-- _NO_ASM, _INSIDE_ASM, _END_ASM, _BLOCK_ASM
pub data AsmState : Type 0 where
  no_asm inside_asm end_asm block_asm : AsmState

-- What a _ClassInfo has of its own.
pub record ClassInfo : Type 0 where
  pub name : Text
  pub starting_linenum : ℕ
  pub is_derived : Bool
  pub access : Text
  pub is_struct : Bool
  pub class_indent : ℕ
  pub last_line : ℕ

-- What a _NamespaceInfo has of its own.
pub record NamespaceInfo : Type 0 where
  pub name : Text
  pub starting_linenum : ℕ

-- The class of a block.
pub data BlockKind : Type 0 where
  block_info extern_c_info : BlockKind
  class_info : ClassInfo → BlockKind
  namespace_info : NamespaceInfo → BlockKind

-- A block is an object: `id` is its identity. open_parentheses, which may be negative, is the
-- difference of the parentheses that were opened and closed.
pub record Block : Type 0 where
  pub id : ℕ
  pub kind : BlockKind
  pub seen_open_brace : Bool
  pub opened : ℕ
  pub closed : ℕ
  pub inline_asm : AsmState

-- _BlockInfo.__init__
abbrev pub new_block : ℕ → BlockKind → Bool → Block
new_block id kind seen_open_brace = record {
  id = id;
  kind = kind;
  seen_open_brace = seen_open_brace;
  opened = 0;
  closed = 0;
  inline_asm = no_asm;
}

abbrev pub check_namespace_indentation : BlockKind → Bool
check_namespace_indentation block_info = false
check_namespace_indentation extern_c_info = false
check_namespace_indentation (class_info c) = true
check_namespace_indentation (namespace_info n) = true

abbrev pub is_namespace : BlockKind → Bool
is_namespace block_info = false
is_namespace extern_c_info = false
is_namespace (class_info c) = false
is_namespace (namespace_info n) = true

-- IsBlockInfo
abbrev pub is_block_info : BlockKind → Bool
is_block_info block_info = true
is_block_info extern_c_info = false
is_block_info (class_info c) = false
is_block_info (namespace_info n) = false

abbrev pub is_class : BlockKind → Bool
is_class block_info = false
is_class extern_c_info = false
is_class (class_info c) = true
is_class (namespace_info n) = false

-- The loop for last_line, over the lines from the one of the number on; the depth is the difference of
-- the braces that were opened and closed.
unfoldable pub last_line_from : List Text → ℕ → ℕ → ℕ → ℕ
last_line_from [] i opened closed = 0
last_line_from (line ∷ lines) i opened closed =
    let o = opened + count line (codes "{") in
    let c = closed + count line (codes "}") in
    let rest = last_line_from lines (i + 1) o c in if o == c then i else rest

-- _ClassInfo.__init__
unfoldable pub new_class : Text → Text → CleansedLines → ℕ → ClassInfo
unfolding last_line_from
new_class name class_or_struct clean_lines linenum = record {
  name = name;
  starting_linenum = linenum;
  is_derived = false;
  access = if same class_or_struct (codes "struct") then codes "public" else codes "private";
  is_struct = same class_or_struct (codes "struct");
  class_indent = get_indent_level (line_at clean_lines.raw_lines linenum);
  last_line = last_line_from (drop linenum clean_lines.elided) linenum 0 0;
}

-- r'(^|[^:]):($|[^:])'
abbrev pub bare_colon_re : Re
bare_colon_re = all_of (
    group 1 (any_of (bol ∷ not_in (codes ":") ∷ []))
    ∷ char b':'
    ∷ group 2 (any_of (eol ∷ not_in (codes ":") ∷ []))
    ∷ [])

-- CheckBegin
unfoldable pub check_begin : CleansedLines → ℕ → Block → Block
check_begin clean_lines linenum b = elim b.kind [
  | block_info ↦ b
  | extern_c_info ↦ b
  | namespace_info n ↦ b
  | class_info c ↦
      if searches bare_colon_re (line_at clean_lines.elided linenum)
      then record b { kind = class_info (record c { is_derived = true }) }
      else b
]
