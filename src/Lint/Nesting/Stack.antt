-- ===== src/Lint/Nesting/Stack.antt =====
-- The stack of class NestingState of tools/cpplint.py: what it is asked for, its handling of
-- directives and of inline assembly, and CheckCompletedBlocks.
use ringfile.Prelude.{
  ℕ, ◌+◌, Bool, true, false, not, ◌&&◌, ◌==◌, Option, none, some, List, [], ◌∷◌, ◌++◌, Text,
  if◌then◌else◌, codes, map,
}
use ringfile.Prelude.Strings.{count}
use ringfile.Lint.Regex.{
  any_word, Re, matches, all_of, any_of, lit, in_class, space, spaces, bol, plus, maybe, group,
}
use ringfile.Lint.Report.{Event}
use ringfile.Lint.FileChecks.{call}
use ringfile.Lint.Nesting as States
use ringfile.Lint.Nesting.{
  NestingState, Directive, begin_if, begin_else, end_if, no_directive, directive,
  update_preprocessor,
}
use ringfile.Lint.Nesting.Block.{
  AsmState, no_asm, inside_asm, end_asm, block_asm, ClassInfo, BlockKind, block_info, extern_c_info,
  class_info, namespace_info, Block, is_namespace, is_class,
}

-- The object. Of the previous top of the stack only the class and the identity are asked for, which no
-- later step changes, so that its value is kept. `next_id` is above all identities.
pub record Nesting : Type 0 where
  pub braces : NestingState Block
  pub previous_stack_top : Option Block
  pub next_id : ℕ

unfoldable pub init : Nesting
unfolding States.init
init = record { braces = States.init Block; previous_stack_top = none; next_id = 0 }

abbrev pub with_stack : List Block → Nesting → Nesting
with_stack st s = record s { braces = record s.braces { stack = st } }

-- self.stack.append(block), for a block that is made from its identity
abbrev pub append_block : (ℕ → Block) → Nesting → Nesting
append_block new s = record (with_stack (new s.next_id ∷ s.braces.stack) s) {
  next_id = s.next_id + 1;
}

abbrev pub top : List Block → Option Block
top [] = none
top (b ∷ st) = some b

-- SeenOpenBrace
abbrev pub seen_open_brace : List Block → Bool
seen_open_brace [] = true
seen_open_brace (b ∷ st) = b.seen_open_brace

abbrev pub top_is : (BlockKind → Bool) → List Block → Bool
top_is p [] = false
top_is p (b ∷ st) = p b.kind

abbrev pub on_top : (Block → Block) → List Block → List Block
on_top f [] = []
on_top f (b ∷ st) = f b ∷ st

-- InNamespaceBody, InExternC, InClassDeclaration, InAsmBlock
unfoldable pub in_namespace_body : Nesting → Bool
in_namespace_body s = top_is is_namespace s.braces.stack

abbrev pub is_extern_c : BlockKind → Bool
is_extern_c block_info = false
is_extern_c extern_c_info = true
is_extern_c (class_info c) = false
is_extern_c (namespace_info n) = false

unfoldable pub in_extern_c : Nesting → Bool
in_extern_c s = top_is is_extern_c s.braces.stack

unfoldable pub in_class_declaration : Nesting → Bool
in_class_declaration s = top_is is_class s.braces.stack

abbrev pub is_asm : AsmState → Bool
is_asm no_asm = false
is_asm inside_asm = true
is_asm end_asm = true
is_asm block_asm = true

unfoldable pub in_asm_block : Nesting → Bool
in_asm_block s = elim s.braces.stack [ [] ↦ false | b ∷ st ↦ is_asm b.inline_asm ]

-- InnermostClass
unfoldable pub innermost_class : List Block → Option ClassInfo
innermost_class [] = none
innermost_class (b ∷ st) = elim b.kind [
  | class_info c ↦ some c
  | block_info ↦ innermost_class st
  | extern_c_info ↦ innermost_class st
  | namespace_info n ↦ innermost_class st
]

-- Identities of a deep copy.
abbrev pub renew : ℕ → List Block → List Block
renew n st = map (λ (b : Block). record b { id = b.id + n }) st

-- Whether UpdatePreprocessor puts a deep copy in the place of the stack.
unfoldable pub replaces_stack : Directive → NestingState Block → Bool
replaces_stack begin_if s = false
replaces_stack begin_else s = elim s.pp_stack [ [] ↦ false | p ∷ ps ↦ true ]
replaces_stack end_if s = elim s.pp_stack [ [] ↦ false | p ∷ ps ↦ p.seen_else ]
replaces_stack no_directive s = false

-- The top of the stack is kept, and the directives are handled.
unfoldable pub update_directive : Text → Nesting → Nesting
unfolding replaces_stack
update_directive line s =
    let braces = update_preprocessor Block line s.braces in
    if replaces_stack (directive line) s.braces
    then record {
      braces = record braces { stack = renew s.next_id braces.stack };
      previous_stack_top = top s.braces.stack;
      next_id = s.next_id + s.next_id;
    }
    else record s { braces = braces; previous_stack_top = top s.braces.stack }

-- _MATCH_ASM: r'^\s*(?:asm|_asm|__asm|__asm__)(?:\s+(volatile|__volatile__))?\s*[{(]'
abbrev pub asm_re : Re
asm_re = all_of (
    bol
    ∷ spaces
    ∷ any_word ("asm" ∷ "_asm" ∷ "__asm" ∷ "__asm__" ∷ [])
    ∷ maybe (
        all_of (
          plus space
          ∷ group 1 (any_of (lit (codes "volatile") ∷ lit (codes "__volatile__") ∷ []))
          ∷ []))
    ∷ spaces
    ∷ in_class (codes "{(")
    ∷ [])

unfoldable pub enter_asm : Text → ℕ → ℕ → Block → AsmState
enter_asm line opening closing b =
    if not (opening == closing) && (b.opened == b.closed + 1) && matches asm_re line
    then inside_asm
    else no_asm

-- The state of inline assembly, at a line with so many parentheses.
unfoldable pub next_asm : Text → ℕ → ℕ → Block → AsmState
next_asm line opening closing b = elim b.inline_asm [
  | inside_asm ↦ if b.opened == b.closed then end_asm else inside_asm
  | block_asm ↦ block_asm
  | no_asm ↦ enter_asm line opening closing b
  | end_asm ↦ enter_asm line opening closing b
]

-- The parentheses of the line, for the innermost block.
unfoldable pub count_parentheses : Text → Block → Block
unfolding next_asm
count_parentheses line b =
    let opening = count line (codes "(") in
    let closing = count line (codes ")") in
    let b' = record b { opened = b.opened + opening; closed = b.closed + closing } in
    record b' { inline_asm = next_asm line opening closing b' }

-- CheckCompletedBlocks, for a block that is left
unfoldable pub uncompleted : Text → BlockKind → List Event
uncompleted filename block_info = []
uncompleted filename extern_c_info = []
uncompleted filename (class_info c) =
    call filename c.starting_linenum (codes "build/class") 5
      (codes "Failed to find complete declaration of class " ++ c.name)
    ∷ []
uncompleted filename (namespace_info n) =
    call filename n.starting_linenum (codes "build/namespaces") 5
      (codes "Failed to find complete declaration of namespace " ++ n.name)
    ∷ []

-- CheckCompletedBlocks: the outermost block comes first.
unfoldable pub check_completed_blocks : Text → List Block → List Event
unfolding uncompleted
check_completed_blocks filename [] = []
check_completed_blocks filename (b ∷ st) =
    check_completed_blocks filename st ++ uncompleted filename b.kind
