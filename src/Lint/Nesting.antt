-- ===== src/Lint/Nesting.antt =====
-- class NestingState of tools/cpplint.py: the two stacks, and UpdatePreprocessor. What an element of
-- the stack of braces is does not matter here, and a deep copy of the stack is its value.
pub mod Branches
pub mod Block
pub mod Ends
pub mod Stack
pub mod Declarations
pub mod Update
pub mod Indentation
pub mod Braces
pub mod Sound
pub mod Plain
pub mod Files
mod Samples
mod Runs
use ringfile.Prelude.{Bool, true, false, List, [], ◌∷◌, Text, codes, if◌then◌else◌, map}
use ringfile.Lint.Regex.{Re, matches, all_of, any_of, lit, char, spaces, bol, boundary, group}

-- r'^\s*#\s*(if|ifdef|ifndef)\b', r'^\s*#\s*(else|elif)\b', r'^\s*#\s*endif\b'
abbrev pub directive_re : List Text → Re
directive_re names =
    all_of (bol ∷ spaces ∷ char b'#' ∷ spaces ∷ group 1 (any_of (map lit names)) ∷ boundary ∷ [])

-- The three kinds of directives that UpdatePreprocessor tells apart, and all other lines.
pub data Directive : Type 0 where
  begin_if begin_else end_if no_directive : Directive

unfoldable pub directive : Text → Directive
directive line =
    if matches (directive_re (codes "if" ∷ codes "ifdef" ∷ codes "ifndef" ∷ [])) line
    then begin_if
    else if matches (directive_re (codes "else" ∷ codes "elif" ∷ [])) line
    then begin_else
    else if matches (directive_re (codes "endif" ∷ [])) line
    then end_if
    else no_directive

module _ {ℓ} (A : Type ℓ) where
  -- _PreprocessorInfo
  pub record PreprocessorInfo : Type ℓ where
    pub stack_before_if : List A
    pub stack_before_else : List A
    pub seen_else : Bool

  pub record NestingState : Type ℓ where
    pub stack : List A
    pub pp_stack : List PreprocessorInfo

  unfoldable pub init : NestingState
  init = record { stack = []; pp_stack = [] }

  -- The first #else or #elif keeps the stack for the #endif.
  unfoldable pub see_else : List A → PreprocessorInfo → PreprocessorInfo
  see_else stack p =
      if p.seen_else then p else record p { seen_else = true; stack_before_else = stack }

  unfoldable pub at_if : NestingState → NestingState
  at_if s = record s {
    pp_stack =
        record { stack_before_if = s.stack; stack_before_else = []; seen_else = false }
        ∷ s.pp_stack;
  }

  unfoldable pub at_else : NestingState → NestingState
  unfolding see_else
  at_else s = elim s.pp_stack [
    | [] ↦ s
    | p ∷ ps ↦ record { stack = p.stack_before_if; pp_stack = see_else s.stack p ∷ ps }
  ]

  unfoldable pub at_endif : NestingState → NestingState
  at_endif s = elim s.pp_stack [
    | [] ↦ s
    | p ∷ ps ↦ record {
      stack = if p.seen_else then p.stack_before_else else s.stack;
      pp_stack = ps;
    }
  ]

  unfoldable pub act : Directive → NestingState → NestingState
  unfolding at_if at_else at_endif
  act begin_if s = at_if s
  act begin_else s = at_else s
  act end_if s = at_endif s
  act no_directive s = s

  unfoldable pub update_preprocessor : Text → NestingState → NestingState
  update_preprocessor line s = act (directive line) s
