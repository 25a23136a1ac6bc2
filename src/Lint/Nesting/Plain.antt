-- ===== src/Lint/Nesting/Plain.antt =====
-- What the steps of NestingState.Update do on a line that is no directive and declares no namespace or
-- class, where no block on the stack stands for a declaration.
use ringfile.Prelude.{
  ◌⊎◌, ap, ℕ, zero, suc, ◌≡◌, refl, ap, true, none, some, List, [], ◌∷◌, Text, All, length, inl,
  inr,
}
use ringfile.Lint.Regex.{match_re}
use ringfile.Lint.Cleanse.{CleansedLines}
use ringfile.Lint.Nesting.{no_directive, directive, update_preprocessor, act}
use ringfile.Lint.Nesting.Block.{BlockKind, block_info, extern_c_info, Block}
use ringfile.Lint.Nesting.Stack.{
  Nesting, on_top, count_parentheses, update_directive, replaces_stack, seen_open_brace,
  check_completed_blocks, uncompleted,
}
use ringfile.Lint.Nesting.Declarations.{
  namespace_re, class_re, begin_class, begin_namespace, consume_namespaces, consume_class,
}
use ringfile.Lint.Nesting.Update.{kind_access, begin_checks, update_access}
use ringfile.Lint.Nesting.Braces.{IsPlain}

pub plain-seen : (st : List Block) → All IsPlain st → seen_open_brace st ≡ true
plain-seen [] h = refl
plain-seen (b ∷ st) h = h.0.0

pub count-IsPlain :
    (line : Text) (st : List Block)
    → All IsPlain st
    → All IsPlain (on_top (count_parentheses line) st)
unfolding count_parentheses
count-IsPlain line [] h = h
count-IsPlain line (b ∷ st) h = h

pub length-count :
    (line : Text) (st : List Block) → length (on_top (count_parentheses line) st) ≡ length st
length-count line [] = refl
length-count line (b ∷ st) = refl

pub namespaces-none :
    (fuel linenum : ℕ) (line : Text) (s : Nesting)
    → match_re namespace_re line ≡ none
    → consume_namespaces fuel linenum line s ≡ (line, s)
unfolding consume_namespaces begin_namespace
namespaces-none zero linenum line s h = refl
namespaces-none (suc fuel) linenum line s h =
    ap
      (λ o. elim (begin_namespace linenum s o) [
        | none ↦ (line, s)
        | some (rest, s') ↦ consume_namespaces fuel linenum rest s'
      ])
      h

pub class-none :
    (clean_lines : CleansedLines) (linenum : ℕ) (line : Text) (s : Nesting)
    → match_re class_re line ≡ none
    → consume_class clean_lines linenum line s ≡ some (line, s)
unfolding consume_class begin_class
class-none clean_lines linenum line s h = ap (begin_class clean_lines linenum line s) h

pub directive-none :
    (line : Text) (s : Nesting)
    → directive line ≡ no_directive
    → (update_directive line s).braces.stack ≡ s.braces.stack
unfolding update_directive update_preprocessor act replaces_stack
directive-none line s h = rw h refl

kind_access-plain :
    (filename : Text) (linenum : ℕ) (line : Text) (k : BlockKind)
    → (k ≡ block_info) ⊎ (k ≡ extern_c_info)
    → kind_access filename linenum line k ≡ (k, [])
unfolding kind_access
kind_access-plain filename linenum line k (inl e) = rw e refl
kind_access-plain filename linenum line k (inr e) = rw e refl

pub access-plain :
    (filename : Text) (linenum : ℕ) (line : Text) (st : List Block)
    → All IsPlain st
    → update_access filename linenum line st ≡ (st, [])
unfolding update_access
access-plain filename linenum line [] h = refl
access-plain filename linenum line (b ∷ st) (p, h) =
    ap (λ r. (record b { kind = r.0 } ∷ st, r.1))
      (kind_access-plain filename linenum line b.kind p.1)

pub begin-seen :
    (clean_lines : CleansedLines) (linenum : ℕ) (st : List Block)
    → seen_open_brace st ≡ true
    → begin_checks clean_lines linenum st ≡ st
unfolding begin_checks
begin-seen clean_lines linenum st h = rw h refl

pub completed-plain :
    (filename : Text) (st : List Block) → All IsPlain st → check_completed_blocks filename st ≡ []
unfolding check_completed_blocks uncompleted
completed-plain filename [] h = refl
completed-plain filename (b ∷ st) ((s, inl k), h) = rw k (rw (completed-plain filename st h) refl)
completed-plain filename (b ∷ st) ((s, inr k), h) = rw k (rw (completed-plain filename st h) refl)
