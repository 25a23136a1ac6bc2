-- ===== src/Lint/Nesting/Files.antt =====
-- NestingState.Update over the lines of a file.
use mathlib.Core.Path.{subst}
use mathlib.Core.Option.{none-ne-some}
use mathlib.Core.List.{append-nil}
use ringfile.Prelude.{
  ℕ, ◌≡◌, refl, ap, ◌∙◌, sym, Option, none, some, List, [], ◌∷◌, ◌++◌, Text, All, length, some_eq,
  Option-cases, inl, inr,
}
use ringfile.Lint.Report.{Event}
use ringfile.Lint.Regex.{match_re}
use ringfile.Lint.FileChecks.Guard.{line_at}
use ringfile.Lint.Cleanse.{CleansedLines}
use ringfile.Lint.Nesting as States
use ringfile.Lint.Nesting.{no_directive, directive, update_preprocessor, act}
use ringfile.Lint.Nesting.Stack.{
  init, Nesting, with_stack, on_top, count_parentheses, update_directive, check_completed_blocks,
}
use ringfile.Lint.Nesting.Declarations.{namespace_re, class_re, consume_namespaces, consume_class}
use ringfile.Lint.Nesting.Update.{update, update_blocks, consume, begin_checks, update_access}
use ringfile.Lint.Nesting.Plain.{
  plain-seen, count-IsPlain, length-count, namespaces-none, class-none, directive-none,
  access-plain, begin-seen, completed-plain,
}
use ringfile.Lint.Nesting.Braces.{IsPlain, open_after, consume_lem}

-- Reports that come before others.
abbrev join : List Event → Option (Nesting × List Event) → Option (Nesting × List Event)
join events none = none
join events (some (s, others)) = some (s, events ++ others)

-- The lines of the numbers, one after the other.
unfoldable pub update_lines :
    Text → CleansedLines → List ℕ → Nesting → Option (Nesting × List Event)
update_lines filename clean_lines [] s = some (s, [])
update_lines filename clean_lines (l ∷ ls) s = elim (update filename clean_lines l s) [
  | none ↦ none
  | some (s', events) ↦ join events (update_lines filename clean_lines ls s')
]

-- A line that is no directive and begins no namespace or class.
abbrev pub IsCode : Text → Type 0
IsCode line =
    (directive line ≡ no_directive)
    × ((match_re namespace_re line ≡ none) × (match_re class_re line ≡ none))

-- How many blocks are open behind the lines, of so many before them.
unfoldable pub open_after_lines : CleansedLines → List ℕ → ℕ → Option ℕ
open_after_lines clean_lines [] n = some n
open_after_lines clean_lines (l ∷ ls) n = elim (open_after n (line_at clean_lines.elided l)) [
  | none ↦ none
  | some m ↦ open_after_lines clean_lines ls m
]

module _ (filename : Text) (clean_lines : CleansedLines) where
  -- A state with so many blocks, all plain.
  abbrev pub IsOpen : ℕ → Nesting → Type 0
  IsOpen n s = (length s.braces.stack ≡ n) × All IsPlain s.braces.stack

  consume-IsOpen :
      (l : ℕ) (line : Text) (s : Nesting) (k n : ℕ)
      → IsOpen k s
      → open_after k line ≡ some n
      → IsOpen n (consume filename clean_lines l line line s).0
        × ((consume filename clean_lines l line line s).1 ≡ [])
  consume-IsOpen l line s k n (e, p) o =
      let st = s.braces.stack in
      let r = consume filename clean_lines l line line s in
      let (st', e', n', p', v) =
        consume_lem filename clean_lines l line line st [] s n (sym (append-nil st)) p refl
          (ap (λ m. open_after m line) e ∙ o) in
      let stack : r.0.braces.stack ≡ st' = e' ∙ append-nil st' in
      ((ap length stack ∙ n', subst (λ x. All IsPlain x) (sym stack) p'), v)

  blocks-IsOpen :
      (l : ℕ) (line : Text) (s : Nesting) (k n : ℕ)
      → IsOpen k s
      → open_after k line ≡ some n
      → IsOpen n (update_blocks filename clean_lines l line s).0
        × ((update_blocks filename clean_lines l line s).1 ≡ [])
  unfolding update_blocks
  blocks-IsOpen l line s k n (e, p) o =
      let st = s.braces.stack in
      let begun : begin_checks clean_lines l st ≡ st =
        begin-seen clean_lines l st (plain-seen st p) in
      let access : update_access filename l line (begin_checks clean_lines l st) ≡ (st, []) =
        ap (update_access filename l line) begun ∙ access-plain filename l line st p in
      rw access (consume-IsOpen l line s k n (e, p) o)

  declarations-none :
      (l : ℕ) (line : Text) (s : Nesting)
      → IsCode line
      → consume_class clean_lines l
          (consume_namespaces (length line) l line s).0
          (consume_namespaces (length line) l line s).1
        ≡ some (line, s)
  declarations-none l line s (d, (ns, cl)) =
      ap (λ r. consume_class clean_lines l r.0 r.1) (namespaces-none (length line) l line s ns)
      ∙ class-none clean_lines l line s cl

  -- A line of code, behind which so many blocks are open.
  update-IsOpen :
      (l : ℕ) (s : Nesting) (k n : ℕ)
      → IsCode (line_at clean_lines.elided l)
      → IsOpen k s
      → open_after k (line_at clean_lines.elided l) ≡ some n
      → (s' : Nesting) × (update filename clean_lines l s ≡ some (s', [])) × IsOpen n s'
  unfolding update
  update-IsOpen l s k n c (e, p) o =
      let line = line_at clean_lines.elided l in
      let s₁ = update_directive line s in
      let s₂ = with_stack (on_top (count_parentheses line) s₁.braces.stack) s₁ in
      let kept : s₁.braces.stack ≡ s.braces.stack = directive-none line s c.0 in
      let open₂ : IsOpen k s₂ = (
        length-count line s₁.braces.stack ∙ (ap length kept ∙ e),
        count-IsPlain line s₁.braces.stack (subst (λ x. All IsPlain x) (sym kept) p),
      ) in
      let (open₃, v) = blocks-IsOpen l line s₂ k n open₂ o in
      let r = update_blocks filename clean_lines l line s₂ in
      (
        r.0,
        ap
              (λ x. elim x [
                | none ↦ none
                | some y ↦ some (update_blocks filename clean_lines l y.0 y.1)
              ])
              (declarations-none l line s₂ c)
            ∙ ap (λ x. some (r.0, x)) v,
        open₃,
      )

  -- The lines one after the other.
  pub update_lines-IsOpen :
      (ls : List ℕ) (s : Nesting) (k n : ℕ)
      → All (λ l. IsCode (line_at clean_lines.elided l)) ls
      → IsOpen k s
      → open_after_lines clean_lines ls k ≡ some n
      → (s' : Nesting) × (update_lines filename clean_lines ls s ≡ some (s', [])) × IsOpen n s'
  unfolding update_lines open_after_lines
  update_lines-IsOpen [] s k n c h o = (s, refl, (h.0 ∙ some_eq o, h.1))
  update_lines-IsOpen (l ∷ ls) s k n c h o =
      elim (Option-cases (open_after k (line_at clean_lines.elided l))) [
        | inl closed ↦ absurd (
            none-ne-some n (
              sym (
                ap (λ x. elim x [ none ↦ none | some m ↦ open_after_lines clean_lines ls m ])
                  closed)
              ∙ o))
        | inr (m, at_m) ↦
            let (s₁, u₁, h₁) = update-IsOpen l s k m c.0 h at_m in
            let o' : open_after_lines clean_lines ls m ≡ some n =
              sym
                (ap (λ x. elim x [ none ↦ none | some m ↦ open_after_lines clean_lines ls m ]) at_m)
              ∙ o in
            let (s₂, u₂, h₂) = update_lines-IsOpen ls s₁ m n c.1 h₁ o' in
            (
              s₂,
              ap
                    (λ x. elim x [
                      | none ↦ none
                      | some (s', v) ↦ join v (update_lines filename clean_lines ls s')
                    ])
                    u₁
                  ∙ ap (join []) u₂,
              h₂,
            )
      ]

  -- Lines that are no directive and begin no namespace or class, and whose braces are balanced, are no
  -- cause for a report: Update gives a state with no report, no block is left on the stack, and
  -- CheckCompletedBlocks reports nothing.
  pub update_lines-completed :
      (ls : List ℕ)
      → All (λ l. IsCode (line_at clean_lines.elided l)) ls
      → open_after_lines clean_lines ls 0 ≡ some 0
      → (s' : Nesting) × (update_lines filename clean_lines ls init ≡ some (s', []))
        × (length s'.braces.stack ≡ 0)
        × (check_completed_blocks filename s'.braces.stack ≡ [])
  unfolding init States.init
  update_lines-completed ls c o =
      let (s', u, (e, p)) = update_lines-IsOpen ls init 0 0 c (refl, tt) o in
      (s', u, e, completed-plain filename s'.braces.stack p)
