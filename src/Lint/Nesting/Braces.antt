-- ===== src/Lint/Nesting/Braces.antt =====
-- The loop of NestingState.Update over braces: balanced braces leave the stack as it was.
use mathlib.Core.Option.{none-ne-some}
use ringfile.Prelude.{
  ℕ, zero, suc, ◌≡◌, refl, ap, ◌∙◌, sym, true, false, ◌==◌, Option, none, some, List, [], ◌∷◌, ◌++◌,
  Text, if◌then◌else◌, arith, All, length, Bool-cases, inl, inr, ◌⊎◌, some_eq,
}
use ringfile.Lint.Report.{Event}
use ringfile.Lint.Cleanse.{CleansedLines}
use ringfile.Lint.Nesting.Ends.{check_end}
use ringfile.Lint.Nesting.Block.{block_info, extern_c_info, Block}
use ringfile.Lint.Nesting.Stack.{Nesting, with_stack, seen_open_brace}
use ringfile.Lint.Nesting.Update.{
  open_block, open_brace, end_declaration, close_brace, is_token, at_token, at_character, consume,
}

-- How many blocks are open behind a text, of so many before it; `none` where one is closed that is not
-- of these.
unfoldable pub open_after : ℕ → Text → Option ℕ
open_after n [] = some n
open_after n (c ∷ text) =
    let rest = open_after (suc n) text in
    let same = open_after n text in
    let less : Option ℕ = elim n [ zero ↦ none | suc m ↦ open_after m text ] in
    if c == b'{' then rest else if c == b'}' then less else same

-- A block that no declaration stands for: its end is not checked.
abbrev pub IsPlain : Block → Type 0
IsPlain b = (b.seen_open_brace ≡ true) × ((b.kind ≡ block_info) ⊎ (b.kind ≡ extern_c_info))

open_block-IsPlain : (line : Text) (id : ℕ) → IsPlain (open_block line id)
unfolding open_block
open_block-IsPlain line id = ground arith

module _ (filename : Text) (clean_lines : CleansedLines) (linenum : ℕ) where
  check_end-nil : (b : Block) → IsPlain b → check_end filename clean_lines linenum b.kind ≡ []
  unfolding check_end
  check_end-nil b (s, inl k) = rw k refl
  check_end-nil b (s, inr k) = rw k refl

  seen_open_brace-append :
      (bs st : List Block)
      → All IsPlain bs
      → seen_open_brace st ≡ true
      → seen_open_brace (bs ++ st) ≡ true
  seen_open_brace-append [] st h k = k
  seen_open_brace-append (b ∷ bs) st h k = h.0.0

  end_declaration-seen : (st : List Block) → seen_open_brace st ≡ true → end_declaration st ≡ st
  unfolding end_declaration
  end_declaration-seen [] h = refl
  end_declaration-seen (b ∷ st) h = rw h refl

  module _ (line text : Text) (c : ℕ) (s : Nesting) where
    at_character-opens :
        (c == b'{') ≡ true
        → at_character filename clean_lines linenum line c s ≡ (open_brace line s, [])
    unfolding at_character at_token
    at_character-opens h = ground arith

    at_character-closes :
        (c == b'{') ≡ false
        → (c == b'}') ≡ true
        → at_character filename clean_lines linenum line c s ≡ (
          with_stack (close_brace filename clean_lines linenum s.braces.stack).0 s,
          (close_brace filename clean_lines linenum s.braces.stack).1,
        )
    unfolding at_character at_token
    at_character-closes g h = ground arith

    at_character-ends :
        (c == b'{') ≡ false
        → (c == b'}') ≡ false
        → (at_character filename clean_lines linenum line c s
            ≡ (with_stack (end_declaration s.braces.stack) s, []))
          ⊎ (at_character filename clean_lines linenum line c s ≡ (s, []))
    unfolding at_character at_token
    at_character-ends g h = ground arith

    open_after-opens :
        (k : ℕ) → (c == b'{') ≡ true → open_after k (c ∷ text) ≡ open_after (suc k) text
    unfolding open_after
    open_after-opens k h = rw h refl

    open_after-closes :
        (k : ℕ)
        → (c == b'{') ≡ false
        → (c == b'}') ≡ true
        → open_after (suc k) (c ∷ text) ≡ open_after k text
    unfolding open_after
    open_after-closes k g h = rw g (rw h refl)

    open_after-none : (c == b'{') ≡ false → (c == b'}') ≡ true → open_after 0 (c ∷ text) ≡ none
    unfolding open_after
    open_after-none g h = rw g (rw h refl)

    open_after-ends :
        (k : ℕ)
        → (c == b'{') ≡ false
        → (c == b'}') ≡ false
        → open_after k (c ∷ text) ≡ open_after k text
    unfolding open_after
    open_after-ends k g h = rw g (rw h refl)

  -- One character, of a text behind which n blocks are open.
  abbrev Round : Text → List Block → ℕ → Nesting × List Event → Type 0
  Round text st n r =
      (bs' : List Block) × (r.0.braces.stack ≡ bs' ++ st)
      × All IsPlain bs'
      × (open_after (length bs') text ≡ some n)
      × (r.1 ≡ [])

  opens-Round :
      (line text : Text) (bs st : List Block) (s : Nesting) (n : ℕ)
      → s.braces.stack ≡ bs ++ st
      → All IsPlain bs
      → seen_open_brace st ≡ true
      → open_after (suc (length bs)) text ≡ some n
      → Round text st n (open_brace line s, [])
  unfolding open_brace
  opens-Round line text bs st s n e p h o =
      let seen : seen_open_brace s.braces.stack ≡ true =
        ap seen_open_brace e ∙ seen_open_brace-append bs st p h in
      (
        open_block line s.next_id ∷ bs,
        rw seen (ap (λ x. open_block line s.next_id ∷ x) e),
        (open_block-IsPlain line s.next_id, p),
        o,
        refl,
      )

  closes-Round :
      (line text : Text) (c : ℕ) (bs st : List Block) (s : Nesting) (n : ℕ)
      → (c == b'{') ≡ false
      → (c == b'}') ≡ true
      → s.braces.stack ≡ bs ++ st
      → All IsPlain bs
      → open_after (length bs) (c ∷ text) ≡ some n
      → Round text st n (at_character filename clean_lines linenum line c s)
  unfolding close_brace
  closes-Round line text c [] st s n g h e p o =
      absurd (none-ne-some n (sym (open_after-none line text c s g h) ∙ o))
  closes-Round line text c (b ∷ bs) st s n g h e p o = rw (at_character-closes line text c s g h) (
      rw e (
        bs,
        refl,
        p.1,
        sym (open_after-closes line text c s (length bs) g h) ∙ o,
        check_end-nil b p.0,
      ))

  round :
      (line text : Text) (c : ℕ) (bs st : List Block) (s : Nesting) (n : ℕ)
      → s.braces.stack ≡ bs ++ st
      → All IsPlain bs
      → seen_open_brace st ≡ true
      → open_after (length bs) (c ∷ text) ≡ some n
      → Round text st n (at_character filename clean_lines linenum line c s)
  round line text c bs st s n e p h o = elim (Bool-cases (c == b'{')) [
    | inl opens ↦ rw (at_character-opens line text c s opens) (
        opens-Round line text bs st s n e p h
          (sym (open_after-opens line text c s (length bs) opens) ∙ o))
    | inr not_opens ↦ elim (Bool-cases (c == b'}')) [
      | inl closes ↦ closes-Round line text c bs st s n not_opens closes e p o
      | inr not_closes ↦
          let o' = sym (open_after-ends line text c s (length bs) not_opens not_closes) ∙ o in
          let seen : seen_open_brace s.braces.stack ≡ true =
            ap seen_open_brace e ∙ seen_open_brace-append bs st p h in
          elim (at_character-ends line text c s not_opens not_closes) [
            | inl ends ↦ rw ends (bs, end_declaration-seen s.braces.stack seen ∙ e, p, o', refl)
            | inr other ↦ rw other (bs, e, p, o', refl)
          ]
    ]
  ]

  -- The blocks that are open behind a text of which as many are open before.
  pub consume_lem :
      (line text : Text) (bs st : List Block) (s : Nesting) (n : ℕ)
      → s.braces.stack ≡ bs ++ st
      → All IsPlain bs
      → seen_open_brace st ≡ true
      → open_after (length bs) text ≡ some n
      → (bs' : List Block) × ((consume filename clean_lines linenum line text s).0.braces.stack
          ≡ bs' ++ st)
        × (length bs' ≡ n)
        × All IsPlain bs'
        × ((consume filename clean_lines linenum line text s).1 ≡ [])
  unfolding consume open_after
  consume_lem line [] bs st s n e p h o = (bs, e, some_eq o, p, refl)
  consume_lem line (c ∷ text) bs st s n e p h o =
      let r = at_character filename clean_lines linenum line c s in
      let (bs₁, e₁, p₁, o₁, v₁) = round line text c bs st s n e p h o in
      let (bs₂, e₂, l₂, p₂, v₂) =
        consume_lem (if is_token c then text else line) text bs₁ st r.0 n e₁ p₁ h o₁ in
      (bs₂, e₂, l₂, p₂, rw v₁ v₂)
