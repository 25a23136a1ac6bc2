-- ===== src/Lint/Brackets/Backward.antt =====
-- FindStartOfExpressionInLine finds the bracket that opens a piece of code, so it is the reverse of
-- FindEndOfExpressionInLine there.
use mathlib.Core.List.{append_assoc}
use mathlib.Core.Path.{ap₂}
use ringfile.Prelude.{
  ℕ, ◌+◌, ◌≡◌, refl, ap, ◌∙◌, true, false, List, [], ◌∷◌, ◌++◌, Text, arith, length, length-append,
  take-append_length, drop-append_length,
}
use ringfile.Lint.Brackets.{
  found, go, closed, start_step, start_loop, find_start_of_expression_in_line,
  find_end_of_expression_in_line,
}
use ringfile.Lint.Brackets.Code.{
  Code, text, Bracket, opening, closing, is_plain, end, plain, nest, round,
}
use ringfile.Lint.Brackets.Drive.{onto}
use ringfile.Lint.Brackets.Forward.{find_end-text}

start_step-plain :
    (left right : Text) (c : ℕ) (b : Bracket) (st : List ℕ)
    → is_plain c ≡ true
    → start_step left c right (closing b ∷ st) ≡ go (closing b ∷ st)
unfolding start_step is_plain
start_step-plain left right c round st h = ground arith
start_step-plain left right c _ st h = ground arith

start_step-close :
    (left right : Text) (b : Bracket) (st : List ℕ)
    → start_step left (closing b) right st ≡ go (closing b ∷ st)
unfolding start_step
start_step-close left right round st = refl
start_step-close left right _ st = refl

start_step-open :
    (left right : Text) (b : Bracket) (x : ℕ) (st : List ℕ)
    → start_step left (opening b) right (closing b ∷ x ∷ st) ≡ go (x ∷ st)
unfolding start_step
start_step-open left right round x st = refl
start_step-open left right _ x st = refl

start_step-closed :
    (left right : Text) (b : Bracket) → start_step left (opening b) right (closing b ∷ []) ≡ closed
unfolding start_step
start_step-closed left right round = refl
start_step-closed left right _ = refl

onto-append : (s t left : Text) → onto (s ++ t) left ≡ onto t (onto s left)
onto-append [] t left = refl
onto-append (c ∷ s) t left = onto-append s t (c ∷ left)

-- Behind a closing bracket, the scan to the left passes over a piece of code.
start_loop-text :
    (w : Code) (left right : Text) (b : Bracket) (st : List ℕ)
    → start_loop false (onto (text w) left) right (closing b ∷ st)
      ≡ start_loop false left (text w ++ right) (closing b ∷ st)
unfolding start_loop
start_loop-text end left right b st = refl
start_loop-text (plain c h w) left right b st =
    start_loop-text w (c ∷ left) right b st
    ∙ rw (start_step-plain left (text w ++ right) c b st h, start_loop)
start_loop-text (nest d w v) left right b st =
    let o = opening d in
    let c = closing d in
    ap (λ l. start_loop false l right (closing b ∷ st))
      (onto-append (text w) (c ∷ text v) (o ∷ left))
    ∙ (start_loop-text v (c ∷ onto (text w) (o ∷ left)) right b st
        ∙ rw
            (
              start_step-close (onto (text w) (o ∷ left)) (text v ++ right) d (closing b ∷ st),
              start_loop,
            )
            (start_loop-text w (o ∷ left) (c ∷ (text v ++ right)) d (closing b ∷ st)
              ∙ rw (
                start_step-open left (text w ++ c ∷ (text v ++ right)) d (closing b) st,
                start_loop,
                append_assoc,
              )))

length-onto : (s left : Text) → length (onto s left) ≡ length s + length left
length-onto [] left = omega arith
length-onto (c ∷ s) left = omega (arith, length-onto s (c ∷ left))

-- the line up to a closing bracket, from there to the left
find_start-close :
    (pre post : Text) (b : Bracket) (w : Code)
    → find_start_of_expression_in_line
        ((pre ++ opening b ∷ (text w ++ closing b ∷ [])) ++ post)
        (length (pre ++ opening b ∷ (text w ++ closing b ∷ [])))
        []
      ≡ found (length pre)
unfolding find_start_of_expression_in_line start_loop
find_start-close pre post b w =
    let q = pre ++ opening b ∷ (text w ++ closing b ∷ []) in
    rw
      (
        take-append_length q post,
        drop-append_length q post,
        onto-append pre (opening b ∷ (text w ++ closing b ∷ [])) [],
        onto-append (text w) (closing b ∷ []) (opening b ∷ onto pre []),
      )
      (rw (start_step-close (onto (text w) (opening b ∷ onto pre [])) post b [], start_loop)
        (start_loop-text w (opening b ∷ onto pre []) (closing b ∷ post) b []
          ∙ rw (start_step-closed (onto pre []) (text w ++ closing b ∷ post) b, start_loop)
              (ap found (omega (arith, length-onto pre [])))))

-- Where a bracket opens and closes around a piece of code, each search finds what the other starts
-- from: from the opening bracket the position behind the closing one, and from the closing bracket,
-- which is the last before that position, the opening one.
pub find_start-find_end :
    (pre post : Text) (b : Bracket) (w : Code)
    → let line = pre ++ opening b ∷ (text w ++ closing b ∷ post) in
      let stop = length pre + length (text w) + 2 in
      (find_end_of_expression_in_line line (length pre) [] ≡ found stop)
      × (find_start_of_expression_in_line line stop [] ≡ found (length pre))
find_start-find_end pre post b w =
    let q = pre ++ opening b ∷ (text w ++ closing b ∷ []) in
    let at_line : pre ++ opening b ∷ (text w ++ closing b ∷ post) ≡ q ++ post = simp append_assoc in
    let at_stop : length pre + length (text w) + 2 ≡ length q = omega (
      arith,
      length-append pre (opening b ∷ (text w ++ closing b ∷ [])),
      length-append (text w) (closing b ∷ []),
    ) in
    (
      find_end-text pre post b w,
      ap₂ (λ l k. find_start_of_expression_in_line l k []) at_line at_stop
          ∙ find_start-close pre post b w,
    )
