-- ===== src/Lint/Brackets/Forward.antt =====
-- FindEndOfExpressionInLine and CloseExpression find the bracket that closes a piece of code.
use mathlib.Core.List.{append-nil}
use ringfile.Prelude.{
  ℕ, ◌+◌, ◌≡◌, refl, ap, ◌∙◌, some, List, [], ◌∷◌, ◌++◌, Text, arith, length, take-append_length,
  drop-append_length, reverse,
}
use ringfile.Lint.Brackets.{
  found, unclosed, go, closed, end_step, end_loop, find_end_of_expression_in_line,
}
use ringfile.Lint.Brackets.Code.{Code, text, Bracket, opening, closing, round}
use ringfile.Lint.Brackets.Drive.{drive, drive-text, end_loop-drive, AllOpen, onto, opening_open}

end_step-open :
    (before : Text) (b : Bracket) (st : List ℕ)
    → end_step before (opening b) st ≡ go (opening b ∷ st)
unfolding end_step
end_step-open before b st = rw (opening_open b)

end_step-close :
    (before : Text) (b : Bracket) → end_step before (closing b) (opening b ∷ []) ≡ closed
unfolding end_step
end_step-close before round = refl
end_step-close before _ = refl

-- the scan of a text that leaves one bracket open, up to the bracket that closes it
end_loop-close :
    (before : Text) (i : ℕ) (b : Bracket) (s post : Text) (st : List ℕ)
    → AllOpen st
    → drive s st ≡ some (opening b ∷ [])
    → end_loop before i (s ++ closing b ∷ post) st ≡ found (i + length s + 1)
unfolding end_loop
end_loop-close before i b s post st a h =
    (end_loop-drive before i s (closing b ∷ post) st (opening b ∷ []) a h).0
    ∙ rw (end_step-close (onto s before) b, end_loop)

end_loop-open :
    (before : Text) (i : ℕ) (b : Bracket) (rest : Text) (st : List ℕ)
    → end_loop before i (opening b ∷ rest) st
      ≡ end_loop (opening b ∷ before) (i + 1) rest (opening b ∷ st)
unfolding end_loop
end_loop-open before i b rest st = rw (end_step-open before b st, end_loop)

pub find_end-open :
    (pre rest : Text) (b : Bracket)
    → find_end_of_expression_in_line (pre ++ opening b ∷ rest) (length pre) []
      ≡ end_loop (opening b ∷ reverse pre) (length pre + 1) rest (opening b ∷ [])
unfolding find_end_of_expression_in_line
find_end-open pre rest b =
    rw (take-append_length pre (opening b ∷ rest), drop-append_length pre (opening b ∷ rest))
      (end_loop-open (reverse pre) (length pre) b rest [])

-- On a line where a bracket opens, a piece of code follows, and the bracket closes, the search from
-- the opening bracket finds the position behind the closing one, whatever else is on the line.
pub find_end-text :
    (pre post : Text) (b : Bracket) (w : Code)
    → find_end_of_expression_in_line
        (pre ++ opening b ∷ (text w ++ closing b ∷ post))
        (length pre)
        []
      ≡ found (length pre + length (text w) + 2)
find_end-text pre post b w =
    find_end-open pre (text w ++ closing b ∷ post) b
    ∙ (end_loop-close (opening b ∷ reverse pre) (length pre + 1) b (text w) post (opening b ∷ [])
          (opening_open b, tt) (drive-text w (opening b) [])
        ∙ ap found (omega arith))

-- a line that closes nothing
pub end_loop-line :
    (before : Text) (i : ℕ) (l : Text) (st m : List ℕ)
    → AllOpen st
    → drive l st ≡ some m
    → (end_loop before i l st ≡ unclosed m) × AllOpen m
unfolding end_loop
end_loop-line before i l st m a h =
    let r = end_loop-drive before i l [] st m a h in (rw append-nil at r.0, r.1)

pub find_end-line :
    (l : Text) (st m : List ℕ)
    → AllOpen st
    → drive l st ≡ some m
    → (find_end_of_expression_in_line l 0 st ≡ unclosed m) × AllOpen m
unfolding find_end_of_expression_in_line
find_end-line l st m a h = end_loop-line [] 0 l st m a h

pub find_end-close :
    (b : Bracket) (t post : Text) (st : List ℕ)
    → AllOpen st
    → drive t st ≡ some (opening b ∷ [])
    → find_end_of_expression_in_line (t ++ closing b ∷ post) 0 st ≡ found (length t + 1)
unfolding find_end_of_expression_in_line
find_end-close b t post st a h = end_loop-close [] 0 b t post st a h ∙ ap found (omega arith)
