-- ===== src/Lint/Brackets/Ends.antt =====
-- Whatever the text, a position that CloseExpression gives lies on a line of the file.
use ringfile.Prelude.{
  ℕ, zero, suc, ◌+◌, ◌<◌, ◌≤◌, ◌≡◌, refl, sym, ap, some, List, [], ◌∷◌, Text, arith, length, drop,
  get_elem?, length-drop, Option-cases, Bool-cases, some_eq, inl, inr, ◌⊎◌,
}
use mathlib.Core.Path.{subst}
use native.Mathlib.Numerals.{add-one}
use ringfile.Lint.Brackets.{
  Scan, Place, Next, found, failed, unclosed, go, hop, closed, dead, end_step, end_loop,
  find_end_of_expression_in_line, close_loop, close_expression, nowhere, no_expression,
}

Next-cases :
    (n : Next) → ((n ≡ closed) ⊎ (n ≡ dead)) ⊎ ((st : List ℕ) × ((n ≡ go st) ⊎ (n ≡ hop st)))
Next-cases closed = inl (inl refl)
Next-cases dead = inl (inr refl)
Next-cases (go st) = inr (st, inl refl)
Next-cases (hop st) = inr (st, inr refl)

end_loop-found :
    (before : Text) (i : ℕ) (s : Text) (st : List ℕ) {p : ℕ}
    → end_loop before i s st ≡ found p
    → (i < p) × (p ≤ i + length s)
unfolding end_loop
end_loop-found before i [] st h = cc
end_loop-found before i (c ∷ s) st {p = p} h = elim (Next-cases (end_step before c st)) [
  | inl e ↦ ground (arith, e)
  | inr (st', e) ↦ ground (arith, e, end_loop-found (c ∷ before) (i + 1) s st' {p = p})
]

-- A position that FindEndOfExpressionInLine gives lies behind its start and on the line.
pub find_end-found :
    (line : Text) (start : ℕ) (st : List ℕ) {p : ℕ}
    → start ≤ length line
    → find_end_of_expression_in_line line start st ≡ found p
    → (start < p) × (p ≤ length line)
unfolding find_end_of_expression_in_line
find_end-found line start st {p = p} l h =
    omega (arith, end_loop-found _ start (drop start line) st {p = p} h, length-drop start line)

-- What is said of a place that is found: its line is that line of the file, at or behind the line
-- where the search starts, and the position is on it.
pub record IsOnLine (lines : List Text) (first : ℕ) (place : Place) : Type 0 where
  pub forward : first ≤ place.linenum
  pub at_line : (p : ℕ) → place.pos ≡ some p → get_elem? lines place.linenum ≡ some place.line
  pub on_line : (p : ℕ) → place.pos ≡ some p → (0 < p) × (p ≤ length place.line)

drop-cons {ℓ} :
    {A : Type ℓ} (n : ℕ) (xs : List A) (y : A) (ys : List A)
    → drop n xs ≡ y ∷ ys
    → (get_elem? xs n ≡ some y) × (drop (suc n) xs ≡ ys)
drop-cons zero [] y ys h = ground arith
drop-cons zero (x ∷ xs) y ys h = ground arith
drop-cons (suc n) [] y ys h = ground arith
drop-cons (suc n) (x ∷ xs) y ys h = drop-cons n xs y ys h

get_elem?-lt {ℓ} :
    {A : Type ℓ} (xs : List A) (n : ℕ) {y : A} → get_elem? xs n ≡ some y → n < length xs
get_elem?-lt [] n h = cc
get_elem?-lt (x ∷ xs) zero h = omega arith
get_elem?-lt (x ∷ xs) (suc n) h = omega (arith, get_elem?-lt xs n h)

nowhere-IsOnLine :
    (lines : List Text) (first n : ℕ) (line : Text)
    → first ≤ n
    → IsOnLine lines first (nowhere line n)
nowhere-IsOnLine lines first n line h = record {
  forward = h;
  at_line = λ p e. cc;
  on_line = λ p e. cc;
}

close_loop-IsOnLine :
    (lines : List Text) (first n : ℕ) (line : Text) (rest : List Text) (scan : Scan)
    → first ≤ n
    → n < length lines
    → get_elem? lines n ≡ some line
    → drop (suc n) lines ≡ rest
    → ((p : ℕ) → scan ≡ found p → (0 < p) × (p ≤ length line))
    → IsOnLine lines first (close_loop (length lines) n line rest scan)
unfolding close_loop
close_loop-IsOnLine lines first n line rest (found q) f l at_n below h = record {
  forward = f;
  at_line = λ p e. at_n;
  on_line = λ p e. let r = h q refl in ground arith;
}
close_loop-IsOnLine lines first n line rest failed f l at_n below h =
    nowhere-IsOnLine lines first (length lines) line (omega arith)
close_loop-IsOnLine lines first n line rest (unclosed []) f l at_n below h =
    nowhere-IsOnLine lines first (length lines) line (omega arith)
close_loop-IsOnLine lines first n line [] (unclosed (x ∷ st)) f l at_n below h =
    nowhere-IsOnLine lines first (length lines) line (omega arith)
close_loop-IsOnLine lines first n line (m ∷ rest) (unclosed (x ∷ st)) f l at_n below h =
    let d = drop-cons (suc n) lines m rest below in
    subst
      (λ k.
        IsOnLine lines first
          (close_loop (length lines) k m rest (find_end_of_expression_in_line m 0 (x ∷ st))))
      (sym (add-one n))
      (close_loop-IsOnLine lines first (suc n) m rest (find_end_of_expression_in_line m 0 (x ∷ st))
        (omega arith) (get_elem?-lt lines (suc n) d.0) d.0 d.1
        (λ p e. find_end-found m 0 (x ∷ st) {p = p} (omega arith) e))

-- The branches of CloseExpression on a line.
close_expression-at :
    (lines : List Text) (n pos : ℕ) (line : Text) {place : Place}
    → get_elem? lines n ≡ some line
    → close_expression lines n pos ≡ some place
    → IsOnLine lines n place
unfolding close_expression
close_expression-at lines n pos line {place} e h = elim (Option-cases (get_elem? line pos)) [
  | inl f ↦ cc (rw (e, close_expression, f) at h)
  | inr (c, f) ↦ elim (Bool-cases (no_expression c (drop pos line))) [
    | inl g ↦
        let q : nowhere line (length lines) ≡ place =
          some_eq (rw (e, close_expression, f, g) at h) in
        rw (← q)
          (nowhere-IsOnLine lines n (length lines) line (omega (arith, get_elem?-lt lines n e)))
    | inr g ↦
        let q : close_loop (length lines) n line (drop (n + 1) lines)
              (find_end_of_expression_in_line line pos [])
            ≡ place =
          some_eq (rw (e, close_expression, f, g) at h) in
        rw (← q) (
          close_loop-IsOnLine lines n n line (drop (n + 1) lines)
            (find_end_of_expression_in_line line pos []) (omega arith) (get_elem?-lt lines n e) e
            (ap (λ k. drop k lines) (sym (add-one n)))
            (λ p r.
              let b =
                find_end-found line pos [] {p = p} (omega (arith, get_elem?-lt line pos f)) r in
              (omega arith, b.1)))
  ]
]

-- Whatever the lines are, a place that CloseExpression gives is not above the line where the search
-- starts. If it has a position, its line is the line of the file with its number, and the position is
-- behind a character of that line.
pub close_expression-IsOnLine :
    (lines : List Text) (n pos : ℕ) {place : Place}
    → close_expression lines n pos ≡ some place
    → IsOnLine lines n place
unfolding close_expression
close_expression-IsOnLine lines n pos {place} h = elim (Option-cases (get_elem? lines n)) [
  | inl e ↦ cc (rw (e, close_expression) at h)
  | inr (line, e) ↦ close_expression-at lines n pos line e h
]
