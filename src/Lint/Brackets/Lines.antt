-- ===== src/Lint/Brackets/Lines.antt =====
-- CloseExpression finds the bracket that closes a piece of code, on the same line or a later one.
use mathlib.Core.List.{append_assoc}
use ringfile.Prelude.{
  ℕ, suc, ◌+◌, ◌≡◌, refl, sym, ap, ◌∙◌, false, some, List, [], ◌∷◌, ◌++◌, Text, arith, length,
  drop-append_length, drop, reverse, get_elem?,
}
use native.Mathlib.Numerals.{add-one}
use ringfile.Lint.Regex.{matches}
use ringfile.Lint.Brackets.{unclosed, end_loop, close_loop, close_expression, somewhere, less_re}
use ringfile.Lint.Brackets.Code.{Code, text, Bracket, opening, closing, round}
use ringfile.Lint.Brackets.Drive.{drive, drive_split, drive-cons, drive-text, AllOpen, opening_open}
use ringfile.Lint.Brackets.Forward.{
  find_end-open, end_loop-line, find_end-line, find_end-close, find_end-text,
}

-- the lines of a list, one after the other
abbrev pub joined : List Text → Text
joined [] = []
joined (l ∷ ls) = l ++ joined ls

close_loop-lines :
    (total n : ℕ) (line : Text) (mid : List Text) (t post : Text) (more : List Text) (b : Bracket)
    → (x : ℕ) (st : List ℕ) → AllOpen (x ∷ st)
    → drive (joined mid ++ t) (x ∷ st) ≡ some (opening b ∷ [])
    → close_loop total n line (mid ++ (t ++ closing b ∷ post) ∷ more) (unclosed (x ∷ st))
      ≡ somewhere (t ++ closing b ∷ post) (n + length mid + 1) (length t + 1)
unfolding close_loop
close_loop-lines total n line [] t post more b x st a h =
    rw (find_end-close b t post (x ∷ st) a h, close_loop)
      (ap (λ k. somewhere (t ++ closing b ∷ post) k (length t + 1)) (omega arith))
close_loop-lines total n line (l ∷ mid) t post more b x st a h =
    let (m, p, q) =
      drive_split l (joined mid ++ t) (x ∷ st) (opening b ∷ []) (rw append_assoc at h) in
    let (y, m', e) = drive-cons l x st m p in
    let f = find_end-line l (x ∷ st) (y ∷ m') a (p ∙ ap some e) in
    rw (f.0, close_loop)
      (close_loop-lines total (n + 1) l mid t post more b y m' f.1 (rw e at q)
        ∙ ap (λ k. somewhere (t ++ closing b ∷ post) k (length t + 1)) (omega arith))

get_elem?-append {ℓ} :
    {A : Type ℓ} (xs ys : List A) (y : A) → get_elem? (xs ++ y ∷ ys) (length xs) ≡ some y
get_elem?-append [] ys y = refl
get_elem?-append (x ∷ xs) ys y = get_elem?-append xs ys y

drop-append-suc {ℓ} :
    {A : Type ℓ} (xs ys : List A) (y : A) → drop (suc (length xs)) (xs ++ y ∷ ys) ≡ ys
drop-append-suc [] ys y = refl
drop-append-suc (x ∷ xs) ys y = drop-append-suc xs ys y

drop-append_next {ℓ} :
    {A : Type ℓ} (xs ys : List A) (y : A) → drop (length xs + 1) (xs ++ y ∷ ys) ≡ ys
drop-append_next xs ys y =
    ap (λ k. drop k (xs ++ y ∷ ys)) (add-one (length xs)) ∙ drop-append-suc xs ys y

opening_not_lt : (b : Bracket) (rest : Text) → matches less_re (opening b ∷ rest) ≡ false
unfolding matches
opening_not_lt round rest = refl
opening_not_lt _ rest = refl

close_expression-open :
    (above below : List Text) (pre rest : Text) (b : Bracket)
    → close_expression (above ++ (pre ++ opening b ∷ rest) ∷ below) (length above) (length pre)
      ≡ some (
          close_loop
            (length (above ++ (pre ++ opening b ∷ rest) ∷ below))
            (length above)
            (pre ++ opening b ∷ rest)
            below
            (end_loop (opening b ∷ reverse pre) (length pre + 1) rest (opening b ∷ [])))
unfolding close_expression
close_expression-open above below pre rest b =
    rw (get_elem?-append above below (pre ++ opening b ∷ rest), close_expression)
      (rw (get_elem?-append pre rest (opening b), close_expression)
        (rw (
          opening_open b,
          drop-append_length pre (opening b ∷ rest),
          opening_not_lt b rest,
          drop-append_next above below (pre ++ opening b ∷ rest),
          find_end-open pre rest b,
        )))

-- CloseExpression from an opening bracket finds the bracket that closes it on a later line, if what
-- stands between them over the lines is a piece of code. The lines above and below do not matter.
pub close_expression-text :
    (above mid below : List Text) (pre s t post : Text) (b : Bracket) (w : Code)
    → s ++ (joined mid ++ t) ≡ text w
    → close_expression
        (above ++ (pre ++ opening b ∷ s) ∷ (mid ++ (t ++ closing b ∷ post) ∷ below))
        (length above)
        (length pre)
      ≡ some (somewhere (t ++ closing b ∷ post) (length above + length mid + 1) (length t + 1))
close_expression-text above mid below pre s t post b w e =
    let all : drive (s ++ (joined mid ++ t)) (opening b ∷ []) ≡ some (opening b ∷ []) =
      rw e (drive-text w (opening b) []) in
    let (m, p, q) = drive_split s (joined mid ++ t) (opening b ∷ []) (opening b ∷ []) all in
    let (y, m', f) = drive-cons s (opening b) [] m p in
    let r =
      end_loop-line (opening b ∷ reverse pre) (length pre + 1) s (opening b ∷ []) (y ∷ m')
        (opening_open b, tt) (p ∙ ap some f) in
    let below' = mid ++ (t ++ closing b ∷ post) ∷ below in
    let total = length (above ++ (pre ++ opening b ∷ s) ∷ below') in
    close_expression-open above below' pre s b
    ∙ ap some (
        ap (close_loop total (length above) (pre ++ opening b ∷ s) below') r.0
        ∙ close_loop-lines total (length above) (pre ++ opening b ∷ s) mid t post below b y m' r.1
            (rw f at q))

-- On one line, CloseExpression gives that line and the position behind the closing bracket.
pub close_expression-text_line :
    (above below : List Text) (pre post : Text) (b : Bracket) (w : Code)
    → let line = pre ++ opening b ∷ (text w ++ closing b ∷ post) in
      close_expression (above ++ line ∷ below) (length above) (length pre)
      ≡ some (somewhere line (length above) (length pre + length (text w) + 2))
unfolding close_loop
close_expression-text_line above below pre post b w =
    let line = pre ++ opening b ∷ (text w ++ closing b ∷ post) in
    let total = length (above ++ line ∷ below) in
    close_expression-open above below pre (text w ++ closing b ∷ post) b
    ∙ ap some (
        ap (close_loop total (length above) line below)
          (sym (find_end-open pre (text w ++ closing b ∷ post) b) ∙ find_end-text pre post b w))
