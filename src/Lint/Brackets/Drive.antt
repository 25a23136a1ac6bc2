-- ===== src/Lint/Brackets/Drive.antt =====
-- A machine for brackets alone, which FindEndOfExpressionInLine follows where there are no angle
-- brackets.
use mathlib.Core.List.{reverse_aux}
use ringfile.Prelude.{
  ℕ, ◌+◌, ◌≡◌, refl, ap, ◌∙◌, true, Option, none, some, List, [], ◌∷◌, ◌++◌, Text, arith,
  if◌then◌else◌, length, Option-cases, Bool-cases, inl, inr, All,
}
use ringfile.Lint.Brackets.{go, is_open, is_close, is_pair, end_step, end_loop}
use ringfile.Lint.Brackets.Code.{
  Code, text, Bracket, opening, closing, is_plain, end, plain, nest, round,
}

-- A machine for brackets alone: the stack behind one character, if that leaves a bracket open.
pub drive_step : ℕ → List ℕ → Option (List ℕ)
drive_step c [] = none
drive_step c (x ∷ []) =
    if is_open c then some (c ∷ x ∷ []) else if is_plain c then some (x ∷ []) else none
drive_step c (x ∷ y ∷ st) =
    if is_open c
    then some (c ∷ x ∷ y ∷ st)
    else if is_plain c
    then some (x ∷ y ∷ st)
    else if is_pair x c
    then some (y ∷ st)
    else none

pub drive : Text → List ℕ → Option (List ℕ)
drive [] st = some st
drive (c ∷ s) st = elim (drive_step c st) [ none ↦ none | some st' ↦ drive s st' ]

abbrev pub AllOpen : List ℕ → Type 0
AllOpen = All (λ x. is_open x ≡ true)

end_step-drive :
    (before : Text) (c : ℕ) (st st' : List ℕ)
    → AllOpen st
    → drive_step c st ≡ some st'
    → (end_step before c st ≡ go st') × AllOpen st'
unfolding end_step drive_step is_plain
end_step-drive before c [] st' a h = cc
end_step-drive before c (x ∷ []) st' a h = ground arith
end_step-drive before c (x ∷ y ∷ st) st' a h = ground arith

-- the reverse of the first text in front of the second
abbrev pub onto : Text → Text → Text
onto s before = reverse_aux s before

pub end_loop-drive :
    (before : Text) (i : ℕ) (s rest : Text) (st st' : List ℕ)
    → AllOpen st
    → drive s st ≡ some st'
    → (end_loop before i (s ++ rest) st ≡ end_loop (onto s before) (i + length s) rest st')
      × AllOpen st'
unfolding end_loop drive
end_loop-drive before i [] rest st st' a h = ground arith
end_loop-drive before i (c ∷ s) rest st st' a h = elim (Option-cases (drive_step c st)) [
  | inl e ↦ cc (rw (e, drive) at h)
  | inr (m, e) ↦
      let f = end_step-drive before c st m a e in
      let r = end_loop-drive (c ∷ before) (i + 1) s rest m st' f.1 (rw (e, drive) at h) in
      (
        rw (f.0, end_loop)
            (r.0 ∙ ap (λ k. end_loop (onto s (c ∷ before)) k rest st') (omega arith)),
        r.1,
      )
]

pub drive-append :
    (s t : Text) (st m : List ℕ) → drive s st ≡ some m → drive (s ++ t) st ≡ drive t m
unfolding drive
drive-append [] t st m h = ground arith
drive-append (c ∷ s) t st m h = elim (Option-cases (drive_step c st)) [
  | inl e ↦ cc (rw (e, drive) at h)
  | inr (m', e) ↦ rw (e, drive) (drive-append s t m' m (rw (e, drive) at h))
]

-- What drives a text through drives its parts through.
pub drive_split :
    (s t : Text) (st r : List ℕ)
    → drive (s ++ t) st ≡ some r
    → (m : List ℕ) × (drive s st ≡ some m) × (drive t m ≡ some r)
unfolding drive
drive_split [] t st r h = (st, refl, h)
drive_split (c ∷ s) t st r h = elim (Option-cases (drive_step c st)) [
  | inl e ↦ cc (rw (e, drive) at h)
  | inr (m', e) ↦
      let (m, p, q) = drive_split s t m' r (rw (e, drive) at h) in (m, rw (e, drive) p, q)
]

drive_step-cons :
    (c : ℕ) (st m : List ℕ) → drive_step c st ≡ some m → (y : ℕ) × (m' : List ℕ) × (m ≡ y ∷ m')
unfolding drive_step
drive_step-cons c [] m h = cc
drive_step-cons c (x ∷ []) m h = elim (Bool-cases (is_open c)) [
  | inl e ↦ (c, x ∷ [], ground arith)
  | inr e ↦ (x, [], ground arith)
]
drive_step-cons c (x ∷ y ∷ st) m h = elim (Bool-cases (is_open c)) [
  | inl e ↦ (c, x ∷ y ∷ st, ground arith)
  | inr e ↦ elim (Bool-cases (is_plain c)) [
    | inl f ↦ (x, y ∷ st, ground arith)
    | inr f ↦ (y, st, ground arith)
  ]
]

-- The machine always leaves a bracket open.
pub drive-cons :
    (s : Text) (x : ℕ) (st m : List ℕ)
    → drive s (x ∷ st) ≡ some m
    → (y : ℕ) × (m' : List ℕ) × (m ≡ y ∷ m')
unfolding drive
drive-cons [] x st m h = (x, st, ground arith)
drive-cons (c ∷ s) x st m h = elim (Option-cases (drive_step c (x ∷ st))) [
  | inl e ↦ cc (rw (e, drive) at h)
  | inr (n, e) ↦
      let (z, n', f) = drive_step-cons c (x ∷ st) n e in
      drive-cons s z n' m (rw f at (rw (e, drive) at h))
]

pub opening_open : (b : Bracket) → is_open (opening b) ≡ true
unfolding is_open
opening_open round = refl
opening_open _ = refl

drive_step-plain :
    (c x : ℕ) (st : List ℕ) → is_plain c ≡ true → drive_step c (x ∷ st) ≡ some (x ∷ st)
unfolding drive_step is_plain
drive_step-plain c x [] h = ground arith
drive_step-plain c x (y ∷ st) h = ground arith

drive_step-open :
    (b : Bracket) (x : ℕ) (st : List ℕ)
    → drive_step (opening b) (x ∷ st) ≡ some (opening b ∷ x ∷ st)
unfolding drive_step
drive_step-open b x [] = rw (opening_open b)
drive_step-open b x (y ∷ st) = rw (opening_open b)

drive_step-close :
    (b : Bracket) (x : ℕ) (st : List ℕ)
    → drive_step (closing b) (opening b ∷ x ∷ st) ≡ some (x ∷ st)
unfolding drive_step is_open is_plain is_close is_pair
drive_step-close round x st = refl
drive_step-close _ x st = refl

-- A piece of code leaves the stack as it was.
pub drive-text : (w : Code) (x : ℕ) (st : List ℕ) → drive (text w) (x ∷ st) ≡ some (x ∷ st)
unfolding drive
drive-text end x st = refl
drive-text (plain c h w) x st = rw (drive_step-plain c x st h, drive) (drive-text w x st)
drive-text (nest b w v) x st =
    rw (drive_step-open b x st, drive)
      (drive-append (text w) (closing b ∷ text v) (opening b ∷ x ∷ st) (opening b ∷ x ∷ st)
          (drive-text w (opening b) (x ∷ st))
        ∙ rw (drive_step-close b x st, drive) (drive-text v x st))
