-- ===== src/Lint/Constructs/Collapse.antt =====
-- The collapsing of the arguments of a constructor in CheckForNonStandardConstructs.
use mathlib.Core.List.{append_assoc}
use mathlib.Core.Path.{subst}
use ringfile.Prelude.{
  ℕ, ◌≤◌, ◌≡◌, ◌≢◌, ◌⊎◌, ◌==◌, true, All-right, refl, sym, ap, ◌∙◌, inl, inr, arith, false, some,
  List, [], ◌∷◌, ◌++◌, Text, All, codes, Bool-cases, Option-cases, some_eq,
}
use ringfile.Prelude.Strings.{count, split, split_first}
use ringfile.Lint.Constructs.{collapse, collapse_from, constructor_args, is_incomplete}

-- The arguments, each behind a comma
pub with_commas : List Text → Text
with_commas [] = []
with_commas (t ∷ ts) = b',' ∷ (t ++ with_commas ts)

-- An argument that is not cut off in a list of template arguments or of parameters
pub record IsComplete (arg : Text) : Type 0 where
  pub angles : count arg (codes "<") ≤ count arg (codes ">")
  pub parentheses : count arg (codes "(") ≤ count arg (codes ")")

incomplete : (arg : Text) → is_incomplete arg ≡ true → IsComplete arg → ⊥
incomplete arg h c = ground (arith, h, c.angles, c.parentheses)

head_or_zero : Text → ℕ
head_or_zero [] = 0
head_or_zero (x ∷ s) = x

tail_of : Text → Text
tail_of [] = []
tail_of (x ∷ s) = s

complete : (arg : Text) → is_incomplete arg ≡ false → IsComplete arg
complete arg h = record { angles = ground (arith, h); parentheses = ground (arith, h) }

-- No comma of an argument stands behind a complete one.
abbrev pub IsShortest : Text → Type 0
IsShortest arg = (u v : Text) → arg ≡ u ++ b',' ∷ v → IsComplete u → ⊥

abbrev HasNoComma : Text → Type 0
HasNoComma = All (λ c. c ≢ b',')

no_comma-split : (u v s : Text) → HasNoComma s → s ≡ u ++ b',' ∷ v → ⊥
no_comma-split u v s h e = (All-right (λ c. c ≢ b',') u (b',' ∷ v) (subst HasNoComma e h)).0 refl

-- A comma of a text is the last one, or one of what stands in front of it.
last_comma :
    (u v a n : Text)
    → HasNoComma n
    → a ++ b',' ∷ n ≡ u ++ b',' ∷ v
    → ((w : Text) × (a ≡ u ++ b',' ∷ w)) ⊎ (u ≡ a)
unfolding head_or_zero tail_of
last_comma [] v [] n h e = inr refl
last_comma [] v (y ∷ a) n h e = inl (a, ap (λ c. c ∷ a) (ap head_or_zero e))
last_comma (x ∷ u) v [] n h e = absurd (no_comma-split u v n h (ap tail_of e))
last_comma (x ∷ u) v (y ∷ a) n h e =
    let p = ap head_or_zero e in
    elim (last_comma u v a n h (ap tail_of e)) [
      | inl (w, q) ↦ inl (w, ap (λ c. c ∷ a) p ∙ ap (λ t. x ∷ t) q)
      | inr q ↦ inr (ap (λ c. c ∷ u) (sym p) ∙ ap (λ t. y ∷ t) q)
    ]

longer-IsShortest :
    (arg next : Text)
    → is_incomplete arg ≡ true
    → IsShortest arg
    → HasNoComma next
    → IsShortest (arg ++ b',' ∷ next)
longer-IsShortest arg next i h n u v e c = elim (last_comma u v arg next n e) [
  | inl (w, p) ↦ h u w p c
  | inr p ↦ incomplete arg i (subst IsComplete p c)
]

collapse_from-IsShortest :
    (arg : Text) (args : List Text) {r : List Text}
    → IsShortest arg
    → All HasNoComma args
    → collapse_from arg args ≡ some r
    → All IsShortest r
unfolding collapse_from
collapse_from-IsShortest arg [] s n h = elim (Bool-cases (is_incomplete arg)) [
  | inl i ↦ cc (rw (collapse_from, i) at h)
  | inr i ↦ subst (All IsShortest) (some_eq (rw (collapse_from, i) at h)) (s, tt)
]
collapse_from-IsShortest arg (next ∷ args) s n h = elim (Bool-cases (is_incomplete arg)) [
  | inl i ↦
      collapse_from-IsShortest (arg ++ codes "," ++ next) args
        (subst IsShortest (sym (append_assoc arg (codes ",") next))
          (longer-IsShortest arg next i s n.0))
        n.1 (rw (collapse_from, i) at h)
  | inr i ↦ elim (Option-cases (collapse_from next args)) [
    | inl m ↦ cc (rw (collapse_from, i, m) at h)
    | inr (rest, m) ↦
        subst (All IsShortest) (some_eq (rw (collapse_from, i, m) at h))
          (s, collapse_from-IsShortest next args (λ u v e c. no_comma-split u v next n.0 e) n.1 m)
  ]
]

split_first-HasNoComma :
    (s : Text) → HasNoComma (split_first b',' s).0 × All HasNoComma (split_first b',' s).1
unfolding split_first
split_first-HasNoComma [] = (tt, tt)
split_first-HasNoComma (x ∷ s) = elim (Bool-cases (x == b',')) [
  | inl e ↦ rw (split_first, e) (tt, split_first-HasNoComma s)
  | inr e ↦
      let (p, q) = split_first-HasNoComma s in
      rw (split_first, e) (((λ h. ground (arith, e, h)), p), q)
]

collapse_from-with_commas :
    (arg : Text) (args : List Text) {r : List Text}
    → collapse_from arg args ≡ some r
    → (with_commas r ≡ with_commas (arg ∷ args)) × All IsComplete r
unfolding collapse_from with_commas
collapse_from-with_commas arg [] h = elim (Bool-cases (is_incomplete arg)) [
  | inl i ↦ cc (rw (collapse_from, i) at h)
  | inr i ↦
      let e = some_eq (rw (collapse_from, i) at h) in
      (ap with_commas (sym e), subst (All IsComplete) e (complete arg i, tt))
]
collapse_from-with_commas arg (next ∷ args) {r} h = elim (Bool-cases (is_incomplete arg)) [
  | inl i ↦
      let (p, q) =
        collapse_from-with_commas (arg ++ codes "," ++ next) args (rw (collapse_from, i) at h) in
      (
        p
            ∙ ap (λ t. b',' ∷ t)
                (append_assoc (arg ++ codes ",") next (with_commas args)
                  ∙ append_assoc arg (codes ",") (next ++ with_commas args)),
        q,
      )
  | inr i ↦ elim (Option-cases (collapse_from next args)) [
    | inl n ↦ cc (rw (collapse_from, i, n) at h)
    | inr (rest, n) ↦
        let e = some_eq (rw (collapse_from, i, n) at h) in
        let (p, q) = collapse_from-with_commas next args n in
        (
          ap with_commas (sym e) ∙ ap (λ t. b',' ∷ (arg ++ t)) p,
          subst (All IsComplete) e (complete arg i, q),
        )
  ]
]

split_first-with_commas :
    (s : Text) → (split_first b',' s).0 ++ with_commas (split_first b',' s).1 ≡ s
unfolding split_first with_commas
split_first-with_commas [] = refl
split_first-with_commas (x ∷ s) = ground (arith, split_first-with_commas s)

-- Where the arguments of a constructor are collapsed without an exception, they are the text between its
-- parentheses again when commas are put between them, each of them closes the angle brackets and the
-- parentheses that it opens, and what stands in front of a comma inside one of them does not.
pub collapse-with_commas :
    (x : ℕ) (s : Text) (args : List Text)
    → collapse (constructor_args (x ∷ s)) ≡ some args
    → (with_commas args ≡ b',' ∷ x ∷ s) × All IsComplete args × All IsShortest args
unfolding collapse split with_commas
collapse-with_commas x s args h =
    let (p, q) = collapse_from-with_commas _ _ h in
    let (m, n) = split_first-HasNoComma (x ∷ s) in
    (
      p ∙ ap (λ t. b',' ∷ t) (split_first-with_commas (x ∷ s)),
      q,
      collapse_from-IsShortest _ _ (λ u v e c. no_comma-split u v _ m e) n h,
    )
