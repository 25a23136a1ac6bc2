-- ===== src/Lint/Paths/Laws.antt =====
-- What the parts of a file name make together.
use mathlib.Core.List.{append-nil, append_assoc, reverse_aux}
use ringfile.Prelude.{
  ℕ, ◌≡◌, sym, ap, ◌∙◌, some, [], ◌∷◌, ◌++◌, Text, arith, Option-cases, Bool-cases, inl, inr, Bool,
  ◌+◌, ◌<◌, ◌≤◌, ◌==◌, length, length-append, reverse, same, false,
}
use ringfile.Prelude.Strings.{drop_while, rstrip}
use ringfile.Lint.Paths.{split_last, all_are, trim_head, path_split, name_splitext, splitext}

split_last-some : (c : ℕ) (s h t : Text) → split_last c s ≡ some (h, t) → s ≡ h ++ c ∷ t
unfolding split_last
split_last-some c [] h t e = cc
split_last-some c (x ∷ s) h t e = elim (Option-cases (split_last c s)) [
  | inl n ↦ ground (arith, n)
  | inr ((h', t'), n) ↦ ground (arith, n, split_last-some c s h' t' n)
]

-- The two parts of a name are the name, and the second is empty or begins with a dot.
pub name_splitext-append : (p : Text) → (name_splitext p).0 ++ (name_splitext p).1 ≡ p
unfolding name_splitext
name_splitext-append p = elim (Option-cases (split_last b'.' p)) [
  | inl n ↦ rw (n, name_splitext) (append-nil p)
  | inr ((h, t), n) ↦ elim (Bool-cases (all_are b'.' h)) [
    | inl d ↦ rw (n, name_splitext, d) (append-nil p)
    | inr d ↦ rw (n, name_splitext, d) (sym (split_last-some b'.' p h t n))
  ]
]

-- splitext divides any path in two parts that make it up again.
pub splitext-append : (p : Text) → (splitext p).0 ++ (splitext p).1 ≡ p
unfolding splitext
splitext-append p = elim (Option-cases (split_last b'/' p)) [
  | inl n ↦ rw (n, splitext) (name_splitext-append p)
  | inr ((d, m), n) ↦
      rw (n, splitext)
        (simp append_assoc
          (ap (λ t. d ++ b'/' ∷ t) (name_splitext-append m) ∙ sym (split_last-some b'/' p d m n)))
]

length-reverse_aux : (s acc : Text) → length (reverse_aux s acc) ≡ length s + length acc
length-reverse_aux [] acc = omega arith
length-reverse_aux (x ∷ s) acc = omega (arith, length-reverse_aux s (x ∷ acc))

length-drop_while : (p : ℕ → Bool) (s : Text) → length (drop_while p s) ≤ length s
unfolding drop_while
length-drop_while p [] = omega arith
length-drop_while p (x ∷ s) = elim (Bool-cases (p x)) [
  | inl e ↦ rw e (omega (arith, length-drop_while p s))
  | inr e ↦ rw e (omega arith)
]

length-trim_head : (h : Text) → length (trim_head h) ≤ length h
unfolding trim_head rstrip
length-trim_head h = elim (Bool-cases (all_are b'/' h)) [
  | inl e ↦ rw e (omega arith)
  | inr e ↦ rw e (
      omega (
        arith,
        length-reverse_aux h [],
        length-drop_while (λ c. c == b'/') (reverse h),
        length-reverse_aux (drop_while (λ c. c == b'/') (reverse h)) [],
      ))
]

nonempty_lt : (p : Text) → same p [] ≡ false → 0 < length p
unfolding same
nonempty_lt [] h = cc
nonempty_lt (x ∷ p) h = omega arith

-- The directory of a path with a name is shorter than the path.
pub length-path_split :
    (p : Text) → same (path_split p).1 [] ≡ false → length (path_split p).0 < length p
unfolding path_split same
length-path_split p h = elim (Option-cases (split_last b'/' p)) [
  | inl n ↦ rw (n, path_split) (nonempty_lt p (rw (n, path_split) at h))
  | inr ((d, t), n) ↦
      let e = ap length (split_last-some b'/' p d t n) in
      rw (n, path_split)
        (omega (
          arith,
          e,
          length-trim_head (d ++ b'/' ∷ []),
          length-append d (b'/' ∷ []),
          length-append d (b'/' ∷ t),
          nonempty_lt t (rw (n, path_split) at h),
        ))
]
