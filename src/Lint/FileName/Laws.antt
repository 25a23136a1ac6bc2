-- ===== src/Lint/FileName/Laws.antt =====
-- What the functions on file names give.
use mathlib.Core.List.{reverse-append, reverse-reverse, reverse_aux}
use mathlib.Core.Path.{◌≡⟨◌⟩◌, ◌∎}
use ringfile.Prelude.{
  ℕ, ◌+◌, ◌≡◌, ◌≢◌, refl, sym, ap, true, ◌||◌, ◌==◌, some, [], ◌∷◌, ◌++◌, Text, arith, All, codes,
  reverse, length, drop, starts_with, same_iff, Bool-cases, inl, inr,
}
use ringfile.Prelude.Strings.{ends_with}
use ringfile.Lint.FileName.{
  drop_common_suffixes, common_suffixes, first_cut, files_belong_to_same_module, source_stem,
  header_stem, without_end, up_to_end,
}

starts_with-eq : (s p : Text) → starts_with s p ≡ true → p ++ drop (length p) s ≡ s
unfolding starts_with
starts_with-eq s [] h = refl
starts_with-eq [] (y ∷ p) h = ground arith
starts_with-eq (x ∷ s) (y ∷ p) h = ground (arith, starts_with-eq s p)

length-reverse_aux : (s a : Text) → length (reverse_aux s a) ≡ length s + length a
length-reverse_aux [] a = omega arith
length-reverse_aux (x ∷ s) a = omega (arith, length-reverse_aux s (x ∷ a))

length-reverse : (s : Text) → length (reverse s) ≡ length s
length-reverse s = omega (arith, length-reverse_aux s [])

-- Cutting an ending off and putting it back gives the text.
without_end-append : (s t : Text) → ends_with s t ≡ true → without_end s t ++ t ≡ s
unfolding without_end ends_with
without_end-append s t h =
    reverse (drop (length t) (reverse s)) ++ t
    ≡⟨ ap (λ k. reverse (drop k (reverse s)) ++ t) (sym (length-reverse t)) ⟩
      reverse (drop (length (reverse t)) (reverse s)) ++ t
    ≡⟨ ap (λ u. reverse (drop (length (reverse t)) (reverse s)) ++ u) (sym (reverse-reverse t)) ⟩
      reverse (drop (length (reverse t)) (reverse s)) ++ reverse (reverse t)
    ≡⟨ sym (reverse-append (reverse t) (drop (length (reverse t)) (reverse s))) ⟩
      reverse (reverse t ++ drop (length (reverse t)) (reverse s))
    ≡⟨ ap reverse (starts_with-eq (reverse s) (reverse t) h) ⟩ reverse (reverse s)
    ≡⟨ reverse-reverse s ⟩ s ∎

-- If a source and a header belong to the same module, the prefix and the stem of the header make the
-- stem of the source, unless the stem of the header is empty.
pub files_belong-append :
    (filename_cc filename_h prefix : Text)
    → header_stem (without_end filename_h (codes ".h")) ≢ []
    → files_belong_to_same_module filename_cc filename_h ≡ (true, prefix)
    → prefix ++ header_stem (without_end filename_h (codes ".h"))
      ≡ source_stem (without_end filename_cc (codes ".cc"))
unfolding files_belong_to_same_module up_to_end
files_belong-append filename_cc filename_h prefix n h =
    let cc_stem = source_stem (without_end filename_cc (codes ".cc")) in
    let h_stem = header_stem (without_end filename_h (codes ".h")) in
    elim (Bool-cases (ends_with cc_stem h_stem)) [
      | inl e ↦
          let p : prefix ≡ without_end cc_stem h_stem = ground (arith, same_iff h_stem []) in
          rw p (without_end-append cc_stem h_stem e)
      | inr e ↦ ground arith
    ]

by_reverse :
    (stem t : Text)
    → first_cut (reverse t ++ reverse stem) common_suffixes ≡ some (reverse (reverse stem))
    → drop_common_suffixes (stem ++ t) ≡ stem
unfolding drop_common_suffixes
by_reverse stem t h =
    rw (reverse-append stem t, drop_common_suffixes)
      (rw (h, drop_common_suffixes) (reverse-reverse stem))

-- A dash or an underscore and one of the common suffixes behind any stem are dropped.
pub drop_common_suffixes-append :
    (stem : Text) (c : ℕ)
    → (c == b'-' || c == b'_') ≡ true
    → All (λ suffix. drop_common_suffixes (stem ++ c ∷ suffix) ≡ stem) common_suffixes
unfolding first_cut starts_with
drop_common_suffixes-append stem c h = (
  by_reverse stem (c ∷ codes "test.cc") (ground arith),
  (
    by_reverse stem (c ∷ codes "regtest.cc") (ground arith),
    (
      by_reverse stem (c ∷ codes "unittest.cc") (ground arith),
      (
        by_reverse stem (c ∷ codes "inl.h") (ground arith),
        (
          by_reverse stem (c ∷ codes "impl.h") (ground arith),
          (by_reverse stem (c ∷ codes "internal.h") (ground arith), tt),
        ),
      ),
    ),
  ),
)
