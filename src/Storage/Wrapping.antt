-- ===== src/Storage/Wrapping.antt =====
-- A transfer of some bytes, and of no more than the area has, goes round at its end.
use native.Mathlib.Nat.{mod-add-mod, mod-eq_of_lt, mod-eq-sub-mod, mod_self, mod-lt, mod-mod}
use mathlib.Core.List.{append-nil}
use ringfile.Prelude.{
  ℕ, zero, suc, ◌+◌, ◌-◌, ◌%◌, ◌^◌, ◌≤◌, ◌<◌, ◌≡◌, refl, sym, ap, ◌∙◌, true, false, ltb, leb, ◌==◌,
  List, [], ◌∷◌, ◌++◌, arith, ◌⊎◌, inl, inr, Bool-cases, ltb→lt, ltb_false→le,
}
use ringfile.Prelude.Words.{sub_u64}
use ringfile.Storage.{Area, done, slice, parts, seek, read_part, wrapping_read, read_parts}

-- n bytes from an offset on, going round at the end of the area
unfoldable pub ring_slice : ℕ → Area → ℕ → ℕ → List ℕ
ring_slice max d offset zero = []
ring_slice max d offset (suc n) = d (offset % max) ∷ ring_slice max d (offset + 1) n

-- The sum of an offset and a number of bytes, reduced.
pub round_cases :
    (max a n : ℕ)
    → a < max
    → n < max
    → ((a + n < max) × ((a + n) % max ≡ a + n)) ⊎ ((max ≤ a + n) × ((a + n) % max ≡ a + n - max))
round_cases max a n ha hn = elim (Bool-cases (ltb (a + n) max)) [
  | inl lt ↦ let l = ltb→lt (a + n) max lt in inl (l, mod-eq_of_lt l)
  | inr ge ↦
      let g = ltb_false→le (a + n) max ge in inr (g, mod-eq-sub-mod g ∙ mod-eq_of_lt (omega arith))
]

module _ (max : ℕ) where
  pub ring_slice_mod :
      (d : Area) (a b n : ℕ) → a % max ≡ b % max → ring_slice max d a n ≡ ring_slice max d b n
  unfolding ring_slice
  ring_slice_mod d a b zero h = refl
  ring_slice_mod d a b (suc n) h =
      let e : (a + 1) % max ≡ (b + 1) % max =
        sym (mod-add-mod a max 1) ∙ (ap (λ t. (t + 1) % max) h ∙ mod-add-mod b max 1) in
      cc (h, ring_slice_mod d (a + 1) (b + 1) n e)

  pub ring_slice-append :
      (d : Area) (a m n : ℕ)
      → ring_slice max d a (m + n) ≡ ring_slice max d a m ++ ring_slice max d (a + m) n
  unfolding ring_slice
  ring_slice-append d a zero n =
      let e : 0 + n ≡ n = omega arith in let f : a + 0 ≡ a = omega arith in rw (e, f) refl
  ring_slice-append d a (suc m) n =
      let e : suc m + n ≡ suc (m + n) = omega arith in
      let f : a + suc m ≡ a + 1 + m = omega arith in
      rw (e, f) (ap (λ t. d (a % max) ∷ t) (ring_slice-append d (a + 1) m n))

  ring_slice-slice : (d : Area) (a n : ℕ) → a + n ≤ max → ring_slice max d a n ≡ slice d a n
  unfolding ring_slice slice
  ring_slice-slice d a zero h = refl
  ring_slice-slice d a (suc n) h =
      let e : a % max ≡ a = mod-eq_of_lt (omega arith) in
      cc (e, ring_slice-slice d (a + 1) n (omega arith))

  -- a read from the end of the area goes on at its start
  around :
      (d : Area) (a n : ℕ)
      → a < max
      → max ≤ a + n
      → n ≤ max
      → ring_slice max d a n ≡ slice d a (max - a) ++ slice d 0 (n - (max - a))
  around d a n ha hn hm =
      let e : n ≡ (max - a) + (n - (max - a)) = omega arith in
      let f : (a + (max - a)) % max ≡ 0 % max =
        let g : a + (max - a) ≡ max = omega arith in
        ap (λ t. t % max) g ∙ (mod_self max ∙ sym (mod-eq_of_lt {n = 0} {m = max} (omega arith))) in
      ap (ring_slice max d a) e
      ∙ (ring_slice-append d a (max - a) (n - (max - a))
          ∙ cc (
            ring_slice-slice d a (max - a) (omega arith),
            ring_slice_mod d (a + (max - a)) 0 (n - (max - a)) f,
            ring_slice-slice d 0 (n - (max - a)) (omega arith),
          ))

  -- the two parts of a transfer
  pub parts_cases :
      (a n : ℕ)
      → max < 2 ^ 63
      → a < max
      → 0 < n
      → n ≤ max
      → ((a + n < max) × (parts max a n ≡ (n, 0)))
        ⊎ ((max ≤ a + n) × (parts max a n ≡ (max - a, n - (max - a))))
  unfolding parts
  parts_cases a n hm ha hz hn =
      let w : (a + n) % 2 ^ 64 ≡ a + n = omega arith in
      elim (Bool-cases (ltb (a + n) max)) [
        | inl lt ↦
            let l : a + n < max = ltb→lt (a + n) max lt in
            let t : ltb a ((a + n) % 2 ^ 64 % max) ≡ true = rw (w, mod-eq_of_lt l) (ground arith) in
            inl (l, rw t refl)
        | inr ge ↦
            let g : max ≤ a + n = ltb_false→le (a + n) max ge in
            let r : (a + n) % max ≡ a + n - max = mod-eq-sub-mod g ∙ mod-eq_of_lt (omega arith) in
            let t : ltb a ((a + n) % 2 ^ 64 % max) ≡ false = rw (w, r) (ground arith) in
            let e : sub_u64 max a ≡ max - a = omega arith in
            let f : sub_u64 n (max - a) ≡ n - (max - a) = omega arith in inr (g, rw (t, e, f) refl)
      ]

  read_part_lem :
      (d : Area) (a n room : ℕ)
      → a < max
      → a + n ≤ max
      → n ≤ room
      → read_part max d a n room ≡ done (slice d a n)
  unfolding read_part seek slice
  read_part_lem d a zero room ha hn hr = refl
  read_part_lem d a (suc n) room ha hn hr =
      let e : a % max ≡ a = mod-eq_of_lt ha in
      let t : ltb a max ≡ true = ground arith in
      let u : ltb room (suc n) ≡ false = ground arith in
      let v : leb (a + suc n) max ≡ true = ground arith in
      let z : (suc n == 0) ≡ false = ground arith in rw (t, e, u, v, z) refl

  -- WrappingRead gives the bytes from the offset on.
  pub wrapping_read_lem :
      (d : Area) (offset n : ℕ)
      → max < 2 ^ 63
      → 0 < n
      → n ≤ max
      → wrapping_read max d offset n ≡ done (ring_slice max d offset n)
  unfolding wrapping_read read_parts slice
  wrapping_read_lem d offset n hm hz hn =
      let a = offset % max in
      let ha : a < max = mod-lt offset (omega arith) in
      let back = ring_slice_mod d a offset n (mod-mod offset max) in
      elim (parts_cases a n hm ha hz hn) [
        | inl (l, e) ↦
            rw
              (
                e,
                read_part_lem d a n n ha (omega arith) (omega arith),
                read_part_lem d 0 0 (n - n) (omega arith) (omega arith) (omega arith),
              )
              (ap done
                (append-nil (slice d a n) ∙ (sym (ring_slice-slice d a n (omega arith)) ∙ back)))
        | inr (g, e) ↦
            rw
              (
                e,
                read_part_lem d a (max - a) n ha (omega arith) (omega arith),
                read_part_lem d 0 (n - (max - a)) (n - (max - a)) (omega arith) (omega arith)
                    (omega arith),
              )
              (ap done (sym (around d a n ha g hn) ∙ back))
      ]
