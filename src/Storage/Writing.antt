-- ===== src/Storage/Writing.antt =====
-- What WrappingWrite changes: the bytes from the offset on, and no others.
use native.Mathlib.Nat.{mod-eq_of_lt, mod-eq-sub-mod, mod-lt, mod-mod, mod-add-mod}
use ringfile.Prelude.{
  ℕ, zero, suc, ◌+◌, ◌-◌, ◌%◌, ◌^◌, ◌≤◌, ◌<◌, ◌≡◌, refl, sym, ap, ◌∙◌, true, false, ltb, leb, ◌==◌,
  some, List, [], ◌∷◌, ◌++◌, arith, length, take, drop, get_elem?, length-drop, inl, inr,
}
use ringfile.Prelude.Words.{sub_u64}
use ringfile.Storage.{
  Area, done, overrun, put, parts, seek, write_part, wrapping_write, write_parts,
}
use ringfile.Storage.Wrapping.{ring_slice, ring_slice_mod, ring_slice-append, parts_cases}
use ringfile.Storage.Placing.{written, written_inside, written_outside}

module _ (max : ℕ) where
  -- bytes that are where they are asked for, one by one
  ring_slice_of :
      (d : Area) (a : ℕ) (bytes : List ℕ)
      → ((i b : ℕ) → get_elem? bytes i ≡ some b → d ((a + i) % max) ≡ b)
      → ring_slice max d a (length bytes) ≡ bytes
  unfolding ring_slice
  ring_slice_of d a [] h = refl
  ring_slice_of d a (b ∷ bytes) h =
      let e : a + 0 ≡ a = omega arith in
      let ih = ring_slice_of d (a + 1) bytes (λ i c g.
        let f : a + 1 + i ≡ a + suc i = omega arith in ap (λ j. d (j % max)) f ∙ h (suc i) c g) in
      cc (ap (λ j. d (j % max)) (sym e) ∙ h 0 b refl, ih)

  ring_slice_eq :
      (d d' : Area) (a n : ℕ)
      → ((i : ℕ) → i < n → d ((a + i) % max) ≡ d' ((a + i) % max))
      → ring_slice max d a n ≡ ring_slice max d' a n
  unfolding ring_slice
  ring_slice_eq d d' a zero h = refl
  ring_slice_eq d d' a (suc n) h =
      let e : a + 0 ≡ a = omega arith in
      let ih =
        ring_slice_eq d d' (a + 1) n
          (λ i l. let f : a + 1 + i ≡ a + suc i = omega arith in rw f (h (suc i) (omega arith))) in
      cc (ih, rw e at (h 0 (omega arith)))

  write_part_lem :
      (d : Area) (a n : ℕ) (bytes : List ℕ)
      → a < max
      → a + n ≤ max
      → n ≤ length bytes
      → write_part max d a n bytes ≡ done (put d a (take n bytes))
  unfolding write_part seek put
  write_part_lem d a zero bytes ha hn hr = refl
  write_part_lem d a (suc n) bytes ha hn hr =
      let e : a % max ≡ a = mod-eq_of_lt ha in
      let t : ltb a max ≡ true = ground arith in
      let u : ltb (length bytes) (suc n) ≡ false = ground arith in
      let v : leb (a + suc n) max ≡ true = ground arith in
      let z : (suc n == 0) ≡ false = ground arith in rw (t, e, u, v, z) refl

  wrapping_write-written :
      (d : Area) (offset : ℕ) (bytes : List ℕ)
      → max < 2 ^ 63
      → 0 < length bytes
      → length bytes ≤ max
      → wrapping_write max d offset bytes (length bytes)
        ≡ done (written max d (offset % max) bytes (parts max (offset % max) (length bytes)))
  unfolding wrapping_write write_parts
  wrapping_write-written d offset bytes hm hz hn =
      let a = offset % max in
      let n = length bytes in
      let ha : a < max = mod-lt offset (omega arith) in
      elim (parts_cases max a n hm ha hz hn) [
        | inl (l, e) ↦
            rw
              (
                e,
                write_part_lem d a n bytes ha (omega arith) (omega arith),
                write_part_lem (put d a (take n bytes)) 0 0 (drop n bytes) (omega arith)
                    (omega arith) (omega arith),
              )
              refl
        | inr (g, e) ↦
            rw
              (
                e,
                write_part_lem d a (max - a) bytes ha (omega arith) (omega arith),
                write_part_lem (put d a (take (max - a) bytes)) 0 (n - (max - a))
                    (drop (max - a) bytes) (omega arith) (omega arith)
                    (omega (arith, length-drop (max - a) bytes)),
              )
              refl
      ]

  -- What a write leaves in the area: the bytes from the offset on, and what was there behind them.
  pub record IsWritten (d : Area) (offset : ℕ) (bytes : List ℕ) (d' : Area) : Type 0 where
    pub inside : ring_slice max d' offset (length bytes) ≡ bytes
    pub outside :
        (k n : ℕ)
        → length bytes + k + n ≤ max
        → ring_slice max d' (offset + (length bytes + k)) n
          ≡ ring_slice max d (offset + (length bytes + k)) n

  -- WrappingWrite writes all the bytes from the offset on, and no others.
  pub wrapping_write_lem :
      (d : Area) (offset : ℕ) (bytes : List ℕ)
      → max < 2 ^ 63
      → 0 < length bytes
      → length bytes ≤ max
      → (d' : Area) × (wrapping_write max d offset bytes (length bytes) ≡ done d')
        × IsWritten d offset bytes d'
  wrapping_write_lem d offset bytes hm hz hn =
      let a = offset % max in
      let n = length bytes in
      let ha : a < max = mod-lt offset (omega arith) in
      let d' = written max d a bytes (parts max a n) in
      let back = λ (d'' : Area) (k : ℕ) (m : ℕ).
        ring_slice_mod max d'' (a + k) (offset + k) m (mod-add-mod offset max k) in
      (
        d',
        wrapping_write-written d offset bytes hm hz hn,
        record {
          inside =
              sym (ring_slice_mod max d' a offset n (mod-mod offset max))
              ∙ ring_slice_of d' a bytes (λ i b e. written_inside max d a bytes i b hm ha hn e);
          outside = λ k m h.
              sym (back d' (n + k) m)
              ∙ (ring_slice_eq d' d (a + (n + k)) m (λ i l.
                    let f : a + (n + k) + i ≡ a + (n + k + i) = omega arith in
                    rw f (
                      written_outside max d a bytes (n + k + i) hm ha hz (omega arith)
                        (omega arith)))
                  ∙ back d (n + k) m);
        },
      )

  -- Bytes that are written behind others stand behind them.
  pub ring_slice-extend :
      (d : Area) (offset : ℕ) (bytes : List ℕ) (d' : Area) (start n : ℕ) (xs : List ℕ)
      → IsWritten d offset bytes d'
      → offset % max ≡ (start + n) % max
      → n + length bytes ≤ max
      → ring_slice max d start n ≡ xs
      → ring_slice max d' start (n + length bytes) ≡ xs ++ bytes
  ring_slice-extend d offset bytes d' start n xs w e h p =
      let m = length bytes in
      let k = max - m - n in
      let o : (offset + (m + k)) % max ≡ start % max =
        let f : offset + (m + k) ≡ offset + (max - n) = omega (arith, h) in
        let g : start + n + (max - n) ≡ start + max = omega (arith, h) in
        ap (λ t. t % max) f
        ∙ (sym (mod-add-mod offset max (max - n))
            ∙ (ap (λ t. (t + (max - n)) % max) e
                ∙ (mod-add-mod (start + n) max (max - n)
                    ∙ (ap (λ t. t % max) g
                        ∙ (mod-eq-sub-mod {n = start + max} {m = max} (omega arith)
                            ∙ ap (λ t. t % max) (omega arith)))))) in
      let back = λ (d'' : Area). sym (ring_slice_mod max d'' (offset + (m + k)) start n o) in
      let same : ring_slice max d' start n ≡ ring_slice max d start n =
        back d' ∙ (w.outside k n (omega (arith, h)) ∙ sym (back d)) in
      ring_slice-append max d' start n m
      ∙ cc (same ∙ p, ring_slice_mod max d' (start + n) offset m (sym e) ∙ w.inside)

  -- A write of no bytes is taken to go round the whole area, and reads beyond its buffer.
  pub wrapping_write-empty :
      (d : Area) (offset : ℕ) → 0 < max → max < 2 ^ 63 → wrapping_write max d offset [] 0 ≡ overrun
  unfolding wrapping_write write_parts write_part seek parts
  wrapping_write-empty d offset hz hm =
      let a = offset % max in
      let ha : a < max = mod-lt offset hz in
      let e : (a + 0) % 2 ^ 64 ≡ a = omega arith in
      let t : ltb a ((a + 0) % 2 ^ 64 % max) ≡ false = rw (e, mod-eq_of_lt ha) (ground arith) in
      let n : sub_u64 max a ≡ max - a = omega arith in
      let u : (max - a == 0) ≡ false = ground arith in
      let v : ltb a max ≡ true = ground arith in
      let w : ltb 0 (max - a) ≡ true = ground arith in rw (t, n, u, v, w) refl
