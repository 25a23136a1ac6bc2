-- ===== src/RingFile/Position.antt =====
-- Where a reader is among the records of a file.
use native.Mathlib.Nat.{mod-lt, mod-mod, mod-add-mod}
use mathlib.Core.List.{append_assoc}
use ringfile.Prelude.{
  ℕ, ◌+◌, ◌%◌, ◌^◌, ◌<◌, ◌≡◌, ◌≢◌, sym, ap, ◌∙◌, true, List, [], ◌∷◌, ◌++◌, arith, length, inl, inr,
}
use ringfile.Varint
use ringfile.Storage.{done}
use ringfile.Storage.Wrapping.{ring_slice, ring_slice_mod, round_cases}
use ringfile.RingFile.{Ringfile, read_size}
use ringfile.RingFile.Records.{
  Holds, encode, encode_all, total, total-append, length-encode_all, length-encode,
  length_le-encode, nth_record, ring_slice-left, read_size_lem,
}

-- A reader has these records behind it and those before it.
pub record IsAt (max : ℕ) (r : Ringfile) (before after : List (List ℕ)) : Type 0 where
  pub holds : Holds max r.file (before ++ after)
  pub at : r.read_offset ≡ (r.file.start_offset + total before) % max
  pub is_open : r.is_open ≡ true

module _ (max : ℕ) where
  -- less than a whole turn leads elsewhere
  pub round_apart : (x k : ℕ) → 0 < k → k < max → x % max ≢ (x + k) % max
  round_apart x k hz hk p =
      let a = x % max in
      let ha : a < max = mod-lt x (omega (arith, hk)) in
      let e : a ≡ (a + k) % max = p ∙ sym (mod-add-mod x max k) in
      elim (round_cases max a k ha hk) [
        | inl (l, q) ↦ omega (arith, e, q, hz)
        | inr (g, q) ↦ omega (arith, e, q, hz, hk, g)
      ]

  -- the bounds of the next record
  pub next_bounds :
      (r : Ringfile) (before : List (List ℕ)) (bytes : List ℕ) (after : List (List ℕ))
      → IsAt max r before (bytes ∷ after)
      → (length bytes < 2 ^ 64)
        × (0 < length (encode bytes))
        × (total before + length (encode bytes) + total after < max)
        × (length (encode bytes) ≡ length (Varint.write (length bytes)) + length bytes)
        × (r.read_offset < max)
  unfolding total
  next_bounds r before bytes after h =
      let t = total-append before (bytes ∷ after) in
      let l : length bytes < 2 ^ 64 =
        omega (arith, length_le-encode bytes, h.holds.fits, h.holds.max_bound, t) in
      let e = length-encode bytes l in
      (
        l,
        omega (arith, e.0, e.1),
        omega (arith, h.holds.fits, t),
        e.0,
        rw h.at (mod-lt (r.file.start_offset + total before) (omega (arith, h.holds.max_size_le))),
      )

  -- where the next record is
  pub next_record :
      (r : Ringfile) (before : List (List ℕ)) (bytes : List ℕ) (after : List (List ℕ))
      → IsAt max r before (bytes ∷ after)
      → ring_slice max r.file.area r.read_offset (length (encode bytes)) ≡ encode bytes
  next_record r before bytes after h =
      let a = r.file.start_offset + total before in
      let n = nth_record max r.file before bytes after h.holds in
      let m = length-encode_all after in
      let o : r.read_offset % max ≡ a % max = ap (λ t. t % max) h.at ∙ mod-mod a max in
      ring_slice_mod max r.file.area r.read_offset a (length (encode bytes)) o
      ∙ ring_slice-left max r.file.area a (length (encode bytes) + total after) (encode bytes)
          (encode_all after) (omega (arith, m)) n

  pub next_read_size :
      (r : Ringfile) (before : List (List ℕ)) (bytes : List ℕ) (after : List (List ℕ))
      → IsAt max r before (bytes ∷ after)
      → read_size r.file r.read_offset ≡ done (length (Varint.write (length bytes)), length bytes)
  next_read_size r before bytes after h =
      let g = h.holds in
      read_size_lem max r.file r.read_offset bytes g.room g.max_size_le g.max_bound
        (next_bounds r before bytes after h).0 (next_record r before bytes after h)

  -- the reader behind the next record
  abbrev pub advanced : Ringfile → List ℕ → Ringfile
  advanced r bytes = record r { read_offset = (r.read_offset + length (encode bytes)) % max }

  pub advanced-IsAt :
      (r : Ringfile) (before : List (List ℕ)) (bytes : List ℕ) (after : List (List ℕ))
      → IsAt max r before (bytes ∷ after)
      → IsAt max (advanced r bytes) (before ++ (bytes ∷ [])) after
  unfolding total
  advanced-IsAt r before bytes after h = record {
    holds = rw (append_assoc before (bytes ∷ []) after) h.holds;
    at =
        let e : r.file.start_offset + total before + length (encode bytes)
            ≡ r.file.start_offset + total (before ++ (bytes ∷ [])) =
          omega (arith, total-append before (bytes ∷ [])) in
        ap (λ t. (t + length (encode bytes)) % max) h.at
        ∙ (mod-add-mod (r.file.start_offset + total before) max (length (encode bytes))
            ∙ ap (λ t. t % max) e);
    is_open = h.is_open;
  }
