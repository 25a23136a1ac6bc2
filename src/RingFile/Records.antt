-- ===== src/RingFile/Records.antt =====
-- A ring file as a queue of records: what stands in the data area, and between which offsets.
use mathlib.Core.List.{append_assoc}
use ringfile.Prelude.{
  ℕ, zero, suc, ◌+◌, ◌-◌, ◌%◌, ◌^◌, ◌≤◌, ◌<◌, ◌≡◌, refl, sym, ap, ◌∙◌, true, false, leb, List, [],
  ◌∷◌, ◌++◌, arith, length, take, drop, length-append, take-append_length, drop-append_length, inl,
  inr,
}
use ringfile.Prelude.Words.{add_u64}
use ringfile.Varint
use ringfile.Varint.RoundTrip.{read-write, byte_size-write}
use ringfile.Storage.{Area, done}
use ringfile.Storage.Wrapping.{ring_slice, ring_slice-append, wrapping_read_lem, round_cases}
use ringfile.RingFile.{
  File, bytes_max, bytes_used, bytes_available, read_size, or_stuck, after_record, k_magic,
}

-- the bytes of a record
unfoldable pub encode : List ℕ → List ℕ
encode bytes = Varint.write (length bytes) ++ bytes

unfoldable pub encode_all : List (List ℕ) → List ℕ
encode_all [] = []
encode_all (bytes ∷ records) = encode bytes ++ encode_all records

unfoldable pub total : List (List ℕ) → ℕ
total [] = 0
total (bytes ∷ records) = length (encode bytes) + total records

-- A file with so many bytes for records holds these records, the oldest first.
pub record Holds (max : ℕ) (f : File) (records : List (List ℕ)) : Type 0 where
  pub magic_eq : f.magic ≡ k_magic
  pub room : bytes_max f ≡ max
  pub max_size_le : Varint.max_size ≤ max
  pub max_bound : max < 2 ^ 63
  pub start_bound : f.start_offset < max
  pub end_eq : f.end_offset ≡ (f.start_offset + total records) % max
  pub fits : total records < max
  pub bytes_eq : ring_slice max f.area f.start_offset (total records) ≡ encode_all records

pub length-encode_all : (records : List (List ℕ)) → length (encode_all records) ≡ total records
unfolding encode_all total
length-encode_all [] = refl
length-encode_all (bytes ∷ records) =
    length-append (encode bytes) (encode_all records)
    ∙ ap (λ t. length (encode bytes) + t) (length-encode_all records)

pub total-append : (xs ys : List (List ℕ)) → total (xs ++ ys) ≡ total xs + total ys
unfolding total
total-append [] ys = omega arith
total-append (x ∷ xs) ys = omega (arith, total-append xs ys)

pub encode_all-append :
    (xs ys : List (List ℕ)) → encode_all (xs ++ ys) ≡ encode_all xs ++ encode_all ys
unfolding encode_all
encode_all-append [] ys = refl
encode_all-append (x ∷ xs) ys =
    ap (λ t. encode x ++ t) (encode_all-append xs ys)
    ∙ sym (append_assoc (encode x) (encode_all xs) (encode_all ys))

-- The size of a record is written in one to ten bytes.
pub length-encode :
    (bytes : List ℕ)
    → length bytes < 2 ^ 64
    → (length (encode bytes) ≡ length (Varint.write (length bytes)) + length bytes)
      × (0 < length (Varint.write (length bytes)))
      × (length (Varint.write (length bytes)) ≤ Varint.max_size)
unfolding encode
length-encode bytes h =
    let w = byte_size-write (length bytes) h in
    (length-append (Varint.write (length bytes)) bytes, w.1, w.2)

pub length_le-encode : (bytes : List ℕ) → length bytes ≤ length (encode bytes)
unfolding encode
length_le-encode bytes = omega (arith, length-append (Varint.write (length bytes)) bytes)

module _ (max : ℕ) where
  pub length-ring_slice : (d : Area) (a n : ℕ) → length (ring_slice max d a n) ≡ n
  unfolding ring_slice
  length-ring_slice d a zero = refl
  length-ring_slice d a (suc n) = ap suc (length-ring_slice d (a + 1) n)

  -- a part of what stands in the area
  pub ring_slice-left :
      (d : Area) (a n : ℕ) (xs ys : List ℕ)
      → n ≡ length xs + length ys
      → ring_slice max d a n ≡ xs ++ ys
      → ring_slice max d a (length xs) ≡ xs
  ring_slice-left d a n xs ys e h =
      let s = ring_slice-append max d a (length xs) (length ys) in
      let l = length-ring_slice d a (length xs) in
      let t = sym s ∙ (sym (ap (ring_slice max d a) e) ∙ h) in
      sym (
        take-append_length (ring_slice max d a (length xs))
          (ring_slice max d (a + length xs) (length ys)))
      ∙ (ap
            (λ k.
              take k
                (ring_slice max d a (length xs) ++ ring_slice max d (a + length xs) (length ys)))
            l
          ∙ (ap (take (length xs)) t ∙ take-append_length xs ys))

  pub ring_slice-right :
      (d : Area) (a n : ℕ) (xs ys : List ℕ)
      → n ≡ length xs + length ys
      → ring_slice max d a n ≡ xs ++ ys
      → ring_slice max d (a + length xs) (length ys) ≡ ys
  ring_slice-right d a n xs ys e h =
      let s = ring_slice-append max d a (length xs) (length ys) in
      let l = length-ring_slice d a (length xs) in
      let t = sym s ∙ (sym (ap (ring_slice max d a) e) ∙ h) in
      sym (
        drop-append_length (ring_slice max d a (length xs))
          (ring_slice max d (a + length xs) (length ys)))
      ∙ (ap
            (λ k.
              drop k
                (ring_slice max d a (length xs) ++ ring_slice max d (a + length xs) (length ys)))
            l
          ∙ (ap (drop (length xs)) t ∙ drop-append_length xs ys))

  -- The header of a record can be read, whatever stands behind the record.
  pub read_size_lem :
      (f : File) (offset : ℕ) (bytes : List ℕ)
      → bytes_max f ≡ max
      → Varint.max_size ≤ max
      → max < 2 ^ 63
      → length bytes < 2 ^ 64
      → ring_slice max f.area offset (length (encode bytes)) ≡ encode bytes
      → read_size f offset ≡ done (length (Varint.write (length bytes)), length bytes)
  unfolding read_size encode
  read_size_lem f offset bytes hb hl hm hn h =
      let header = Varint.write (length bytes) in
      let w = byte_size-write (length bytes) hn in
      let e : Varint.max_size ≡ length header + (Varint.max_size - length header) =
        omega (arith, w.2) in
      let s =
        ap (ring_slice max f.area offset) e
        ∙ (ring_slice-append max f.area offset (length header) (Varint.max_size - length header)
            ∙ ap
                (λ t.
                  t
                  ++ ring_slice max f.area (offset + length header)
                      (Varint.max_size - length header))
                (ring_slice-left f.area offset (length (encode bytes)) header bytes
                  (length-append header bytes) h)) in
      let r = wrapping_read_lem max f.area offset Varint.max_size hm (omega arith) hl ∙ ap done s in
      let v =
        read-write (length bytes)
          (ring_slice max f.area (offset + length header) (Varint.max_size - length header)) hn in
      rw (hb, r) (ap or_stuck v)

  -- A record of a file, behind the others before it.
  pub nth_record :
      (f : File) (before : List (List ℕ)) (bytes : List ℕ) (after : List (List ℕ))
      → Holds max f (before ++ (bytes ∷ after))
      → ring_slice max f.area (f.start_offset + total before) (length (encode bytes) + total after)
        ≡ encode bytes ++ encode_all after
  unfolding total encode_all
  nth_record f before bytes after h =
      let m = length-encode_all before in
      let e : length (encode bytes ++ encode_all after) ≡ length (encode bytes) + total after =
        length-append (encode bytes) (encode_all after)
        ∙ ap (λ t. length (encode bytes) + t) (length-encode_all after) in
      let r =
        ring_slice-right f.area f.start_offset (total (before ++ (bytes ∷ after)))
          (encode_all before) (encode bytes ++ encode_all after)
          (omega (arith, total-append before (bytes ∷ after), m, e))
          (h.bytes_eq ∙ encode_all-append before (bytes ∷ after)) in
      sym (
        ap (λ t. ring_slice max f.area t (length (encode bytes) + total after))
          (ap (λ t. f.start_offset + t) m))
      ∙ (sym (ap (ring_slice max f.area (f.start_offset + length (encode_all before))) e) ∙ r)

  -- In a file that holds some records, bytes_used is the number of bytes of these with their
  -- sizes, wherever the ring begins.
  pub bytes_used_lem :
      (f : File) (records : List (List ℕ)) → Holds max f records → bytes_used f ≡ total records
  unfolding bytes_used
  bytes_used_lem f records h =
      elim (round_cases max f.start_offset (total records) h.start_bound h.fits) [
        | inl (l, e) ↦
            let s : leb f.start_offset f.end_offset ≡ true = ground (arith, h.end_eq, e) in
            rw s (omega (arith, h.end_eq, e))
        | inr (g, e) ↦
            let s : leb f.start_offset f.end_offset ≡ false =
              ground (arith, h.end_eq, e, h.fits, h.start_bound) in
            rw (s, h.room) (omega (arith, h.end_eq, e, h.fits, h.start_bound, h.max_bound))
      ]

  pub bytes_available_lem :
      (f : File) (records : List (List ℕ))
      → Holds max f records
      → bytes_available f ≡ max - total records
  unfolding bytes_available
  bytes_available_lem f records h =
      rw (h.room, bytes_used_lem f records h) (omega (arith, h.fits, h.max_bound))

  -- the offset behind a record
  pub after_record_lem :
      (f : File) (offset : ℕ) (bytes : List ℕ)
      → bytes_max f ≡ max
      → max < 2 ^ 63
      → offset < max
      → length bytes < 2 ^ 64
      → length (encode bytes) ≤ max
      → after_record f offset (length (Varint.write (length bytes))) (length bytes)
        ≡ (offset + length (encode bytes)) % max
  after_record_lem f offset bytes hb hm ho hl he =
      let e = length-encode bytes hl in
      let s : add_u64 offset (add_u64 (length (Varint.write (length bytes))) (length bytes))
          ≡ offset + length (encode bytes) =
        omega (arith, e.0) in
      rw (hb, s) refl
