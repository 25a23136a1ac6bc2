-- ===== src/RingFile/Eviction.antt =====
-- PopRecord, and the loop of Write and StreamingWriteStart that makes room.
use native.Mathlib.Nat.{mod-eq_of_lt, mod-lt, mod-mod, mod-add-mod}
use ringfile.Prelude.{
  ℕ, zero, suc, ◌+◌, ◌-◌, ◌%◌, ◌^◌, ◌≤◌, ◌<◌, ◌≡◌, ◌≢◌, refl, sym, ap, ◌∙◌, true, false, ltb, ◌==◌,
  List, [], ◌∷◌, arith, length, inl, inr, Bool-cases,
}
use ringfile.Varint
use ringfile.Storage.{done}
use ringfile.Storage.Wrapping.{ring_slice, ring_slice_mod, round_cases}
use ringfile.RingFile.{File, bytes_max, bytes_available, pop_record, make_room}
use ringfile.RingFile.Kept.{evict}
use ringfile.RingFile.Records.{
  Holds, encode, encode_all, total, length-encode_all, length-encode, length_le-encode,
  ring_slice-left, ring_slice-right, read_size_lem, bytes_available_lem, after_record_lem,
}

module _ (max : ℕ) where
  -- the first record of a file
  pub first_record :
      (f : File) (bytes : List ℕ) (records : List (List ℕ))
      → Holds max f (bytes ∷ records)
      → (ring_slice max f.area f.start_offset (length (encode bytes)) ≡ encode bytes)
        × (ring_slice max f.area (f.start_offset + length (encode bytes)) (total records)
            ≡ encode_all records)
  unfolding total encode_all
  first_record f bytes records h =
      let m = length-encode_all records in
      let e : length (encode bytes) + total records
          ≡ length (encode bytes) + length (encode_all records) =
        omega (arith, m) in
      (
        ring_slice-left max f.area f.start_offset (length (encode bytes) + total records)
            (encode bytes) (encode_all records) e h.bytes_eq,
        sym (ap (ring_slice max f.area (f.start_offset + length (encode bytes))) m)
            ∙ ring_slice-right max f.area f.start_offset (length (encode bytes) + total records)
                (encode bytes) (encode_all records) e h.bytes_eq,
      )

  -- the length of a record and of what follows it, for arithmetic
  pub record_bounds :
      (f : File) (bytes : List ℕ) (records : List (List ℕ))
      → Holds max f (bytes ∷ records)
      → (length bytes < 2 ^ 64)
        × (0 < length (encode bytes))
        × (length (encode bytes) + total records < max)
        × (length (encode bytes) ≡ length (Varint.write (length bytes)) + length bytes)
  unfolding total
  record_bounds f bytes records h =
      let l : length bytes < 2 ^ 64 = omega (arith, length_le-encode bytes, h.fits, h.max_bound) in
      let e = length-encode bytes l in (l, omega (arith, e.0, e.1), h.fits, e.0)

  abbrev popped : File → List ℕ → File
  popped f bytes = record f { start_offset = (f.start_offset + length (encode bytes)) % max }

  popped-Holds :
      (f : File) (bytes : List ℕ) (records : List (List ℕ))
      → Holds max f (bytes ∷ records)
      → Holds max (popped f bytes) records
  unfolding bytes_max total
  popped-Holds f bytes records h = record {
    magic_eq = h.magic_eq;
    room = h.room;
    max_size_le = h.max_size_le;
    max_bound = h.max_bound;
    start_bound = mod-lt (f.start_offset + length (encode bytes)) (omega (arith, h.max_size_le));
    end_eq =
        let e : f.start_offset + (length (encode bytes) + total records)
            ≡ f.start_offset + length (encode bytes) + total records =
          omega arith in
        h.end_eq
        ∙ (ap (λ t. t % max) e
            ∙ sym (mod-add-mod (f.start_offset + length (encode bytes)) max (total records)));
    fits = omega (arith, h.fits);
    bytes_eq =
        ring_slice_mod max f.area ((f.start_offset + length (encode bytes)) % max)
          (f.start_offset + length (encode bytes)) (total records)
          (mod-mod (f.start_offset + length (encode bytes)) max)
        ∙ (first_record f bytes records h).1;
  }

  pub end-not-start :
      (f : File) (bytes : List ℕ) (records : List (List ℕ))
      → Holds max f (bytes ∷ records)
      → f.start_offset ≢ f.end_offset
  unfolding total
  end-not-start f bytes records h p =
      let b = record_bounds f bytes records h in
      elim (round_cases max f.start_offset (length (encode bytes) + total records) h.start_bound
        h.fits) [
          | inl (l, e) ↦ omega (arith, e, h.end_eq, p, b.1)
          | inr (g, e) ↦ omega (arith, e, h.end_eq, p, b.1, b.2)
        ]

  pub pop_record_lem :
      (f : File) (bytes : List ℕ) (records : List (List ℕ))
      → Holds max f (bytes ∷ records)
      → (pop_record f ≡ done (popped f bytes, true)) × Holds max (popped f bytes) records
  unfolding pop_record total
  pop_record_lem f bytes records h =
      let b = record_bounds f bytes records h in
      let ne = end-not-start f bytes records h in
      let z : (f.start_offset == f.end_offset) ≡ false = ground (arith, ne) in
      let r =
        read_size_lem max f f.start_offset bytes h.room h.max_size_le h.max_bound b.0
          (first_record f bytes records h).0 in
      let e =
        after_record_lem max f f.start_offset bytes h.room h.max_bound h.start_bound b.0
          (omega (arith, b.2)) in
      (
        rw (z, r) (ap (λ t. done (record f { start_offset = t }, true)) e),
        popped-Holds f bytes records h,
      )

  pub pop_record-nothing : (f : File) → Holds max f [] → pop_record f ≡ done (f, false)
  unfolding pop_record total
  pop_record-nothing f h =
      let e : f.start_offset ≡ f.end_offset =
        let g : f.start_offset + 0 ≡ f.start_offset = omega arith in
        sym (h.end_eq ∙ (ap (λ t. t % max) g ∙ mod-eq_of_lt h.start_bound)) in
      let z : (f.start_offset == f.end_offset) ≡ true = ground (arith, e) in rw z refl

  -- The records that make_room takes away are the oldest, and no more of them than are needed.
  make_room_lem :
      (fuel need : ℕ) (f : File) (records : List (List ℕ))
      → Holds max f records
      → need ≤ max
      → length records < fuel
      → (start : ℕ) × (make_room fuel need f ≡ done (record f { start_offset = start }, true))
        × Holds max (record f { start_offset = start }) (evict max need records)
  unfolding make_room evict total
  make_room_lem zero need f records h hn hf = absurd (omega (arith, hf))
  make_room_lem (suc fuel) need f [] h hn hf =
      let z : ltb (bytes_available f) need ≡ false =
        ground (arith, bytes_available_lem max f [] h, hn) in
      (f.start_offset, rw z refl, h)
  make_room_lem (suc fuel) need f (bytes ∷ records) h hn hf =
      let g = popped f bytes in
      let p = pop_record_lem f bytes records h in
      let b = record_bounds f bytes records h in
      let a = bytes_available_lem max f (bytes ∷ records) h in
      let a' = bytes_available_lem max g records p.1 in
      elim (Bool-cases (ltb (max - total (bytes ∷ records)) need)) [
        | inl e ↦
            let t : ltb (bytes_available f) need ≡ true = rw a e in
            let gain : ltb (bytes_available f) (bytes_available g) ≡ true =
              rw (a, a') (ground (arith, b)) in
            let ih = make_room_lem fuel need g records p.1 hn (omega (arith, hf)) in
            (ih.0, rw (t, p.0, gain) ih.1, rw e ih.2)
        | inr e ↦
            let t : ltb (bytes_available f) need ≡ false = rw a e in
            (f.start_offset, rw t refl, rw e h)
      ]

  pub length_le-total :
      (f : File) (records : List (List ℕ)) → Holds max f records → length records ≤ total records
  unfolding total
  length_le-total f [] h = omega arith
  length_le-total f (bytes ∷ records) h =
      let ih = length_le-total (popped f bytes) records (pop_record_lem f bytes records h).1 in
      omega (arith, ih, record_bounds f bytes records h)

  -- In a file that holds some records, the loop that makes room ends within one round more than
  -- the ring has bytes, if no more is needed than the ring has. It succeeds, no assertion fails,
  -- the file then holds the newest of its records that leave the room, and nothing but its start
  -- offset has changed.
  pub make_room-evict :
      (need : ℕ) (f : File) (records : List (List ℕ))
      → Holds max f records
      → need ≤ max
      → (start : ℕ) × (make_room (suc (bytes_max f)) need f
          ≡ done (record f { start_offset = start }, true))
        × Holds max (record f { start_offset = start }) (evict max need records)
  make_room-evict need f records h hn =
      make_room_lem (suc (bytes_max f)) need f records h hn
        (omega (arith, h.room, h.fits, length_le-total f records h))
