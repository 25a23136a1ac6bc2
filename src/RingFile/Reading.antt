-- ===== src/RingFile/Reading.antt =====
-- EndOfFile, NextRecordSize and Read: a reader comes from one record to the next.
use native.Mathlib.Nat.{mod-eq_of_lt}
use mathlib.Core.List.{append-nil}
use ringfile.Prelude.{
  ℕ, ◌+◌, ◌-◌, ◌%◌, ◌^◌, ◌≤◌, ◌<◌, ◌≡◌, ◌≢◌, refl, sym, ap, ◌∙◌, true, false, ltb, ◌==◌, none, some,
  List, [], ◌∷◌, ◌++◌, arith, length, ◌↔◌,
}
use ringfile.Prelude.Words.{add_u64}
use ringfile.Varint
use ringfile.Storage.{done, wrapping_read}
use ringfile.Storage.Wrapping.{ring_slice, wrapping_read_lem}
use ringfile.RingFile.{
  File, Ringfile, bytes_max, end_of_file, next_record_size, read, open_file, with_file, create,
  k_magic,
}
use ringfile.RingFile.Position.{
  IsAt, round_apart, next_bounds, next_record, next_read_size, advanced, advanced-IsAt,
}
use ringfile.RingFile.Records.{
  Holds, encode, encode_all, total, total-append, after_record_lem, ring_slice-right,
}

module _ (max : ℕ) where
  -- EndOfFile is true behind the last record, and only there.
  pub end_of_file-end :
      (r : Ringfile) (before : List (List ℕ)) → IsAt max r before [] → end_of_file r ≡ true
  unfolding end_of_file
  end_of_file-end r before h =
      let e : r.file.start_offset + total (before ++ []) ≡ r.file.start_offset + total before =
        ap (λ t. r.file.start_offset + total t) (append-nil before) in
      let p : r.read_offset ≡ r.file.end_offset =
        h.at ∙ sym (h.holds.end_eq ∙ ap (λ t. t % max) e) in
      ground (arith, p)

  pub end_of_file-next :
      (r : Ringfile) (before : List (List ℕ)) (bytes : List ℕ) (after : List (List ℕ))
      → IsAt max r before (bytes ∷ after)
      → end_of_file r ≡ false
  unfolding end_of_file total
  end_of_file-next r before bytes after h =
      let b = next_bounds max r before bytes after h in
      let x = r.file.start_offset + total before in
      let k = length (encode bytes) + total after in
      let e : r.file.end_offset ≡ (x + k) % max =
        h.holds.end_eq ∙ ap (λ t. t % max) (omega (arith, total-append before (bytes ∷ after))) in
      let ne = round_apart max x k (omega (arith, b.1)) (omega (arith, b.2)) in
      let ne' : r.read_offset ≢ r.file.end_offset = λ p. ne (sym h.at ∙ (p ∙ e)) in
      ground (arith, ne')

  pub end_of_file-IsAt :
      (r : Ringfile) (before after : List (List ℕ))
      → IsAt max r before after
      → (end_of_file r ≡ true) ↔ (after ≡ [])
  end_of_file-IsAt r before [] h = (λ e. refl, λ e. end_of_file-end r before h)
  end_of_file-IsAt r before (bytes ∷ after) h =
      let f = end_of_file-next r before bytes after h in (λ e. cc (e, f), λ e. cc)

  -- NextRecordSize gives the size of the next record, ...
  pub next_record_size-next :
      (r : Ringfile) (before : List (List ℕ)) (bytes : List ℕ) (after : List (List ℕ))
      → IsAt max r before (bytes ∷ after)
      → next_record_size r ≡ done (some (length bytes))
  unfolding next_record_size
  next_record_size-next r before bytes after h =
      rw (end_of_file-next r before bytes after h, next_read_size max r before bytes after h)
        (rw h.is_open refl)

  -- ... and fails behind the last.
  pub next_record_size-end :
      (r : Ringfile) (before : List (List ℕ))
      → IsAt max r before []
      → next_record_size r ≡ done none
  unfolding next_record_size
  next_record_size-end r before h = rw (end_of_file-end r before h) (rw h.is_open refl)

  -- Of a reader that is before a record of at least one byte, Read into a buffer with room for it
  -- gives the bytes of the record, and the reader is behind it.
  pub read-next :
      (buffer_size : ℕ) (r : Ringfile) (before : List (List ℕ)) (bytes : List ℕ)
      (after : List (List ℕ))
      → IsAt max r before (bytes ∷ after)
      → 0 < length bytes
      → length bytes ≤ buffer_size
      → (r' : Ringfile) × (read buffer_size r ≡ done (r', some bytes))
        × IsAt max r' (before ++ (bytes ∷ [])) after
  unfolding read encode
  read-next buffer_size r before bytes after h hz hs =
      let g = h.holds in
      let header = Varint.write (length bytes) in
      let b = next_bounds max r before bytes after h in
      let a : add_u64 r.read_offset (length header) ≡ r.read_offset + length header =
        omega (arith, b.3, b.2, b.4, g.max_bound) in
      let t : ltb buffer_size (length bytes) ≡ false = ground (arith, hs) in
      let w =
        wrapping_read_lem max r.file.area (r.read_offset + length header) (length bytes) g.max_bound
          hz (omega (arith, b.2, b.3)) in
      let p =
        ring_slice-right max r.file.area r.read_offset (length (encode bytes)) header bytes b.3
          (next_record max r before bytes after h) in
      let w' : wrapping_read (bytes_max r.file) r.file.area (r.read_offset + length header)
            (length bytes)
          ≡ done bytes =
        ap (λ t. wrapping_read t r.file.area (r.read_offset + length header) (length bytes)) g.room
        ∙ (w ∙ ap done p) in
      let o =
        after_record_lem max r.file r.read_offset bytes g.room g.max_bound b.4 b.0
          (omega (arith, b.2)) in
      (
        advanced max r bytes,
        simp h.is_open (
            rw (next_read_size max r before bytes after h, t, a, w')
              (ap (λ t. done (record r { is_open = true; read_offset = t }, some bytes)) o)),
        advanced-IsAt max r before bytes after h,
      )

  -- A buffer that is too small is refused, and the reader stays where it is.
  pub read-small :
      (buffer_size : ℕ) (r : Ringfile) (before : List (List ℕ)) (bytes : List ℕ)
      (after : List (List ℕ))
      → IsAt max r before (bytes ∷ after)
      → buffer_size < length bytes
      → read buffer_size r ≡ done (r, none)
  unfolding read
  read-small buffer_size r before bytes after h hs =
      let t : ltb buffer_size (length bytes) ≡ true = ground (arith, hs) in
      rw (next_read_size max r before bytes after h, t) (simp h.is_open refl)

  -- Open comes to the first record.
  pub open_file-Holds :
      (junk : ℕ) (f : File) (records : List (List ℕ))
      → Holds max f records
      → (r : Ringfile) × (open_file junk f ≡ some r)
        × (r.file ≡ f)
        × IsAt max r [] records
        × (r.streaming_read_offset ≡ 0)
  unfolding open_file total
  open_file-Holds junk f records h =
      let r = with_file junk f.start_offset f in
      let e : (f.magic == k_magic) ≡ true = ground (arith, h.magic_eq) in
      let z : f.start_offset ≡ (f.start_offset + 0) % max =
        let g : f.start_offset + 0 ≡ f.start_offset = omega arith in
        sym (ap (λ t. t % max) g ∙ mod-eq_of_lt h.start_bound) in
      (r, rw e refl, refl, record { holds = h; at = z; is_open = refl }, refl)

-- A new file holds no records.
pub create-Holds :
    (junk size : ℕ) → 34 ≤ size → size < 2 ^ 63 → Holds (size - 24) (create junk size).file []
unfolding create bytes_max total encode_all ring_slice
create-Holds junk size h k = record {
  magic_eq = refl;
  room = omega (arith, h, k);
  max_size_le = omega (arith, h);
  max_bound = omega (arith, k);
  start_bound = omega (arith, h);
  end_eq =
      let e : (0 + 0) % (size - 24) ≡ 0 = mod-eq_of_lt {n = 0} {m = size - 24} (omega (arith, h)) in
      sym e;
  fits = omega (arith, h);
  bytes_eq = refl;
}
