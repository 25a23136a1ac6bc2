-- ===== src/RingFile/Streaming/Reads.antt =====
-- A record that is read in pieces.
use ringfile.Prelude.{
  ℕ, zero, suc, ◌+◌, ◌-◌, ◌%◌, ◌^◌, ◌≤◌, ◌<◌, ◌≡◌, refl, ap, ◌∙◌, true, false, ltb, ◌==◌, Option,
  none, some, List, [], ◌∷◌, ◌++◌, arith, if◌then◌else◌, length, take, drop, take-append-drop,
  length-drop, length-append,
}
use ringfile.Prelude.Words.{add_u64}
use ringfile.Varint
use ringfile.Storage.{Outcome, done, stuck, ◌>>=◌, wrapping_read}
use ringfile.Storage.Wrapping.{ring_slice, wrapping_read_lem}
use ringfile.RingFile.{Ringfile, bytes_max}
use ringfile.RingFile.Records.{encode, ring_slice-left, ring_slice-right, after_record_lem}
use ringfile.RingFile.Position.{IsAt, advanced-IsAt, next_bounds, next_record, next_read_size}
use ringfile.RingFile.Reading.{end_of_file-next}
use ringfile.RingFile.Streaming.{streaming_read_start, streaming_read}

-- These bytes of a record are still to be read.
pub record IsReading (max : ℕ) (r : Ringfile) (rest : List ℕ) : Type 0 where
  pub room : bytes_max r.file ≡ max
  pub max_bound : max < 2 ^ 63
  pub length_bound : length rest ≤ max
  pub offset_bound : r.streaming_read_offset + length rest < 2 ^ 64
  pub remaining_eq : r.streaming_read_bytes_remaining ≡ length rest
  pub rest_eq : ring_slice max r.file.area r.streaming_read_offset (length rest) ≡ rest

-- the calls of StreamingRead for a whole record, until one gives no bytes
unfoldable pub read_pieces : ℕ → ℕ → Ringfile → Outcome (Ringfile × Option (List ℕ))
read_pieces zero buffer_size r = stuck
read_pieces (suc fuel) buffer_size r = streaming_read buffer_size r >>= λ (r', piece). elim piece [
  | none ↦ done (r', none)
  | some [] ↦ done (r', some [])
  | some (b ∷ bytes) ↦ read_pieces fuel buffer_size r' >>= λ (r'', pieces). elim pieces [
    | none ↦ done (r'', none)
    | some others ↦ done (r'', some ((b ∷ bytes) ++ others))
  ]
]

length-take_min :
    (n : ℕ) (xs : List ℕ) → (if ltb (length xs) n then length xs else n) ≡ length (take n xs)
length-take_min zero xs = ground arith
length-take_min (suc n) [] = ground arith
length-take_min (suc n) (x ∷ xs) = ground (arith, length-take_min n xs)

module _ (max : ℕ) where
  streaming_read-append :
      (buffer_size : ℕ) (r : Ringfile) (xs ys : List ℕ)
      → IsReading max r (xs ++ ys)
      → (if ltb (length (xs ++ ys)) buffer_size then length (xs ++ ys) else buffer_size) ≡ length xs
      → (r' : Ringfile) × (streaming_read buffer_size r ≡ done (r', some xs)) × IsReading max r' ys
  unfolding streaming_read
  streaming_read-append buffer_size r [] ys h e =
      let q = ap (λ t. if ltb t buffer_size then t else buffer_size) h.remaining_eq ∙ e in
      (r, rw q refl, h)
  streaming_read-append buffer_size r (x ∷ xs) ys h e =
      let bytes = x ∷ xs in
      let l = length-append bytes ys in
      let q = ap (λ t. if ltb t buffer_size then t else buffer_size) h.remaining_eq ∙ e in
      let z : (length bytes == 0) ≡ false = ground arith in
      let p =
        ring_slice-left max r.file.area r.streaming_read_offset (length (bytes ++ ys)) bytes ys l
          h.rest_eq in
      let w =
        wrapping_read_lem max r.file.area r.streaming_read_offset (length bytes) h.max_bound
          (omega arith) (omega (arith, h.length_bound, l)) in
      let w' =
        ap (λ t. wrapping_read t r.file.area r.streaming_read_offset (length bytes)) h.room
        ∙ (w ∙ ap done p) in
      let a : add_u64 r.streaming_read_offset (length bytes)
          ≡ r.streaming_read_offset + length bytes =
        omega (arith, h.offset_bound, l) in
      (
        record r {
          streaming_read_offset = r.streaming_read_offset + length bytes;
          streaming_read_bytes_remaining = r.streaming_read_bytes_remaining - length bytes;
        },
        rw (q, z, w', a) refl,
        record {
          room = h.room;
          max_bound = h.max_bound;
          length_bound = omega (arith, h.length_bound, l);
          offset_bound = omega (arith, h.offset_bound, l);
          remaining_eq = omega (arith, h.remaining_eq, l);
          rest_eq =
              ring_slice-right max r.file.area r.streaming_read_offset (length (bytes ++ ys)) bytes
                ys l h.rest_eq;
        },
      )

  -- StreamingRead gives the first bytes of those that are left, as many as the buffer has room for.
  pub streaming_read-take :
      (buffer_size : ℕ) (r : Ringfile) (rest : List ℕ)
      → IsReading max r rest
      → (r' : Ringfile) × (streaming_read buffer_size r ≡ done (r', some (take buffer_size rest)))
        × IsReading max r' (drop buffer_size rest)
  streaming_read-take buffer_size r rest h =
      let e = take-append-drop buffer_size rest in
      streaming_read-append buffer_size r (take buffer_size rest) (drop buffer_size rest) (rw e h)
        (rw e (length-take_min buffer_size rest))

  -- StreamingReadStart comes to the next record, and gives its size.
  pub streaming_read_start-next :
      (r : Ringfile) (before : List (List ℕ)) (bytes : List ℕ) (after : List (List ℕ))
      → IsAt max r before (bytes ∷ after)
      → r.streaming_read_offset ≡ 0
      → (r' : Ringfile) × (streaming_read_start r ≡ done (r', some (length bytes)))
        × IsReading max r' bytes
        × IsAt max r' (before ++ (bytes ∷ [])) after
  unfolding streaming_read_start encode
  streaming_read_start-next r before bytes after h hz =
      let g = h.holds in
      let header = Varint.write (length bytes) in
      let b = next_bounds max r before bytes after h in
      let z : (r.streaming_read_offset == 0) ≡ true = ground (arith, hz) in
      let a : add_u64 r.read_offset (length header) ≡ r.read_offset + length header =
        omega (arith, b.3, b.2, b.4, g.max_bound) in
      let p =
        ring_slice-right max r.file.area r.read_offset (length (encode bytes)) header bytes b.3
          (next_record max r before bytes after h) in
      let o =
        after_record_lem max r.file r.read_offset bytes g.room g.max_bound b.4 b.0
          (omega (arith, b.2)) in
      let next = advanced-IsAt max r before bytes after h in
      (
        record r {
          streaming_read_offset = r.read_offset + length header;
          streaming_read_bytes_remaining = length bytes;
          read_offset = (r.read_offset + length (encode bytes)) % max;
        },
        rw
            (
              z,
              end_of_file-next max r before bytes after h,
              next_read_size max r before bytes after h,
              a,
            )
            (rw h.is_open (
              ap
                (λ t. done (
                  record r {
                    is_open = true;
                    streaming_read_offset = r.read_offset + length header;
                    streaming_read_bytes_remaining = length bytes;
                    read_offset = t;
                  },
                  some (length bytes),
                ))
                o)),
        record {
          room = g.room;
          max_bound = g.max_bound;
          length_bound = omega (arith, b.2, b.3);
          offset_bound = omega (arith, b.2, b.3, b.4, g.max_bound);
          remaining_eq = refl;
          rest_eq = p;
        },
        record { holds = next.holds; at = next.at; is_open = next.is_open },
      )

  -- The pieces of a record make the record.
  pub read_pieces_lem :
      (fuel buffer_size : ℕ) (r : Ringfile) (rest : List ℕ)
      → IsReading max r rest
      → 0 < buffer_size
      → length rest < fuel
      → (r' : Ringfile) × (read_pieces fuel buffer_size r ≡ done (r', some rest))
  unfolding read_pieces
  read_pieces_lem zero buffer_size r rest h hz hf = absurd (omega (arith, hf))
  read_pieces_lem (suc fuel) zero r rest h hz hf = absurd (omega (arith, hz))
  read_pieces_lem (suc fuel) (suc n) r [] h hz hf =
      let s = streaming_read-take (suc n) r [] h in (s.0, rw s.1 refl)
  read_pieces_lem (suc fuel) (suc n) r (b ∷ rest) h hz hf =
      let s = streaming_read-take (suc n) r (b ∷ rest) h in
      let ih =
        read_pieces_lem fuel (suc n) s.0 (drop n rest) s.2 hz
          (omega (arith, hf, length-drop n rest)) in
      (ih.0, rw (s.1, ih.1) (ap (λ t. done (ih.0, some (b ∷ t))) (take-append-drop n rest)))

  -- Of a reader that is before a record, with no other one begun, StreamingReadStart gives the
  -- size of the record and comes to the one behind it. The pieces that StreamingRead then gives,
  -- into a buffer of any size but 0 and until it gives none, make the record.
  pub streaming_read-record :
      (buffer_size : ℕ) (r : Ringfile) (before : List (List ℕ)) (bytes : List ℕ)
      (after : List (List ℕ))
      → IsAt max r before (bytes ∷ after)
      → r.streaming_read_offset ≡ 0
      → 0 < buffer_size
      → (r' : Ringfile) × (r'' : Ringfile) × (streaming_read_start r
          ≡ done (r', some (length bytes)))
        × IsAt max r' (before ++ (bytes ∷ [])) after
        × (read_pieces (suc (length bytes)) buffer_size r' ≡ done (r'', some bytes))
  streaming_read-record buffer_size r before bytes after h ho hz =
      let s = streaming_read_start-next r before bytes after h ho in
      let p = read_pieces_lem (suc (length bytes)) buffer_size s.0 bytes s.2 hz (omega arith) in
      (s.0, p.0, s.1, s.3, p.1)
