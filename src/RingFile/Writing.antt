-- ===== src/RingFile/Writing.antt =====
-- Write: the record is put behind those that are left, unless it fills the file.
use ringfile.Prelude.{
  ℕ, ◌+◌, ◌%◌, ◌^◌, ◌≤◌, ◌<◌, ◌≡◌, ◌≢◌, refl, sym, ap, true, false, List, [], ◌∷◌, ◌++◌, arith,
  length,
}
use native.Mathlib.Nat.{mod-lt}
use mathlib.Core.Path.{subst}
use ringfile.Prelude.Words.{add_u64}
use ringfile.Varint
use ringfile.Storage.{done, overrun}
use ringfile.Storage.Writing.{wrapping_write-empty}
use ringfile.RingFile.{File, bytes_max, write, after_record}
use ringfile.RingFile.Records.{
  Holds, encode, total, total-append, length-encode, length_le-encode, after_record_lem,
}
use ringfile.RingFile.Kept.{evict, evict-fits}
use ringfile.RingFile.Pending.{
  Pending, record_size, begin_record_lem, begin_record-refused, wrapping_write-Pending, finish_lem,
  finish-full,
}

-- What a file holds that a record was written to.
unfoldable pub push : ℕ → List ℕ → List (List ℕ) → List (List ℕ)
push max bytes records = evict max (length (encode bytes)) records ++ (bytes ∷ [])

length-write_zero : length (Varint.write 0) ≡ 1
unfolding Varint.write Varint.write_from Varint.less_exp2
length-write_zero = refl

module _ (max : ℕ) where
  -- the area and the offset that Write leaves
  write-Pending :
      (bytes : List ℕ) (f : File) (records : List (List ℕ))
      → Holds max f records
      → 0 < length bytes
      → length (encode bytes) < max
      → (f' : File) × (offset : ℕ) × (write bytes f
          ≡ done (record f' { end_offset = offset }, true))
        × Pending max f' (evict max (length (encode bytes)) records) (encode bytes)
        × (offset ≡ (f'.end_offset + length (encode bytes)) % max)
  unfolding write encode bytes_max
  write-Pending bytes f records h hz hn =
      let header = Varint.write (length bytes) in
      let l : length bytes < 2 ^ 64 = omega (arith, length_le-encode bytes, hn, h.max_bound) in
      let e = length-encode bytes l in
      let b = begin_record_lem max (length bytes) f records h l (omega (arith, e.0, hn)) in
      let kept = evict max (record_size (length bytes)) records in
      let f' = b.0 in
      let g = b.2.holds in
      let end_bound : f'.end_offset < max =
        rw g.end_eq (mod-lt (f'.start_offset + total kept) (omega (arith, hn))) in
      let fits =
        evict-fits max (record_size (length bytes)) records (omega (arith, hn, e.0))
          (omega (arith, h.fits)) in
      let a : add_u64 f'.end_offset (length header) ≡ f'.end_offset + length header =
        omega (arith, end_bound, g.max_bound, e.0, hn) in
      let p =
        wrapping_write-Pending max f' kept header (add_u64 f'.end_offset (length header)) bytes b.2
          (ap (λ t. t % max) a) hz (omega (arith, fits)) in
      let r =
        after_record_lem max f' f'.end_offset bytes g.room g.max_bound end_bound l
          (omega (arith, hn)) in
      (
        record f' { area = p.0 },
        after_record f' f'.end_offset (length header) (length bytes),
        rw (b.1, g.room, p.1) refl,
        subst (λ t. Pending max (record f' { area = p.0 }) (evict max t records) (encode bytes))
            (sym e.0) p.2,
        r,
      )

  -- To a file that holds some records, Write of a record of at least one byte, which is smaller
  -- than the ring with the bytes of its size, gives true. The file then holds the newest of its
  -- records that leave room, and the new one behind them, if these do not fill the ring to its
  -- last byte.
  pub write-push :
      (bytes : List ℕ) (f : File) (records : List (List ℕ))
      → Holds max f records
      → 0 < length bytes
      → length (encode bytes) < max
      → total (push max bytes records) ≢ max
      → (f' : File) × (write bytes f ≡ done (f', true)) × Holds max f' (push max bytes records)
  unfolding push total
  write-push bytes f records h hz hn hp =
      let w = write-Pending bytes f records h hz hn in
      let kept = evict max (length (encode bytes)) records in
      let fits =
        evict-fits max (length (encode bytes)) records (omega (arith, hn))
          (omega (arith, h.fits)) in
      let ne : total kept + length (encode bytes) < max =
        omega (arith, fits, hp, total-append kept (bytes ∷ [])) in
      (record w.0 { end_offset = w.1 }, w.2, finish_lem max w.0 kept bytes w.1 w.3 w.4 ne)

  -- If the record, of at least one byte and smaller than the ring with the bytes of its size, and
  -- those that are kept fill the ring to its last byte, Write gives true as well, and the file
  -- then holds no record at all.
  pub write-full :
      (bytes : List ℕ) (f : File) (records : List (List ℕ))
      → Holds max f records
      → 0 < length bytes
      → length (encode bytes) < max
      → total (push max bytes records) ≡ max
      → (f' : File) × (write bytes f ≡ done (f', true)) × Holds max f' []
  unfolding push total
  write-full bytes f records h hz hn hp =
      let w = write-Pending bytes f records h hz hn in
      let kept = evict max (length (encode bytes)) records in
      let ne : total kept + length (encode bytes) ≡ max =
        omega (arith, hp, total-append kept (bytes ∷ [])) in
      (record w.0 { end_offset = w.1 }, w.2, finish-full max w.0 kept bytes w.1 w.3 w.4 ne)

  -- A record of less than 2 ^ 63 bytes that is not smaller than the ring, with the bytes of its
  -- size, is refused, and the file stays as it is.
  pub write-refused :
      (bytes : List ℕ) (f : File)
      → bytes_max f ≡ max
      → length bytes < 2 ^ 63
      → max ≤ length (encode bytes)
      → write bytes f ≡ done (f, false)
  unfolding write
  write-refused bytes f hb hs hn =
      let e = length-encode bytes (omega (arith, hs)) in
      rw (begin_record-refused max (length bytes) f hb hs (omega (arith, hn, e.0))) refl

  -- To a file that holds some records, Write of a record of no bytes comes to a transfer of more bytes
  -- than its buffer has.
  pub write-empty :
      (f : File) (records : List (List ℕ)) → Holds max f records → write [] f ≡ overrun
  unfolding write
  write-empty f records h =
      let e = length-encode [] (omega arith) in
      let b =
        begin_record_lem max 0 f records h (omega arith)
          (omega (arith, e.2, h.max_size_le, length-write_zero)) in
      let g = b.2.holds in
      let s =
        wrapping_write-empty max b.0.area (add_u64 b.0.end_offset (length (Varint.write 0)))
          (omega (arith, h.max_size_le)) h.max_bound in
      rw (b.1, g.room, s) refl
