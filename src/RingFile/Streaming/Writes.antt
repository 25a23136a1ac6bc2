-- ===== src/RingFile/Streaming/Writes.antt =====
-- A record that is written in pieces is written like one that is written at once.
use native.Mathlib.Nat.{mod-lt}
use mathlib.Core.List.{append_assoc, append-nil}
use ringfile.Prelude.{
  ℕ, ◌+◌, ◌-◌, ◌%◌, ◌^◌, ◌≤◌, ◌<◌, ◌≡◌, ◌≢◌, refl, sym, ap, ◌∙◌, Bool, true, false, not, ltb, ◌==◌,
  List, [], ◌∷◌, ◌++◌, arith, if◌then◌else◌, length, All, length-append,
}
use mathlib.Core.Path.{subst}
use ringfile.Prelude.Words.{add_u64}
use ringfile.Varint
use ringfile.Storage.{Outcome, done, ◌>>=◌, wrapping_write}
use ringfile.RingFile.{Ringfile, bytes_max}
use ringfile.RingFile.Records.{Holds, encode, total, total-append, length-encode, length_le-encode}
use ringfile.RingFile.Kept.{evict, evict-fits}
use ringfile.RingFile.Pending.{
  Pending, record_size, begin_record_lem, wrapping_write-Pending, finish_lem,
}
use ringfile.RingFile.Writing.{push}
use ringfile.RingFile.Streaming.{streaming_write_start, streaming_write, streaming_write_finish}

-- The first bytes of a record are written, and so many others are missing.
pub record IsStreaming (max : ℕ) (r : Ringfile) (records : List (List ℕ)) (begun : List ℕ)
    (rest : ℕ) : Type 0 where
  pub pending : Pending max r.file records begun
  pub fits : total records + length begun + rest ≤ max
  pub offset_eq : r.streaming_write_offset ≡ r.file.end_offset + length begun
  pub rest_eq : r.streaming_write_bytes_remaining ≡ rest

unfoldable pub concat : List (List ℕ) → List ℕ
concat [] = []
concat (piece ∷ pieces) = piece ++ concat pieces

-- the calls of StreamingWrite for some pieces
unfoldable pub write_pieces : List (List ℕ) → Ringfile → Outcome (Ringfile × Bool)
write_pieces [] r = done (r, true)
write_pieces (piece ∷ pieces) r = streaming_write piece r >>= λ (r', ok).
    let rest = write_pieces pieces r' in if not ok then done (r', false) else rest

-- the calls for a whole record
unfoldable pub stream : List (List ℕ) → Ringfile → Outcome (Ringfile × Bool)
stream pieces r = streaming_write_start (length (concat pieces)) r >>= λ (r', ok).
    if not ok
    then done (r', false)
    else write_pieces pieces r' >>= λ (r'', ok').
        if not ok' then done (r'', false) else streaming_write_finish r''

module _ (max : ℕ) where
  start_lem :
      (size : ℕ) (r : Ringfile) (records : List (List ℕ))
      → Holds max r.file records
      → r.streaming_write_offset ≡ 0
      → size < 2 ^ 64
      → record_size size < max
      → (r' : Ringfile) × (streaming_write_start size r ≡ done (r', true))
        × IsStreaming max r' (evict max (record_size size) records) (Varint.write size) size
  unfolding streaming_write_start
  start_lem size r records h ho hs hn =
      let b = begin_record_lem max size r.file records h hs hn in
      let g = b.2.holds in
      let kept = evict max (record_size size) records in
      let f' = b.0 in
      let z : (r.streaming_write_offset == 0) ≡ true = ground (arith, ho) in
      let end_bound : f'.end_offset < max =
        rw g.end_eq (mod-lt (f'.start_offset + total kept) (omega (arith, hn))) in
      let a : add_u64 f'.end_offset (length (Varint.write size))
          ≡ f'.end_offset + length (Varint.write size) =
        omega (arith, end_bound, hn, g.max_bound) in
      let fits =
        evict-fits max (record_size size) records (omega (arith, hn)) (omega (arith, h.fits)) in
      (
        record r {
          file = f';
          streaming_write_offset = add_u64 f'.end_offset (length (Varint.write size));
          streaming_write_bytes_remaining = size;
        },
        rw z (rw b.1 refl),
        record { pending = b.2; fits = omega (arith, fits); offset_eq = a; rest_eq = refl },
      )

  -- StreamingWrite writes its piece behind the others.
  pub streaming_write_lem :
      (bytes : List ℕ) (r : Ringfile) (records : List (List ℕ)) (begun : List ℕ) (rest : ℕ)
      → IsStreaming max r records begun rest
      → 0 < length bytes
      → length bytes ≤ rest
      → (r' : Ringfile) × (streaming_write bytes r ≡ done (r', true))
        × IsStreaming max r' records (begun ++ bytes) (rest - length bytes)
  unfolding streaming_write
  streaming_write_lem bytes r records begun rest h hz hn =
      let g = h.pending.holds in
      let p =
        wrapping_write-Pending max r.file records begun r.streaming_write_offset bytes h.pending
          (ap (λ t. t % max) h.offset_eq) hz (omega (arith, h.fits, hn)) in
      let t : ltb r.streaming_write_bytes_remaining (length bytes) ≡ false =
        ground (arith, h.rest_eq, hn) in
      let w =
        ap (λ t. wrapping_write t r.file.area r.streaming_write_offset bytes (length bytes)) g.room
        ∙ p.1 in
      let end_bound : r.file.end_offset < max =
        rw g.end_eq (mod-lt (r.file.start_offset + total records) (omega (arith, g.max_size_le))) in
      (
        record r {
          file = record r.file { area = p.0 };
          streaming_write_offset = add_u64 r.streaming_write_offset (length bytes);
          streaming_write_bytes_remaining = r.streaming_write_bytes_remaining - length bytes;
        },
        rw (t, w) refl,
        record {
          pending = p.2;
          fits = omega (arith, h.fits, hn, length-append begun bytes);
          offset_eq =
              omega
                (arith, h.offset_eq, h.fits, end_bound, g.max_bound, hn, length-append begun bytes);
          rest_eq = omega (arith, h.rest_eq);
        },
      )

  write_pieces_lem :
      (pieces : List (List ℕ)) (r : Ringfile) (records : List (List ℕ)) (begun : List ℕ)
      → IsStreaming max r records begun (length (concat pieces))
      → All (λ piece. 0 < length piece) pieces
      → (r' : Ringfile) × (write_pieces pieces r ≡ done (r', true))
        × IsStreaming max r' records (begun ++ concat pieces) 0
  unfolding write_pieces concat
  write_pieces_lem [] r records begun h k = (r, refl, rw (append-nil begun) h)
  write_pieces_lem (piece ∷ pieces) r records begun h k =
      let l = length-append piece (concat pieces) in
      let p =
        streaming_write_lem piece r records begun (length (piece ++ concat pieces)) h k.0
          (omega (arith, l)) in
      let e : length (piece ++ concat pieces) - length piece ≡ length (concat pieces) =
        omega (arith, l) in
      let ih = write_pieces_lem pieces p.0 records (begun ++ piece) (rw e at p.2) k.1 in
      (ih.0, rw (p.1, ih.1) refl, rw⁻¹ (append_assoc begun piece (concat pieces)) ih.2)

  -- With no other record begun, StreamingWriteStart with the length of a record, StreamingWrite of
  -- nonempty pieces of it one after the other, and StreamingWriteFinish succeed, and leave a file
  -- that holds what Write of the whole record leaves: the newest of the records that leave room,
  -- and the new one. The record is smaller than the ring with the bytes of its size, and does not
  -- fill the ring to its last byte together with those that are kept.
  pub stream-push :
      (pieces : List (List ℕ)) (r : Ringfile) (records : List (List ℕ))
      → Holds max r.file records
      → r.streaming_write_offset ≡ 0
      → All (λ piece. 0 < length piece) pieces
      → length (encode (concat pieces)) < max
      → total (push max (concat pieces) records) ≢ max
      → (r' : Ringfile) × (stream pieces r ≡ done (r', true))
        × Holds max r'.file (push max (concat pieces) records)
        × (r'.streaming_write_offset ≡ 0)
  unfolding stream streaming_write_finish push encode total
  stream-push pieces r records h ho k hn hp =
      let bytes = concat pieces in
      let l : length bytes < 2 ^ 64 = omega (arith, length_le-encode bytes, hn, h.max_bound) in
      let e = length-encode bytes l in
      let kept = evict max (length (encode bytes)) records in
      let s = start_lem (length bytes) r records h ho l (omega (arith, e.0, hn)) in
      let s' =
        subst
          (λ t.
            IsStreaming max s.0 (evict max t records) (Varint.write (length bytes)) (length bytes))
          (sym e.0) s.2 in
      let w = write_pieces_lem pieces s.0 kept (Varint.write (length bytes)) s' k in
      let g = w.2.pending.holds in
      let z : (w.0.streaming_write_bytes_remaining == 0) ≡ true = ground (arith, w.2.rest_eq) in
      let o = ap (λ t. w.0.streaming_write_offset % t) g.room ∙ ap (λ t. t % max) w.2.offset_eq in
      let fits = w.2.fits in
      let ne : total kept + length (encode bytes) < max =
        omega (arith, fits, hp, total-append kept (bytes ∷ [])) in
      (
        record w.0 {
          file = record w.0.file { end_offset = w.0.streaming_write_offset % bytes_max w.0.file };
          streaming_write_offset = 0;
        },
        rw (s.1, w.1) (rw z refl),
        finish_lem max w.0.file kept bytes (w.0.streaming_write_offset % bytes_max w.0.file)
            w.2.pending o ne,
        refl,
      )
