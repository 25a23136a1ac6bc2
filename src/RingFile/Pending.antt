-- ===== src/RingFile/Pending.antt =====
-- A record that is being written behind the records of a file: its header, then its bytes in one piece
-- or in several.
use native.Mathlib.Nat.{mod-add-mod, mod-eq-sub-mod}
use mathlib.Core.List.{append_assoc, append-nil}
use ringfile.Prelude.{
  ℕ, suc, ◌+◌, ◌-◌, ◌%◌, ◌^◌, ◌≤◌, ◌<◌, ◌≡◌, refl, sym, ap, ◌∙◌, true, false, ltb, none, some, List,
  [], ◌∷◌, ◌++◌, arith, length, length-append,
}
use ringfile.Prelude.Words.{add_u64}
use ringfile.Varint
use ringfile.Varint.RoundTrip.{byte_size-write}
use ringfile.Storage.{Area, done, wrapping_write}
use ringfile.Storage.Wrapping.{ring_slice}
use ringfile.Storage.Writing.{wrapping_write_lem, ring_slice-extend}
use ringfile.RingFile.{File, bytes_max, begin_record, make_room}
use ringfile.RingFile.Records.{
  Holds, encode, encode_all, total, total-append, length-encode_all, encode_all-append,
  ring_slice-left,
}
use ringfile.RingFile.Eviction.{make_room-evict}
use ringfile.RingFile.Kept.{evict, evict-fits}

-- Behind the records of the file stand the first bytes of another one.
pub record Pending (max : ℕ) (f : File) (records : List (List ℕ)) (begun : List ℕ) : Type 0 where
  pub holds : Holds max f records
  pub begun_eq :
      ring_slice max f.area f.start_offset (total records + length begun)
      ≡ encode_all records ++ begun

-- the bytes of a record, header included
abbrev pub record_size : ℕ → ℕ
record_size size = length (Varint.write size) + size

module _ (max : ℕ) where
  Holds-Pending :
      (f : File) (records : List (List ℕ)) → Holds max f records → Pending max f records []
  Holds-Pending f records h = record {
    holds = h;
    begun_eq =
        let e : total records + 0 ≡ total records = omega arith in
        ap (ring_slice max f.area f.start_offset) e
        ∙ (h.bytes_eq ∙ sym (append-nil (encode_all records)));
  }

  -- One more piece of it is written.
  pub wrapping_write-Pending :
      (f : File) (records : List (List ℕ)) (begun : List ℕ) (offset : ℕ) (bytes : List ℕ)
      → Pending max f records begun
      → offset % max ≡ (f.end_offset + length begun) % max
      → 0 < length bytes
      → total records + length begun + length bytes ≤ max
      → (d' : Area) × (wrapping_write max f.area offset bytes (length bytes) ≡ done d')
        × Pending max (record f { area = d' }) records (begun ++ bytes)
  unfolding bytes_max
  wrapping_write-Pending f records begun offset bytes h ho hz hn =
      let m = total records + length begun in
      let w = wrapping_write_lem max f.area offset bytes h.holds.max_bound hz (omega (arith, hn)) in
      let o : offset % max ≡ (f.start_offset + m) % max =
        let e : f.start_offset + total records + length begun ≡ f.start_offset + m = omega arith in
        ho
        ∙ (ap (λ t. (t + length begun) % max) h.holds.end_eq
            ∙ (mod-add-mod (f.start_offset + total records) max (length begun)
                ∙ ap (λ t. t % max) e)) in
      let x =
        ring_slice-extend max f.area offset bytes w.0 f.start_offset m (encode_all records ++ begun)
          w.2 o (omega (arith, hn)) h.begun_eq in
      let k : total records + length (begun ++ bytes) ≡ m + length bytes =
        omega (arith, length-append begun bytes) in
      let y =
        ap (ring_slice max w.0 f.start_offset) k
        ∙ (x ∙ append_assoc (encode_all records) begun bytes) in
      let l = length-encode_all records in
      let e : total records + length (begun ++ bytes)
          ≡ length (encode_all records) + length (begun ++ bytes) =
        omega (arith, l) in
      let left =
        ring_slice-left max w.0 f.start_offset (total records + length (begun ++ bytes))
          (encode_all records) (begun ++ bytes) e y in
      let g = h.holds in
      (
        w.0,
        w.1,
        record {
          holds = record {
            magic_eq = g.magic_eq;
            room = g.room;
            max_size_le = g.max_size_le;
            max_bound = g.max_bound;
            start_bound = g.start_bound;
            end_eq = g.end_eq;
            fits = g.fits;
            bytes_eq = sym (ap (ring_slice max w.0 f.start_offset) l) ∙ left;
          };
          begun_eq = y;
        },
      )

  -- The beginning of a record: where it can fit at all, the records that are left have room for it, and
  -- its header is written behind them.
  pub begin_record_lem :
      (size : ℕ) (f : File) (records : List (List ℕ))
      → Holds max f records
      → size < 2 ^ 64
      → record_size size < max
      → (f' : File) × (begin_record size f ≡ done (f', some (length (Varint.write size))))
        × Pending max f' (evict max (record_size size) records) (Varint.write size)
  unfolding begin_record bytes_max
  begin_record_lem size f records h hs hn =
      let need = record_size size in
      let w = byte_size-write size hs in
      let m = make_room-evict max need f records h (omega (arith, hn)) in
      let g = record f { start_offset = m.0 } in
      let o : g.end_offset % max ≡ (g.end_offset + 0) % max = ap (λ t. t % max) (omega arith) in
      let fits = evict-fits max need records (omega (arith, hn)) (omega (arith, h.fits)) in
      let p =
        wrapping_write-Pending g (evict max need records) [] g.end_offset (Varint.write size)
          (Holds-Pending g (evict max need records) m.2) o w.1 (omega (arith, fits)) in
      let a : add_u64 (length (Varint.write size)) size ≡ need = omega (arith, hn, h.max_bound) in
      let b : add_u64 need 1 ≡ need + 1 = omega (arith, hn, h.max_bound) in
      let r = ap (λ t. make_room (suc t) need f) (sym h.room) ∙ m.1 in
      let t : ltb max (need + 1) ≡ false = ground (arith, hn) in
      (record g { area = p.0 }, rw (w.0, a, b, h.room, t) (rw (r, h.room, p.1) refl), p.2)

  -- A record that can never fit is refused.
  pub begin_record-refused :
      (size : ℕ) (f : File)
      → bytes_max f ≡ max
      → size < 2 ^ 63
      → max ≤ record_size size
      → begin_record size f ≡ done (f, none)
  unfolding begin_record
  begin_record-refused size f hb hs hn =
      let w = byte_size-write size (omega (arith, hs)) in
      let a : add_u64 (add_u64 (length (Varint.write size)) size) 1 ≡ record_size size + 1 =
        omega (arith, hs, w.2) in
      let t : ltb max (record_size size + 1) ≡ true = ground (arith, hn) in rw (w.0, a, hb, t) refl

  -- All of the record is written, and the end offset is moved behind it.
  pub finish_lem :
      (f : File) (records : List (List ℕ)) (bytes : List ℕ) (offset : ℕ)
      → Pending max f records (encode bytes)
      → offset ≡ (f.end_offset + length (encode bytes)) % max
      → total records + length (encode bytes) < max
      → Holds max (record f { end_offset = offset }) (records ++ (bytes ∷ []))
  unfolding bytes_max total encode_all
  finish_lem f records bytes offset p ho hn =
      let h = p.holds in
      let n : total records + length (encode bytes) ≡ total (records ++ (bytes ∷ [])) =
        omega (arith, total-append records (bytes ∷ [])) in
      record {
        magic_eq = h.magic_eq;
        room = h.room;
        max_size_le = h.max_size_le;
        max_bound = h.max_bound;
        start_bound = h.start_bound;
        end_eq =
            let e : f.start_offset + total records + length (encode bytes)
                ≡ f.start_offset + total (records ++ (bytes ∷ [])) =
              omega (arith, n) in
            ho
            ∙ (ap (λ t. (t + length (encode bytes)) % max) h.end_eq
                ∙ (mod-add-mod (f.start_offset + total records) max (length (encode bytes))
                    ∙ ap (λ t. t % max) e));
        fits = omega (arith, n, hn);
        bytes_eq =
            ap (ring_slice max f.area f.start_offset) (sym n)
            ∙ (p.begun_eq
                ∙ (ap (λ t. encode_all records ++ t) (sym (append-nil (encode bytes)))
                    ∙ sym (encode_all-append records (bytes ∷ []))));
      }

  -- When the record fills the file, the end offset is the start offset again.
  pub finish-full :
      (f : File) (records : List (List ℕ)) (bytes : List ℕ) (offset : ℕ)
      → Pending max f records (encode bytes)
      → offset ≡ (f.end_offset + length (encode bytes)) % max
      → total records + length (encode bytes) ≡ max
      → Holds max (record f { end_offset = offset }) []
  unfolding bytes_max total encode_all ring_slice
  finish-full f records bytes offset p ho hn =
      let h = p.holds in
      record {
        magic_eq = h.magic_eq;
        room = h.room;
        max_size_le = h.max_size_le;
        max_bound = h.max_bound;
        start_bound = h.start_bound;
        end_eq =
            let e : f.start_offset + total records + length (encode bytes) ≡ f.start_offset + max =
              omega (arith, hn) in
            let g : f.start_offset + max - max ≡ f.start_offset + 0 = omega arith in
            ho
            ∙ (ap (λ t. (t + length (encode bytes)) % max) h.end_eq
                ∙ (mod-add-mod (f.start_offset + total records) max (length (encode bytes))
                    ∙ (ap (λ t. t % max) e
                        ∙ (mod-eq-sub-mod {n = f.start_offset + max} {m = max} (omega arith)
                            ∙ ap (λ t. t % max) g))));
        fits = omega (arith, h.max_size_le);
        bytes_eq = refl;
      }
