-- ===== src/Command/RoundTrip.antt =====
-- The records that are read from a file are those that were written to it.
use ringfile.Prelude.{
  ℕ, zero, suc, ◌-◌, ◌^◌, ◌≤◌, ◌<◌, ◌≡◌, ◌≢◌, refl, true, Option, none, some, List, [], ◌∷◌, ◌++◌,
  arith, length, All, All-append, All-right,
}
use ringfile.Storage.{done}
use ringfile.RingFile.{File, Ringfile, bytes_max, create}
use ringfile.RingFile.Records.{Holds, encode, total}
use ringfile.RingFile.Eviction.{length_le-total}
use ringfile.RingFile.Kept.{evict, evict-suffix}
use ringfile.RingFile.Writing.{push, write-push}
use ringfile.RingFile.Position.{IsAt}
use ringfile.RingFile.Reading.{
  next_record_size-next, next_record_size-end, read-next, open_file-Holds, create-Holds,
}
use ringfile.Command.{read_loop, command_read, write_loop, command_write}

abbrev pub IsNonempty : List ℕ → Type 0
IsNonempty bytes = 0 < length bytes

-- What a file holds that lines were appended to.
unfoldable pub push_all : ℕ → List (List ℕ) → List (List ℕ) → List (List ℕ)
push_all max [] records = records
push_all max (line ∷ lines) records = push_all max lines (push max line records)

-- Every line has some bytes and room in the file, and none fills it together with the records before it.
unfoldable pub IsStorable : ℕ → List (List ℕ) → List (List ℕ) → Type 0
IsStorable max [] records = Unit {0}
IsStorable max (line ∷ lines) records =
    IsNonempty line
    × (length (encode line) < max)
    × (total (push max line records) ≢ max)
    × IsStorable max lines (push max line records)

module _ (max : ℕ) where
  -- The loop prints the records that are before the reader, in their order.
  pub read_loop_lem :
      (fuel : ℕ) (r : Ringfile) (before after : List (List ℕ))
      → IsAt max r before after
      → All IsNonempty after
      → length after < fuel
      → read_loop fuel r ≡ done (after, true)
  unfolding read_loop
  read_loop_lem zero r before after h k hf = absurd (omega (arith, hf))
  read_loop_lem (suc fuel) r before [] h k hf = rw (next_record_size-end max r before h) refl
  read_loop_lem (suc fuel) r before (bytes ∷ after) h k hf =
      let p = read-next max (length bytes) r before bytes after h k.0 (omega arith) in
      let ih = read_loop_lem fuel p.0 (before ++ (bytes ∷ [])) after p.2 k.1 (omega (arith, hf)) in
      rw (next_record_size-next max r before bytes after h, p.1, ih) refl

  pub write_loop_lem :
      (lines : List (List ℕ)) (f : File) (records : List (List ℕ))
      → Holds max f records
      → IsStorable max lines records
      → (f' : File) × (write_loop lines f ≡ done (f', true))
        × Holds max f' (push_all max lines records)
  unfolding write_loop push_all IsStorable
  write_loop_lem [] f records h k = (f, refl, h)
  write_loop_lem (line ∷ lines) f records h k =
      let w = write-push max line f records h k.0 k.1 k.2 in
      let ih = write_loop_lem lines w.0 (push max line records) w.2 k.3 in
      (ih.0, rw (w.1, ih.1) refl, ih.2)

  push-IsNonempty :
      (bytes : List ℕ) (records : List (List ℕ))
      → IsNonempty bytes
      → All IsNonempty records
      → All IsNonempty (push max bytes records)
  unfolding push
  push-IsNonempty bytes records h k =
      let s = evict-suffix max (length (encode bytes)) records in
      All-append IsNonempty (evict max (length (encode bytes)) records) (bytes ∷ [])
        (All-right IsNonempty s.0 (evict max (length (encode bytes)) records) (rw s.1 k)) (h, tt)

  push_all-IsNonempty :
      (lines records : List (List ℕ))
      → IsStorable max lines records
      → All IsNonempty records
      → All IsNonempty (push_all max lines records)
  unfolding push_all IsStorable
  push_all-IsNonempty [] records h k = k
  push_all-IsNonempty (line ∷ lines) records h k =
      push_all-IsNonempty lines (push max line records) h.3 (push-IsNonempty line records h.0 k)

  -- Read prints the records of a file.
  pub command_read-Holds :
      (junk : ℕ) (f : File) (records : List (List ℕ))
      → Holds max f records
      → All IsNonempty records
      → command_read junk (some f) ≡ done (records, true)
  unfolding command_read
  command_read-Holds junk f records h k =
      let o = open_file-Holds max junk f records h in
      rw (o.1) (
        read_loop_lem (suc (bytes_max f)) o.0 [] records o.3 k
          (omega (arith, h.room, h.fits, length_le-total max f records h)))

  -- Write of lines to a file that holds nonempty records succeeds, and Read then prints the newest
  -- of the records and lines, in their order, as many as are left when one line after the other is
  -- put in. No line is empty, each is smaller than the ring with the bytes of its size, and none
  -- fills the ring to its last byte.
  pub command_write-read :
      (junk junk' : ℕ) (size : Option ℕ) (f : File) (records lines : List (List ℕ))
      → Holds max f records
      → All IsNonempty records
      → IsStorable max lines records
      → (f' : File) × (command_write junk size (some f) lines ≡ done (some f', true))
        × (command_read junk' (some f') ≡ done (push_all max lines records, true))
  unfolding command_write
  command_write-read junk junk' size f records lines h k s =
      let o = open_file-Holds max junk f records h in
      let w = write_loop_lem lines f records h s in
      (
        w.0,
        rw (o.1, o.2, w.1) refl,
        command_read-Holds junk' w.0 (push_all max lines records) w.2
            (push_all-IsNonempty lines records s k),
      )

-- The same for a file that Write makes.
pub command_create-read :
    (junk junk' size : ℕ) (lines : List (List ℕ))
    → 34 ≤ size
    → size < 2 ^ 63
    → IsStorable (size - 24) lines []
    → (f' : File) × (command_write junk (some size) none lines ≡ done (some f', true))
      × (command_read junk' (some f') ≡ done (push_all (size - 24) lines [], true))
unfolding command_write
command_create-read junk junk' size lines h k s =
    let w =
      write_loop_lem (size - 24) lines (create junk size).file [] (create-Holds junk size h k) s in
    (
      w.0,
      rw w.1 refl,
      command_read-Holds (size - 24) junk' w.0 (push_all (size - 24) lines []) w.2
          (push_all-IsNonempty (size - 24) lines [] s tt),
    )
