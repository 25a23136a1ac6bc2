-- ===== src/Storage.antt =====
-- The data area of a ring file: SeekToOffset, WrappingRead and WrappingWrite of src/ringfile.cc.
--
-- The area is a function from offsets to bytes, and `max` is bytes_max(), its length. The system calls
-- seek, read and write carry out what they are asked for; a read past the end of the file is short.
pub mod Wrapping
mod Placing
pub mod Writing
use ringfile.Prelude.{
  ℕ, zero, suc, ◌+◌, ◌-◌, ◌%◌, ◌==◌, Bool, true, false, ltb, leb, Option, none, some, List, [], ◌∷◌,
  ◌++◌, if◌then◌else◌, length, take, drop, get_elem?,
}
use ringfile.Prelude.Words.{add_u64, sub_u64}

-- What a call comes to. `refused` is the result false, and `overrun` a transfer of more bytes than its
-- buffer has. `stuck` is what this model says no more of: a failed assertion, a write past the end of the
-- file, a loop whose fuel is spent.
pub data Outcome {ℓ} (A : Type ℓ) : Type ℓ where
  done : A → Outcome A
  refused : Outcome A
  overrun : Outcome A
  stuck : Outcome A

infixl 5 ◌>>=◌
abbrev pub ◌>>=◌ {ℓ κ} : {A : Type ℓ} {B : Type κ} → Outcome A → (A → Outcome B) → Outcome B
done a >>= f = f a
refused >>= f = refused
overrun >>= f = overrun
stuck >>= f = stuck

abbrev pub Area : Type 0
Area = ℕ → ℕ

-- n bytes from an offset on
unfoldable pub slice : Area → ℕ → ℕ → List ℕ
slice d offset zero = []
slice d offset (suc n) = d offset ∷ slice d (offset + 1) n

-- the area with some bytes written at an offset
unfoldable pub put : Area → ℕ → List ℕ → Area
put d offset [] j = d j
put d offset (b ∷ bytes) j =
    if ltb j offset
    then d j
    else elim (get_elem? (b ∷ bytes) (j - offset)) [ some c ↦ c | none ↦ d j ]

-- Whether SeekToOffset passes its assertion; then the offset is the one of the next transfer.
unfoldable pub seek : ℕ → ℕ → Outcome ℕ
seek max offset = if ltb offset max then done (offset % max) else stuck

-- `if (n) { SeekToOffset(offset); read(fd_, ptr, n) }`, with room for so many bytes at ptr
unfoldable pub read_part : ℕ → Area → ℕ → ℕ → ℕ → Outcome (List ℕ)
unfolding seek
read_part max d offset n room =
    if n == 0
    then done []
    else seek max offset >>= λ at.
        if ltb room n then overrun else if leb (at + n) max then done (slice d at n) else refused

-- `if (n) { SeekToOffset(offset); write(fd_, ptr, n) }`, with the bytes at ptr
unfoldable pub write_part : ℕ → Area → ℕ → ℕ → List ℕ → Outcome Area
unfolding seek
write_part max d offset n bytes =
    if n == 0
    then done d
    else seek max offset >>= λ at.
        if ltb (length bytes) n
        then overrun
        else if leb (at + n) max
        then done (put d at (take n bytes))
        else stuck

-- (end_bytes, start_bytes), for an offset that is reduced already
unfoldable pub parts : ℕ → ℕ → ℕ → ℕ × ℕ
parts max offset size =
    if ltb offset (add_u64 offset size % max)
    then (size, 0)
    else (sub_u64 max offset, sub_u64 size (sub_u64 max offset))

-- The transfers of the two parts.
unfoldable pub read_parts : ℕ → Area → ℕ → ℕ × ℕ → ℕ → Outcome (List ℕ)
read_parts max d at (end_bytes, start_bytes) size = read_part max d at end_bytes size >>= λ first.
    read_part max d 0 start_bytes (size - end_bytes) >>= λ second. done (first ++ second)

unfoldable pub write_parts : ℕ → Area → ℕ → ℕ × ℕ → List ℕ → Outcome Area
write_parts max d at (end_bytes, start_bytes) bytes = write_part max d at end_bytes bytes >>= λ d'.
    write_part max d' 0 start_bytes (drop end_bytes bytes)

-- WrappingRead, into a buffer of the size that is asked for
unfoldable pub wrapping_read : ℕ → Area → ℕ → ℕ → Outcome (List ℕ)
wrapping_read max d offset size =
    let at = offset % max in read_parts max d at (parts max at size) size

-- WrappingWrite, from a buffer with these bytes
unfoldable pub wrapping_write : ℕ → Area → ℕ → List ℕ → ℕ → Outcome Area
wrapping_write max d offset bytes size =
    let at = offset % max in write_parts max d at (parts max at size) bytes
