-- ===== src/Varint.antt =====
-- class Varint of src/varint.cc: a 64-bit number as a sequence of bytes, seven bits to a byte and the
-- lowest first; the top bit of a byte says that more follow.
--
-- A loop of the source runs for ten values of `shift`. Here it has the number of rounds that are left;
-- without one, the function of the source ends with no return statement, which is `none`.
pub mod RoundTrip
mod Runs
use ringfile.Prelude.{
  ℕ, zero, suc, ◌+◌, ◌-◌, ◌*◌, ◌/◌, ◌%◌, ◌^◌, ◌==◌, Bool, ltb, leb, Option, none, some, List, [],
  ◌∷◌, if◌then◌else◌,
}

-- kMaxSize
abbrev pub max_size : ℕ
max_size = 10

-- value_ < exp2(k). The comparison is one of doubles, and a value that is rounded to the power of two
-- is not less than it: a double has 53 bits, and a tie is rounded to the power.
unfoldable pub less_exp2 : ℕ → ℕ → Bool
less_exp2 value k = if leb k 53 then ltb value (2 ^ k) else ltb value (2 ^ k - 2 ^ (k - 54))

unfoldable pub byte_size_from : ℕ → ℕ → ℕ → Option ℕ
byte_size_from zero shift value = none
byte_size_from (suc rounds) shift value =
    let rest = byte_size_from rounds (shift + 1) value in
    if less_exp2 value ((shift + 1) * 7) then some (shift + 1) else rest

-- ByteSize
unfoldable pub byte_size : ℕ → Option ℕ
byte_size value = byte_size_from max_size 0 value

-- (value_ >> (shift * 7)) & 0x7f
abbrev pub group : ℕ → ℕ → ℕ
group value shift = value / 2 ^ (shift * 7) % 128

unfoldable pub write_from : ℕ → ℕ → ℕ → List ℕ
write_from zero shift value = []
write_from (suc rounds) shift value =
    let rest = write_from rounds (shift + 1) value in
    if less_exp2 value ((shift + 1) * 7)
    then group value shift ∷ []
    else (group value shift + 128) ∷ rest

-- Write: the bytes that it puts into the buffer.
unfoldable pub write : ℕ → List ℕ
write value = write_from max_size 0 value

-- The bits of a byte are above those that are read, so that |= is a sum. The group of the last byte is
-- shifted out of the 64 bits in part.
unfoldable pub read_from : ℕ → ℕ → ℕ → List ℕ → Option (ℕ × ℕ)
read_from zero shift value bytes = none
read_from (suc rounds) shift value [] = none
read_from (suc rounds) shift value (byte ∷ bytes) =
    let value' = value + byte % 128 * 2 ^ (shift * 7) % 2 ^ 64 in
    let rest = read_from rounds (shift + 1) value' bytes in
    if byte / 128 % 2 == 0 then some (shift + 1, value') else rest

-- Read: the number of bytes that it returns, and the new value.
unfoldable pub read : List ℕ → Option (ℕ × ℕ)
read bytes = read_from max_size 0 0 bytes
