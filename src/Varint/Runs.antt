-- ===== src/Varint/Runs.antt =====
-- Runs of the integers, at the values of src/varint_test.cc.
use ringfile.Prelude.{◌≡◌, ◌<◌, ◌≤◌, ◌++◌, refl, some, [], ◌∷◌, length, arith}
use ringfile.Varint.{
  max_size, byte_size, byte_size_from, write, write_from, read, read_from, less_exp2,
}
use ringfile.Varint.RoundTrip.{read-write, byte_size-write}

two_bytes_test : write 14882 ≡ 0xa2 ∷ 0x74 ∷ []
unfolding write write_from less_exp2
two_bytes_test = refl

ten_bytes_test :
    read (0x9b ∷ 0xa8 ∷ 0xf9 ∷ 0xc2 ∷ 0xbb ∷ 0xd6 ∷ 0x80 ∷ 0x85 ∷ 0xa6 ∷ 0x01 ∷ 0xfe ∷ [])
    ≡ some (10, 11964378330978735131)
unfolding read read_from
ten_bytes_test = refl

-- 2 ^ 56 - 1 has 8 groups, but as a double it is 2 ^ 56.
rounded_test : byte_size 0xff_ffff_ffff_ffff ≡ some 9
unfolding byte_size byte_size_from less_exp2
rounded_test = refl

read-write_example : read (write 300 ++ 7 ∷ []) ≡ some (length (write 300), 300)
read-write_example = read-write 300 (7 ∷ []) (omega arith)

byte_size-write_test :
    (byte_size 300 ≡ some (length (write 300)))
    × (0 < length (write 300))
    × (length (write 300) ≤ max_size)
byte_size-write_test = byte_size-write 300 (omega arith)
