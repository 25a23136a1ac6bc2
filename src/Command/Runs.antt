-- ===== src/Command/Runs.antt =====
-- Runs of the command line tool.
use ringfile.Prelude.{ℕ, ◌≡◌, refl, true, none, some, List, [], ◌∷◌, arith, codes}
use ringfile.Varint
use ringfile.Storage.{
  done, ◌>>=◌, wrapping_read, wrapping_write, read_parts, write_parts, parts, read_part, write_part,
  seek, slice, put,
}
use ringfile.RingFile.{
  File, create, open_file, read, write, next_record_size, begin_record, make_room, pop_record,
  read_size, end_of_file, bytes_max, bytes_used, bytes_available,
}
use ringfile.RingFile.Records.{encode, total}
use ringfile.RingFile.Kept.{evict}
use ringfile.RingFile.Writing.{push}
use ringfile.RingFile.Reading.{create-Holds}
use ringfile.Command.{command_read, command_write, read_loop, write_loop}
use ringfile.Command.RoundTrip.{push_all, IsStorable, command_write-read}

abbrev lines : List (List ℕ)
lines = codes "alpha" ∷ codes "beta" ∷ codes "gamma" ∷ codes "delta" ∷ []

lines-IsStorable : IsStorable 18 lines []
unfolding IsStorable push evict total encode Varint.write Varint.write_from Varint.less_exp2
lines-IsStorable = ground arith

-- The last three of the lines have room in a file of 42 bytes.
push_all_test : push_all 18 lines [] ≡ codes "beta" ∷ codes "gamma" ∷ codes "delta" ∷ []
unfolding push_all push evict total encode Varint.write Varint.write_from Varint.less_exp2
push_all_test = refl

command_write-read_example :
    (f' : File) × (command_write 7 none (some (create 7 42).file) lines ≡ done (some f', true))
    × (command_read 3 (some f') ≡ done (push_all 18 lines [], true))
command_write-read_example =
    command_write-read 18 7 3 none (create 7 42).file [] lines
      (create-Holds 7 42 (omega arith) (omega arith)) tt lines-IsStorable

-- The same by running both programs.
written_test :
    (command_write 7 (some 42) none lines >>= λ (file, ok). command_read 3 file)
    ≡ done (codes "beta" ∷ codes "gamma" ∷ codes "delta" ∷ [], true)
unfolding command_write command_read write_loop read_loop create open_file read write
    next_record_size begin_record make_room pop_record read_size end_of_file bytes_max bytes_used
    bytes_available wrapping_read wrapping_write read_parts write_parts parts read_part write_part
    seek slice put Varint.read Varint.read_from Varint.write Varint.write_from Varint.byte_size
    Varint.byte_size_from Varint.less_exp2
written_test = refl
