-- ===== src/RingFile/Runs.antt =====
-- Runs of the ring file, in a file of 60 bytes, which has 36 for records.
use ringfile.Prelude.{
  ℕ, ◌≡◌, refl, true, false, some, List, [], ◌∷◌, ◌++◌, arith, length, codes, suc,
}
use ringfile.Varint
use ringfile.Storage.{done, overrun}
use ringfile.RingFile.{
  File, Ringfile, bytes_max, bytes_used, create, open_file, write, read, make_room,
}
use ringfile.RingFile.Records.{Holds, encode, total, bytes_used_lem}
use ringfile.RingFile.Eviction.{make_room-evict}
use ringfile.RingFile.Kept.{evict}
use ringfile.RingFile.Writing.{push, write-push, write-full, write-refused, write-empty}
use ringfile.RingFile.Position.{IsAt}
use ringfile.RingFile.Reading.{create-Holds, open_file-Holds, read-next}

abbrev new_file : File
new_file = (create 7 60).file

new_file-Holds : Holds 36 new_file []
new_file-Holds = create-Holds 7 60 (omega arith) (omega arith)

abbrev first : List ℕ
first = codes "the first record."

abbrev second : List ℕ
second = codes "the second"

length-first : length (encode first) ≡ 18
unfolding encode Varint.write Varint.write_from Varint.less_exp2
length-first = refl

length-second : length (encode second) ≡ 11
unfolding encode Varint.write Varint.write_from Varint.less_exp2
length-second = refl

total-first : total (push 36 first []) ≡ 18
unfolding encode Varint.write Varint.write_from Varint.less_exp2 push total evict
total-first = refl

total-second : total (push 36 second (push 36 first [])) ≡ 29
unfolding encode Varint.write Varint.write_from Varint.less_exp2 push total evict
total-second = refl

total-full : total (push 36 first (push 36 first [])) ≡ 36
unfolding encode Varint.write Varint.write_from Varint.less_exp2 push total evict
total-full = refl

-- a file with one record, as Write leaves it
one_record : (f' : File) × (write first new_file ≡ done (f', true)) × Holds 36 f' (push 36 first [])
one_record =
    write-push 36 first new_file [] new_file-Holds (omega arith) (omega (arith, length-first))
      (omega (arith, total-first))

write-push_example :
    (f' : File) × (write second one_record.0 ≡ done (f', true))
    × Holds 36 f' (push 36 second (push 36 first []))
write-push_example =
    write-push 36 second one_record.0 (push 36 first []) one_record.2 (omega arith)
      (omega (arith, length-second)) (omega (arith, total-second))

write-full_example : (f' : File) × (write first one_record.0 ≡ done (f', true)) × Holds 36 f' []
write-full_example =
    write-full 36 first one_record.0 (push 36 first []) one_record.2 (omega arith)
      (omega (arith, length-first)) total-full

write-empty_example : write [] one_record.0 ≡ overrun
write-empty_example = write-empty 36 one_record.0 (push 36 first []) one_record.2

abbrev long : List ℕ
long = first ++ first ++ second

length-long : length (encode long) ≡ 45
unfolding encode Varint.write Varint.write_from Varint.less_exp2
length-long = refl

write-refused_example : write long one_record.0 ≡ done (one_record.0, false)
write-refused_example =
    write-refused 36 long one_record.0 one_record.2.room (omega arith) (omega (arith, length-long))

bytes_used_lem_example : bytes_used one_record.0 ≡ total (push 36 first [])
bytes_used_lem_example = bytes_used_lem 36 one_record.0 (push 36 first []) one_record.2

make_room-evict_example :
    (start : ℕ) × (make_room (suc (bytes_max one_record.0)) 20 one_record.0
      ≡ done (record one_record.0 { start_offset = start }, true))
    × Holds 36 (record one_record.0 { start_offset = start }) (evict 36 20 (push 36 first []))
make_room-evict_example =
    make_room-evict 36 20 one_record.0 (push 36 first []) one_record.2 (omega arith)

push-first : push 36 first [] ≡ first ∷ []
unfolding push evict
push-first = refl

reader :
    (r : Ringfile) × (open_file 7 one_record.0 ≡ some r)
    × (r.file ≡ one_record.0)
    × IsAt 36 r [] (first ∷ [])
    × (r.streaming_read_offset ≡ 0)
reader = open_file-Holds 36 7 one_record.0 (first ∷ []) (rw push-first at one_record.2)

read-next_example :
    (r' : Ringfile) × (read 40 reader.0 ≡ done (r', some first)) × IsAt 36 r' (first ∷ []) []
read-next_example = read-next 36 40 reader.0 [] first [] reader.3 (omega arith) (omega arith)
