-- ===== src/RingFile/Streaming/Runs.antt =====
-- Runs of the streaming operations, in a file of 60 bytes, which has 36 for records.
use ringfile.Prelude.{ℕ, ◌≡◌, refl, true, some, List, [], ◌∷◌, arith, codes, length}
use mathlib.Core.Path.{subst}
use ringfile.Varint
use ringfile.Storage.{done}
use ringfile.RingFile.{Ringfile, create, open_file}
use ringfile.RingFile.Records.{Holds, encode, total}
use ringfile.RingFile.Kept.{evict}
use ringfile.RingFile.Writing.{push}
use ringfile.RingFile.Position.{IsAt}
use ringfile.RingFile.Reading.{create-Holds, open_file-Holds}
use ringfile.RingFile.Streaming.{streaming_read_start}
use ringfile.RingFile.Streaming.Writes.{concat, stream, stream-push}
use ringfile.RingFile.Streaming.Reads.{read_pieces, streaming_read-record}

abbrev pieces : List (List ℕ)
pieces = codes "a rec" ∷ codes "ord in" ∷ codes " pieces" ∷ []

length-pieces : length (encode (concat pieces)) ≡ 19
unfolding encode concat Varint.write Varint.write_from Varint.less_exp2
length-pieces = refl

total-pieces : total (push 36 (concat pieces) []) ≡ 19
unfolding encode concat push evict total Varint.write Varint.write_from Varint.less_exp2
total-pieces = refl

no_offset : (create 7 60).streaming_write_offset ≡ 0
unfolding create
no_offset = refl

stream-push_example :
    (r' : Ringfile) × (stream pieces (create 7 60) ≡ done (r', true))
    × Holds 36 r'.file (push 36 (concat pieces) [])
    × (r'.streaming_write_offset ≡ 0)
stream-push_example =
    stream-push 36 pieces (create 7 60) [] (create-Holds 7 60 (omega arith) (omega arith)) no_offset
      (ground arith) (omega (arith, length-pieces)) (omega (arith, total-pieces))

push-pieces : push 36 (concat pieces) [] ≡ codes "a record in pieces" ∷ []
unfolding push evict concat
push-pieces = refl

-- a file with the record, as the streaming operations leave it
streamed : (r : Ringfile) × Holds 36 r.file (codes "a record in pieces" ∷ [])
streamed =
    let s =
      stream-push 36 pieces (create 7 60) [] (create-Holds 7 60 (omega arith) (omega arith))
        no_offset (ground arith) (omega (arith, length-pieces)) (omega (arith, total-pieces)) in
    (s.0, subst (Holds 36 s.0.file) push-pieces s.2)

reader :
    (r : Ringfile) × (open_file 7 streamed.0.file ≡ some r)
    × (r.file ≡ streamed.0.file)
    × IsAt 36 r [] (codes "a record in pieces" ∷ [])
    × (r.streaming_read_offset ≡ 0)
reader = open_file-Holds 36 7 streamed.0.file (codes "a record in pieces" ∷ []) streamed.1

streaming_read-record_example :
    (r' : Ringfile) × (r'' : Ringfile) × (streaming_read_start reader.0 ≡ done (r', some 18))
    × IsAt 36 r' (codes "a record in pieces" ∷ []) []
    × (read_pieces 19 5 r' ≡ done (r'', some (codes "a record in pieces")))
streaming_read-record_example =
    streaming_read-record 36 5 reader.0 [] (codes "a record in pieces") [] reader.3 reader.4
      (omega arith)
