-- ===== src/RingFile.antt =====
-- class Ringfile of src/ringfile.cc: a file with a header and a ring of records, each behind its size.
--
-- The system calls that open, size and map a file carry out what they are asked for. What a field
-- holds that the constructor does not set is the argument `junk`.
pub mod Records
pub mod Kept
pub mod Eviction
pub mod Pending
pub mod Writing
pub mod Position
pub mod Reading
pub mod Streaming
mod Runs
use ringfile.Prelude.{
  ℕ, zero, suc, ◌+◌, ◌-◌, ◌%◌, ◌==◌, Bool, true, false, not, ◌||◌, ltb, leb, Option, none, some,
  List, [], ◌∷◌, ◌++◌, if◌then◌else◌, length,
}
use ringfile.Prelude.Words.{add_u64, sub_u64}
use ringfile.Varint
use ringfile.Storage.{
  Outcome, done, refused, overrun, stuck, ◌>>=◌, Area, wrapping_read, wrapping_write,
}

-- sizeof(Header)
abbrev pub header_bytes : ℕ
header_bytes = 24

-- kMagic, the bytes RING
abbrev pub k_magic : ℕ
k_magic = 0x474e4952

-- A file: its size, its header and its data area.
pub record File : Type 0 where
  pub size : ℕ
  pub magic : ℕ
  pub flags : ℕ
  pub start_offset : ℕ
  pub end_offset : ℕ
  pub area : Area

pub record Ringfile : Type 0 where
  pub file : File
  pub is_open : Bool
  pub read_offset : ℕ
  pub streaming_write_offset : ℕ
  pub streaming_write_bytes_remaining : ℕ
  pub streaming_read_offset : ℕ
  pub streaming_read_bytes_remaining : ℕ

unfoldable pub bytes_max : File → ℕ
bytes_max f = sub_u64 f.size header_bytes

unfoldable pub bytes_used : File → ℕ
bytes_used f =
    if leb f.start_offset f.end_offset
    then f.end_offset - f.start_offset
    else sub_u64 (bytes_max f) (f.start_offset - f.end_offset)

unfoldable pub bytes_available : File → ℕ
bytes_available f = sub_u64 (bytes_max f) (bytes_used f)

-- An object with a file, as Create and Open leave it: `junk` is in the fields that are not set.
abbrev pub with_file : ℕ → ℕ → File → Ringfile
with_file junk read_offset f = record {
  file = f;
  is_open = true;
  read_offset = read_offset;
  streaming_write_offset = 0;
  streaming_write_bytes_remaining = junk;
  streaming_read_offset = 0;
  streaming_read_bytes_remaining = junk;
}

-- Create, of a file of zeros. The field read_offset_ is not set.
unfoldable pub create : ℕ → ℕ → Ringfile
create junk size = with_file junk junk (record {
  size = size;
  magic = k_magic;
  flags = 0;
  start_offset = 0;
  end_offset = 0;
  area = λ j. 0;
})

-- Open, of a file that exists; `none` is EINVAL.
unfoldable pub open_file : ℕ → File → Option Ringfile
open_file junk f = if f.magic == k_magic then some (with_file junk f.start_offset f) else none

-- Close
unfoldable pub close : Ringfile → Ringfile
close r = record r { is_open = false }

-- The result of a call that may not return.
abbrev pub or_stuck {ℓ} : {A : Type ℓ} → Option A → Outcome A
or_stuck none = stuck
or_stuck (some a) = done a

-- The size of the record at an offset, behind a number of bytes. `refused` is a read that fails.
unfoldable pub read_size : File → ℕ → Outcome (ℕ × ℕ)
read_size f offset = wrapping_read (bytes_max f) f.area offset Varint.max_size >>= λ header_buffer.
    or_stuck (Varint.read header_buffer)

-- What a caller does with a result: it returns false, or goes on.
abbrev pub or_false {ℓ κ} : {A : Type ℓ} {B : Type κ} → Outcome A → B → (A → Outcome B) → Outcome B
or_false (done a) failed k = k a
or_false refused failed k = done failed
or_false overrun failed k = overrun
or_false stuck failed k = stuck

-- The offset behind a record.
abbrev pub after_record : File → ℕ → ℕ → ℕ → ℕ
after_record f offset header_size value = add_u64 offset (add_u64 header_size value) % bytes_max f

-- PopRecord
unfoldable pub pop_record : File → Outcome (File × Bool)
pop_record f =
    if f.start_offset == f.end_offset
    then done (f, false)
    else or_false (read_size f f.start_offset) (f, false)
        (λ (header_size, value).
          done (record f { start_offset = after_record f f.start_offset header_size value }, true))

-- The loop that makes room: the assertion asks each round to gain a byte at least, so one round more
-- than there are bytes is enough.
unfoldable pub make_room : ℕ → ℕ → File → Outcome (File × Bool)
make_room zero need f = stuck
make_room (suc fuel) need f =
    let next = pop_record f >>= λ (f', popped).
    if not popped
    then done (f', false)
    else if ltb (bytes_available f) (bytes_available f')
    then make_room fuel need f'
    else stuck in
    if ltb (bytes_available f) need then next else done (f, true)

-- The beginning of Write and of StreamingWriteStart: the size is checked, room is made and the header
-- is written; the number is header_size.
unfoldable pub begin_record : ℕ → File → Outcome (File × Option ℕ)
begin_record size f = or_stuck (Varint.byte_size size) >>= λ header_size.
    if ltb (bytes_max f) (add_u64 (add_u64 header_size size) 1)
    then done (f, none)
    else make_room (suc (bytes_max f)) (add_u64 header_size size) f >>= λ (f', enough).
        if not enough
        then done (f', none)
        else or_false
            (wrapping_write (bytes_max f') f'.area f'.end_offset (Varint.write size) header_size)
            (f', none) (λ area. done (record f' { area = area }, some header_size))

-- What follows the header of a record, where it was written.
abbrev pub if_header {ℓ} : {A : Type ℓ} → Option ℕ → A → (ℕ → A) → A
if_header none failed k = failed
if_header (some header_size) failed k = k header_size

-- Write
unfoldable pub write : List ℕ → File → Outcome (File × Bool)
write bytes f = begin_record (length bytes) f >>= λ (f', header).
    if_header header (done (f', false)) (λ header_size.
      or_false
        (wrapping_write (bytes_max f') f'.area (add_u64 f'.end_offset header_size) bytes
          (length bytes))
        (f', false)
        (λ area. done (
          record f' {
            area = area;
            end_offset = after_record f' f'.end_offset header_size (length bytes);
          },
          true,
        )))

-- EndOfFile
unfoldable pub end_of_file : Ringfile → Bool
end_of_file r = r.read_offset == r.file.end_offset

-- NextRecordSize; `none` is false.
unfoldable pub next_record_size : Ringfile → Outcome (Option ℕ)
next_record_size r =
    if not r.is_open || end_of_file r
    then done none
    else or_false (read_size r.file r.read_offset) none (λ (header_size, value). done (some value))

-- Read, into a buffer of that size; `none` is false.
unfoldable pub read : ℕ → Ringfile → Outcome (Ringfile × Option (List ℕ))
read buffer_size r =
    if not r.is_open
    then done (r, none)
    else or_false (read_size r.file r.read_offset) (r, none)
        (λ (header_size, value).
          if ltb buffer_size value
          then done (r, none)
          else or_false
              (wrapping_read (bytes_max r.file) r.file.area (add_u64 r.read_offset header_size)
                value)
              (r, none)
              (λ bytes. done (
                record r { read_offset = after_record r.file r.read_offset header_size value },
                some bytes,
              )))
