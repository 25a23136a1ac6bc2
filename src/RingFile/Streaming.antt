-- ===== src/RingFile/Streaming.antt =====
-- The operations of class Ringfile of src/ringfile.cc that write and read a record in pieces.
pub mod Writes
pub mod Reads
mod Runs
use ringfile.Prelude.{
  ℕ, ◌-◌, ◌%◌, ◌==◌, ◌^◌, Bool, true, false, not, ltb, Option, none, some, List, [], if◌then◌else◌,
  length,
}
use ringfile.Prelude.Words.{add_u64}
use ringfile.Storage.{Outcome, done, stuck, ◌>>=◌, wrapping_read, wrapping_write}
use ringfile.RingFile.{
  Ringfile, bytes_max, begin_record, if_header, or_false, read_size, end_of_file, after_record,
}

-- StreamingWriteStart
unfoldable pub streaming_write_start : ℕ → Ringfile → Outcome (Ringfile × Bool)
streaming_write_start size r =
    if not (r.streaming_write_offset == 0)
    then stuck
    else begin_record size r.file >>= λ (f', header).
        if_header header (done (record r { file = f' }, false)) (λ header_size. done (
          record r {
            file = f';
            streaming_write_offset = add_u64 f'.end_offset header_size;
            streaming_write_bytes_remaining = size;
          },
          true,
        ))

-- StreamingWrite
unfoldable pub streaming_write : List ℕ → Ringfile → Outcome (Ringfile × Bool)
streaming_write bytes r =
    if ltb r.streaming_write_bytes_remaining (length bytes)
    then stuck
    else or_false
        (wrapping_write (bytes_max r.file) r.file.area r.streaming_write_offset bytes
          (length bytes))
        (r, false)
        (λ area. done (
          record r {
            file = record r.file { area = area };
            streaming_write_offset = add_u64 r.streaming_write_offset (length bytes);
            streaming_write_bytes_remaining = r.streaming_write_bytes_remaining - length bytes;
          },
          true,
        ))

-- StreamingWriteFinish
unfoldable pub streaming_write_finish : Ringfile → Outcome (Ringfile × Bool)
streaming_write_finish r =
    if not (r.streaming_write_bytes_remaining == 0)
    then stuck
    else done (
      record r {
        file = record r.file { end_offset = r.streaming_write_offset % bytes_max r.file };
        streaming_write_offset = 0;
      },
      true,
    )

-- StreamingReadStart; `none` is -1.
unfoldable pub streaming_read_start : Ringfile → Outcome (Ringfile × Option ℕ)
streaming_read_start r =
    if not r.is_open
    then stuck
    else if not (r.streaming_read_offset == 0)
    then stuck
    else if end_of_file r
    then done (r, none)
    else or_false (read_size r.file r.read_offset) (r, none)
        (λ (header_size, value). done (
          record r {
            streaming_read_offset = add_u64 r.read_offset header_size;
            streaming_read_bytes_remaining = value;
            read_offset = after_record r.file r.read_offset header_size value;
          },
          some value,
        ))

-- StreamingRead: the bytes that are put into the buffer, as many as it returns; `none` is -1.
unfoldable pub streaming_read : ℕ → Ringfile → Outcome (Ringfile × Option (List ℕ))
streaming_read buffer_size r =
    let remaining = r.streaming_read_bytes_remaining in
    let size = if ltb remaining buffer_size then remaining else buffer_size in
    if size == 0
    then done (r, some [])
    else or_false (wrapping_read (bytes_max r.file) r.file.area r.streaming_read_offset size)
        (r, none)
        (λ bytes. done (
          record r {
            streaming_read_offset = add_u64 r.streaming_read_offset size;
            streaming_read_bytes_remaining = remaining - size;
          },
          some bytes,
        ))

-- StreamingReadFinish
unfoldable pub streaming_read_finish : Ringfile → Ringfile
streaming_read_finish r = record r { streaming_read_offset = 0 }
