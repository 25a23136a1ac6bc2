-- ===== src/Command.antt =====
-- class Command of src/command.cc: reading all the records of a file, appending lines to it,
-- and its numbers.
--
-- A file that may be missing is an option. What the programs print on the error stream is left out.
pub mod RoundTrip
pub mod Parse
mod Runs
use ringfile.Prelude.{
  ℕ, zero, suc, Bool, true, false, not, Option, none, some, List, [], ◌∷◌, if◌then◌else◌,
}
use ringfile.Storage.{Outcome, done, stuck, ◌>>=◌}
use ringfile.RingFile.{
  File, Ringfile, bytes_max, bytes_used, bytes_available, create, open_file, next_record_size, read,
  write,
}

-- What follows a result that may be missing.
abbrev pub if_some {ℓ κ} : {A : Type ℓ} {B : Type κ} → Option A → B → (A → B) → B
if_some none failed k = failed
if_some (some a) failed k = k a

-- The records that are printed before the others.
abbrev pub print : List ℕ → List (List ℕ) × Bool → List (List ℕ) × Bool
print record' (records, ok) = (record' ∷ records, ok)

-- The loop of Read: the records that it prints, and its result.
unfoldable pub read_loop : ℕ → Ringfile → Outcome (List (List ℕ) × Bool)
read_loop zero r = stuck
read_loop (suc fuel) r = next_record_size r >>= λ next. if_some next (done ([], true)) (λ size.
    read size r >>= λ (r', bytes).
    let rest = read_loop fuel r' in
    if_some bytes (done ([], false)) (λ record'. rest >>= λ printed. done (print record' printed)))

-- Read: every record that a file can hold takes a byte at least, so that many rounds are enough.
unfoldable pub command_read : ℕ → Option File → Outcome (List (List ℕ) × Bool)
command_read junk file =
    if_some file (done ([], false))
      (λ f. if_some (open_file junk f) (done ([], false)) (λ r. read_loop (suc (bytes_max f)) r))

-- The loop of Write: every line is a record.
unfoldable pub write_loop : List (List ℕ) → File → Outcome (File × Bool)
write_loop [] f = done (f, true)
write_loop (line ∷ lines) f = write line f >>= λ (f', ok).
    let rest = write_loop lines f' in if not ok then done (f', false) else rest

-- Write, with the size of the option --size; a missing size is -1.
unfoldable pub command_write :
    ℕ → Option ℕ → Option File → List (List ℕ) → Outcome (Option File × Bool)
command_write junk size file lines =
    if_some file
      (if_some size (done (none, false))
        (λ n. write_loop lines (create junk n).file >>= λ (f, ok). done (some f, ok)))
      (λ f.
        if_some (open_file junk f) (done (some f, false))
          (λ r. write_loop lines r.file >>= λ (f', ok). done (some f', ok)))

-- Stat: the size, the bytes that are used and those that are free; `none` is false.
unfoldable pub command_stat : ℕ → Option File → Option (ℕ × ℕ × ℕ)
command_stat junk file = if_some file none (λ f.
    if_some (open_file junk f) none
      (λ r. some (bytes_max r.file, bytes_used r.file, bytes_available r.file)))
