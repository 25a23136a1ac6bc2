-- ===== src/Command/Parse.antt =====
-- Parse and Main of class Command of src/command.cc.
--
-- What getopt_long returns is a parameter: the options in their order, with their arguments, and the
-- arguments that are left. So is strtol, with the text behind the number: `none` sets errno, and 0 stands
-- for every number that is not positive. A long has 64 bits, and the size is the word that stands for it,
-- as Create takes it: the product with the factor of a unit is not checked, and wraps. The value of `ok`
-- in Main where no mode is set is undefined behaviour, `stuck`.
pub mod Ready
mod Runs
use ringfile.Prelude.{
  ℕ, ◌*◌, ◌^◌, ◌%◌, ◌==◌, Bool, true, false, ◌||◌, Option, none, some, List, [], ◌∷◌, ◌++◌, Text,
  same, if◌then◌else◌, codes,
}
use ringfile.Storage.{Outcome, done, refused, overrun, stuck, ◌>>=◌}
use ringfile.RingFile.{File}
use ringfile.Command.{command_read, command_write, command_stat}

pub data Mode : Type 0 where
  mode_unspecified mode_read mode_stat mode_append : Mode

-- An option that getopt_long returns, and optarg.
pub record Opt : Type 0 where
  pub option : ℕ
  pub optarg : Text

-- The fields that Parse sets, and what it prints on the error stream. A missing size is -1.
pub record Settings : Type 0 where
  pub mode : Mode
  pub verbose : Bool
  pub size : Option ℕ
  pub path : Text
  pub stderr : List Text

abbrev pub is_unspecified : Mode → Bool
is_unspecified mode_unspecified = true
is_unspecified mode = false

-- A message, and the result false
abbrev pub fails : Text → Settings → Settings × Option Bool
fails message s = (record s { stderr = s.stderr ++ message ∷ [] }, some false)

-- The factor that a unit stands for
unfoldable pub factor_of : Text → Option ℕ
factor_of units =
    if same units [] || same units (codes "b") || same units (codes "B")
    then some 1
    else if same units (codes "k") || same units (codes "K")
    then some 1024
    else if same units (codes "m") || same units (codes "M")
    then some (1024 * 1024)
    else if same units (codes "g") || same units (codes "G")
    then some (1024 * 1024 * 1024)
    else none

-- size *= factor, in 64 bits
abbrev pub scaled : Text → ℕ → Option ℕ → Settings → Outcome (Settings × Option Bool)
scaled program n none s =
    done (fails (program ++ codes ": invalid size\n") (record s { size = some n }))
scaled program n (some factor) s = done (record s { size = some (n * factor % 2 ^ 64) }, none)

-- The option --size
abbrev pub sized : Text → Option (ℕ × Text) → Settings → Outcome (Settings × Option Bool)
sized program none s = done (fails (program ++ codes ": invalid size\n") s)
sized program (some (n, units)) s =
    if n == 0
    then done (fails (program ++ codes ": invalid size\n") s)
    else scaled program n (factor_of units) s

-- A mode option
abbrev pub with_mode : Text → Mode → Settings → Outcome (Settings × Option Bool)
with_mode program mode s =
    if is_unspecified s.mode
    then done (record s { mode = mode }, none)
    else done (fails (program ++ codes ": cannot specify more than one mode option\n") s)

module _ (strtol : Text → Option (ℕ × Text)) where
  -- One round of the loop: the result of Parse, or none where the loop goes on.
  unfoldable pub parse_opt : Text → Opt → Settings → Outcome (Settings × Option Bool)
  unfolding factor_of
  parse_opt program o s =
      if o.option == b'h'
      then done (
        record s {
          stderr = s.stderr ++ (codes "usage: " ++ program ++ codes " [-hvSas] [file]\n") ∷ [];
        },
        some true,
      )
      else if o.option == b'v'
      then done (record s { verbose = true }, none)
      else if o.option == b'S'
      then with_mode program mode_stat s
      else if o.option == b'r'
      then with_mode program mode_read s
      else if o.option == b'a'
      then with_mode program mode_append s
      else if o.option == b's'
      then sized program (strtol o.optarg) s
      else done (fails (program ++ codes ": invalid option\n") s)

  -- The loop
  unfoldable pub parse_opts : Text → List Opt → Settings → Outcome (Settings × Option Bool)
  unfolding parse_opt
  parse_opts program [] s = done (s, none)
  parse_opts program (o ∷ opts) s = elim (parse_opt program o s) [
    | done (s', r) ↦ elim r [ none ↦ parse_opts program opts s' | some b ↦ done (s', some b) ]
    | refused ↦ refused
    | overrun ↦ overrun
    | stuck ↦ stuck
  ]

  -- What follows the loop, with the arguments that are left.
  unfoldable pub take_path : Text → List Text → Settings → Settings × Bool
  take_path program [] s =
      (record s { stderr = s.stderr ++ (program ++ codes ": missing file argument\n") ∷ [] }, false)
  take_path program (path ∷ []) s =
      (record s { mode = if is_unspecified s.mode then mode_read else s.mode; path = path }, true)
  take_path program (path ∷ (other ∷ args)) s = (
    record s { stderr = s.stderr ++ (program ++ codes ": too many file arguments\n") ∷ [] },
    false,
  )

  unfoldable pub parse : Text → List Opt → List Text → Settings → Outcome (Settings × Bool)
  unfolding parse_opts take_path
  parse program opts args s = parse_opts program opts s >>= λ (s', r). elim r [
    | none ↦ done (take_path program args s')
    | some b ↦ done (s', b)
  ]

-- 0 for success
abbrev pub exit_status : Bool → ℕ
exit_status ok = if ok then 0 else 1

-- The switch of Main, where `file` is what is at the path: the exit status and the file
unfoldable pub run_mode :
    ℕ → Mode → Option ℕ → Option File → List (List ℕ) → Outcome (ℕ × Option File)
run_mode junk mode_unspecified size file lines = stuck
run_mode junk mode_read size file lines =
    command_read junk file >>= λ (records, ok). done (exit_status ok, file)
run_mode junk mode_append size file lines =
    command_write junk size file lines >>= λ (file', ok). done (exit_status ok, file')
run_mode junk mode_stat size file lines =
    done (exit_status (elim (command_stat junk file) [ none ↦ false | some numbers ↦ true ]), file)

-- Main, with the lines of the input; what is at a path is `at`, and what is there afterwards is given.
unfoldable pub command_main :
    (Text → Option (ℕ × Text))
    → ℕ
    → (Text → Option File)
    → Text
    → List Opt
    → List Text
    → List (List ℕ)
    → Outcome (ℕ × Option File)
unfolding parse run_mode
command_main strtol junk at program opts args lines =
    parse strtol program opts args
      (record { mode = mode_unspecified; verbose = false; size = none; path = []; stderr = [] })
    >>= λ (s, ok). if ok then run_mode junk s.mode s.size (at s.path) lines else done (1, at s.path)
