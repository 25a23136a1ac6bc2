-- ===== src/Lint/Process/Config.antt =====
-- ProcessConfigOverrides of tools/cpplint.py, the globals that it changes, and how a function ends.
--
-- os.path.abspath, int, the matching of an expression of a configuration file and the contents of such
-- files are parameters; `none` is an exception of int or of the matching.
pub mod Ends
pub mod Keeps
use ringfile.Prelude.{
  ℕ, zero, suc, ◌+◌, Bool, true, false, not, ◌&&◌, ◌||◌, ◌==◌, Option, none, some, List, [], ◌∷◌,
  ◌++◌, Text, same, if◌then◌else◌, codes, reverse, length, map,
}
use ringfile.Prelude.Strings.{is_space, strip, rstrip, split, ends_with, one_of}
use ringfile.Lint.Paths.{path_split, path_join, split_last}
use ringfile.Lint.Report
use ringfile.Lint.Report.{Linter, Event, Report, report, perform, error}
use ringfile.Lint.FileChecks.{
  check_for_copyright, check_for_bad_characters, check_for_newline_at_eof,
}
use ringfile.Lint.FileChecks.Guard.{check_for_header_guard}
use ringfile.Lint.Comments.{remove_multi_line_comments}
use ringfile.Lint.Cleanse.{CleansedLines, cleanse}

-- How a function ends: it returns, raises an exception, or a loop in it has used up its fuel.
pub data Ending {ℓ} (A : Type ℓ) : Type ℓ where
  returned : A → Ending A
  raised : Ending A
  unfinished : Ending A

infixl 5 ◌>>=◌
abbrev pub ◌>>=◌ {ℓ κ} : {A : Type ℓ} {B : Type κ} → Ending A → (A → Ending B) → Ending B
returned a >>= f = f a
raised >>= f = raised
unfinished >>= f = unfinished

-- A result that is missing is an exception, ...
abbrev pub or_raise {ℓ} : {A : Type ℓ} → Option A → Ending A
or_raise none = raised
or_raise (some a) = returned a

-- ... or a loop that has not ended.
abbrev pub or_unfinished {ℓ} : {A : Type ℓ} → Option A → Ending A
or_unfinished none = unfinished
or_unfinished (some a) = returned a

-- What is at a path: no file, one that cannot be opened, or the lines of one.
pub data Contents : Type 0 where
  no_file unreadable : Contents
  text_lines : List Text → Contents

-- The globals of the module; N stands for Python's integers.
pub record Globals (N : Type 0) : Type 0 where
  pub linter : Linter
  pub line_length : N
  pub valid_extensions : List Text

-- s.partition(c), without the separator
unfoldable pub partition : ℕ → Text → Text × Text
partition c [] = ([], [])
partition c (x ∷ s) = let (w, rest) = partition c s in if x == c then ([], s) else (x ∷ w, rest)

-- The variables of ProcessConfigOverrides that its lines change.
pub record Config : Type 0 where
  pub cfg_filters : List Text
  pub keep_looking : Bool

abbrev pub say : {N : Type 0} → Text → Globals N → Globals N
say message g = record g { linter = record g.linter { stderr = g.linter.stderr ++ message ∷ [] } }

-- _line_length = int(val), where that is a number
abbrev pub set_line_length : {N : Type 0} → Option N → Globals N → Globals N
set_line_length none g = say (codes "Line length must be numeric.") g
set_line_length (some n) g = record g { line_length = n }

-- The calls of Error; an assertion that fails is an exception too.
abbrev pub perform_all : {N : Type 0} → List Event → Globals N → Ending (Globals N)
perform_all events g =
    or_raise (perform events g.linter) >>= λ l. returned (record g { linter = l })

module _ {N : Type 0} (abspath : Text → Text) (int : Text → Option N)
    (match : Text → Text → Option Bool) (config_file : Text → Contents) where
  -- The option exclude_files
  unfoldable pub exclude :
      Text → Text → Text → Text → Globals N × Config → Ending ((Globals N × Config) × Bool)
  exclude filename cfg_file base_name val (g, c) =
      if same base_name []
      then returned ((g, c), true)
      else (or_raise (match val base_name) >>= λ excluded.
          if excluded
          then returned (
            (
              say
                  (codes "Ignoring \""
                    ++ filename
                    ++ codes "\": file excluded by \""
                    ++ cfg_file
                    ++ codes "\". File path component \""
                    ++ base_name
                    ++ codes "\" matches pattern \""
                    ++ val
                    ++ codes "\"\n")
                  g,
              c,
            ),
            false,
          )
          else returned ((g, c), true))

  -- One line of a configuration file; `false` is the result that excludes the file.
  unfoldable pub config_line :
      Text → Text → Text → Text → Globals N × Config → Ending ((Globals N × Config) × Bool)
  unfolding partition strip is_space
  config_line filename cfg_file base_name line (g, c) =
      let text = (partition b'#' line).0 in
      let name = strip is_space (partition b'=' text).0 in
      let val = strip is_space (partition b'=' text).1 in
      if same (strip is_space text) []
      then returned ((g, c), true)
      else if same name (codes "set noparent")
      then returned ((g, record c { keep_looking = false }), true)
      else if same name (codes "filter")
      then returned ((g, record c { cfg_filters = c.cfg_filters ++ val ∷ [] }), true)
      else if same name (codes "exclude_files")
      then exclude filename cfg_file base_name val (g, c)
      else if same name (codes "linelength")
      then returned ((set_line_length (int val) g, c), true)
      else returned (
        (
          say
              (codes "Invalid configuration option ("
                ++ name
                ++ codes ") in file "
                ++ cfg_file
                ++ codes "\n")
              g,
          c,
        ),
        true,
      )

  unfoldable pub config_lines :
      Text → Text → Text → List Text → Globals N × Config → Ending ((Globals N × Config) × Bool)
  config_lines filename cfg_file base_name [] s = returned (s, true)
  config_lines filename cfg_file base_name (line ∷ lines) s =
      config_line filename cfg_file base_name line s >>= λ (s', ok).
      if ok then config_lines filename cfg_file base_name lines s' else returned (s', false)

  -- The loop over the directories of the file.
  unfoldable pub config_loop :
      ℕ → Text → Text → Globals N × Config → Ending ((Globals N × Config) × Bool)
  config_loop zero filename abs_filename s = unfinished
  config_loop (suc fuel) filename abs_filename s =
      let abs_path = (path_split abs_filename).0 in
      let base_name = (path_split abs_filename).1 in
      let cfg_file = path_join abs_path (codes "CPPLINT.cfg") in
      let on = config_loop fuel filename abs_path in
      if same base_name [] then returned (s, true) else elim (config_file cfg_file) [
        | no_file ↦ on s
        | unreadable ↦ returned (
          (
            say (codes "Skipping config file '" ++ cfg_file ++ codes "': Can't open for reading\n")
                s.0,
            record s.1 { keep_looking = false },
          ),
          true,
        )
        | text_lines lines ↦ config_lines filename cfg_file base_name lines s >>= λ (s', ok).
            if ok && s'.1.keep_looking then on s' else returned (s', ok)
      ]

  -- `for filter in reversed(cfg_filters)`, on the filters in that order
  unfoldable pub apply_filters : List Text → Globals N → Ending (Globals N)
  apply_filters [] g = returned g
  apply_filters (f ∷ filters) g =
      let (l, unsigned) = Report.add_filters f g.linter in
      let rest = apply_filters filters (record g { linter = l }) in
      elim unsigned [ none ↦ rest | some t ↦ raised ]

  -- ProcessConfigOverrides. A round of the loop leaves a shorter path.
  unfoldable pub process_config_overrides : Text → Globals N → Ending (Globals N × Bool)
  process_config_overrides filename g =
      let path = abspath filename in
      config_loop (suc (length path)) filename path
        (g, record { cfg_filters = []; keep_looking = true })
      >>= λ (s, ok).
          if ok
          then (apply_filters (reverse s.1.cfg_filters) s.0 >>= λ g'. returned (g', true))
          else returned (s.0, false)
