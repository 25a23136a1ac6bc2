-- ===== src/Lint/Program.antt =====
-- ParseArguments, PrintUsage, PrintCategories and main of tools/cpplint.py, and the checks of lines and of
-- includes as ProcessFileData makes them.
--
-- The loops of RepositoryName get `rounds` rounds, and os.path.exists is the parameter `exists`;
-- `strip_root` is the substitution that the flag --root stands for. What getopt.getopt and int do with
-- texts is a parameter: `none` is GetoptError and ValueError. A
-- verbosity or a length below 0 is not modelled. set(val.split(',')) is the list of its elements.
pub mod Ends
pub mod Options
pub mod Silent
mod Runs
use ringfile.Prelude.{
  ℕ, zero, suc, ◌+◌, Bool, true, false, not, ltb, Option, none, some, List, [], ◌∷◌, ◌++◌, Text,
  same, if◌then◌else◌, codes,
}
use mathlib.Core.Option
use ringfile.Prelude.Strings.{split, one_of}
use ringfile.Lint.Report
use ringfile.Lint.Report.{Linter, Event, print_error_counts}
use ringfile.Lint.FileName
use ringfile.Lint.FileChecks.Guard.{get_header_guard_cpp_variable}
use ringfile.Lint.State.{Counts, reset_error_counts}
use ringfile.Lint.Cleanse.{CleansedLines}
use ringfile.Lint.Include.{Entry}
use ringfile.Lint.Lines.{Limits, process_all}
use ringfile.Lint.RequiredIncludes.{Required, check_for_include_what_you_use}
use ringfile.Lint.Process.Config.{
  Ending, returned, raised, unfinished, ◌>>=◌, or_raise, Contents, Globals,
}
use ringfile.Lint.Process.{process_file}

-- How the program ends: PrintUsage with its message, PrintCategories, an exception, sys.exit with the
-- test for errors, or a loop that does not end.
pub data Exit : Type 0 where
  usage : Option Text → Exit
  categories uncaught endless : Exit
  status : Bool → Linter → Exit

-- What ParseArguments goes on with, or the end of the program
pub data Parsed {ℓ} (A : Type ℓ) : Type ℓ where
  parsed : A → Parsed A
  exits : Exit → Parsed A

-- The variables of ParseArguments, and the globals that it changes on the way.
pub record Arguments : Type 0 where
  pub verbosity : ℕ
  pub output_format : Text
  pub filters : Text
  pub counting_style : Text
  pub root : Option Text
  pub line_length : ℕ
  pub valid_extensions : List Text

abbrev pub no_files : List Text → Bool
no_files [] = true
no_files (t ∷ ts) = false

-- int(val), or what an exception leads to
abbrev pub number_or {ℓ} : {A : Type ℓ} → Exit → Option ℕ → (ℕ → A) → Parsed A
number_or e none f = exits e
number_or e (some n) f = parsed (f n)

module _ (int : Text → Option ℕ) where
  -- One round of the loop over the options
  unfoldable pub parse_option : Text → Text → Arguments → Parsed Arguments
  parse_option opt val a =
      if same opt (codes "--help")
      then exits (usage none)
      else if same opt (codes "--output")
      then (if one_of val (codes "emacs" ∷ codes "vs7" ∷ codes "eclipse" ∷ [])
          then parsed (record a { output_format = val })
          else exits
              (usage (some (codes "The only allowed output formats are emacs, vs7 and eclipse."))))
      else if same opt (codes "--verbose")
      then number_or uncaught (int val) (λ n. record a { verbosity = n })
      else if same opt (codes "--filter")
      then (if same val [] then exits categories else parsed (record a { filters = val }))
      else if same opt (codes "--counting")
      then (if one_of val (codes "total" ∷ codes "toplevel" ∷ codes "detailed" ∷ [])
          then parsed (record a { counting_style = val })
          else exits
              (usage (some (codes "Valid counting options are total, toplevel, and detailed"))))
      else if same opt (codes "--root")
      then parsed (record a { root = some val })
      else if same opt (codes "--linelength")
      then number_or (usage (some (codes "Line length must be digits."))) (int val)
          (λ n. record a { line_length = n })
      else if same opt (codes "--extensions")
      then parsed (record a { valid_extensions = split b',' val })
      else parsed a

  unfoldable pub parse_options : List (Text × Text) → Arguments → Parsed Arguments
  unfolding parse_option
  parse_options [] a = parsed a
  parse_options ((opt, val) ∷ opts) a = elim (parse_option opt val a) [
    | parsed a' ↦ parse_options opts a'
    | exits e ↦ exits e
  ]

  -- The settings of ParseArguments behind its loop
  unfoldable pub set_arguments : Arguments → Globals ℕ → Parsed (Globals ℕ)
  set_arguments a g =
      let l = Report.set_output_format a.output_format g.linter in
      let (l', unsigned) =
        Report.set_filters a.filters (Report.set_verbose_level a.verbosity l).0 in
      let g' : Globals ℕ = record {
        linter = Report.set_counting_style a.counting_style l';
        line_length = a.line_length;
        valid_extensions = a.valid_extensions;
      } in
      elim unsigned [ none ↦ parsed g' | some t ↦ exits uncaught ]

  -- The globals as the variables begin
  unfoldable pub arguments_of : Option Text → Globals ℕ → Arguments
  arguments_of root g = record {
    verbosity = Report.verbose_level g.linter;
    output_format = Report.output_format g.linter;
    filters = [];
    counting_style = [];
    root = root;
    line_length = g.line_length;
    valid_extensions = g.valid_extensions;
  }

  -- ParseArguments: the names of files, _root, and the other globals
  unfoldable pub parse_arguments :
      Option (List (Text × Text) × List Text)
      → Option Text
      → Globals ℕ
      → Parsed (List Text × Option Text × Globals ℕ)
  unfolding parse_options set_arguments arguments_of
  parse_arguments none root g = exits (usage (some (codes "Invalid arguments.")))
  parse_arguments (some (opts, filenames)) root g =
      elim (parse_options opts (arguments_of root g)) [
        | exits e ↦ exits e
        | parsed a ↦
            if no_files filenames
            then exits (usage (some (codes "No files were specified.")))
            else elim (set_arguments a g) [
              | exits e ↦ exits e
              | parsed g' ↦ parsed (filenames, a.root, g')
            ]
      ]

-- GetHeaderGuardCPPVariable, with the RepositoryName of the file system and the flag --root
unfoldable pub header_variable :
    (Text → Bool)
    → ℕ
    → (Text → Text)
    → (Option Text → Text → Text)
    → Option Text
    → Text
    → Option Text
unfolding get_header_guard_cpp_variable
header_variable exists rounds abspath strip_root root =
    get_header_guard_cpp_variable (FileName.repository_name abspath exists rounds) (strip_root root)

module _ (normalize : Text → Text) (is_wide is_combining : ℕ → Bool) (exists : Text → Bool)
    (rounds : ℕ) (abspath : Text → Text) (header_lines : Text → Option (List Text))
    (header_keys : List Entry → List Text) (items : Required → Required) where
  -- What ProcessFileData reports of the lines and the includes; `none` is an exception, or a loop
  -- of the checks out of rounds.
  unfoldable pub file_events : Text → ℕ → ℕ → Text → Text → CleansedLines → Option (List Event)
  unfolding process_all check_for_include_what_you_use
  file_events cppvar line_length verbose_level filename file_extension clean_lines =
      Option.map
        (λ (s, events).
          events
          ++ check_for_include_what_you_use abspath header_lines header_keys items filename
              clean_lines s.includes)
        (process_all normalize is_wide is_combining cppvar
          (FileName.repository_name abspath exists rounds)
          (record { verbose_level = verbose_level; line_length = line_length }) filename
          file_extension clean_lines)

  module _ (int : Text → Option ℕ) (match : Text → Text → Option Bool)
      (config_file : Text → Contents) (strip_root : Option Text → Text → Text)
      (read_file : Text → Option Text) where
    -- The loop over the files of main
    unfoldable pub process_files : Option Text → List Text → Globals ℕ → Ending (Globals ℕ)
    unfolding file_events header_variable
    process_files root [] g = returned g
    process_files root (filename ∷ filenames) g =
        process_file abspath int match config_file
          (header_variable exists rounds abspath strip_root root) file_events read_file filename
          g.linter.state.verbose_level g
        >>= process_files root filenames

    -- How main ends after the loop; the order of the dict of the counts is a parameter.
    unfoldable pub end_of_main : (Counts → Counts) → Ending (Globals ℕ) → Exit
    end_of_main iteritems raised = uncaught
    end_of_main iteritems unfinished = endless
    end_of_main iteritems (returned g) =
        status (ltb 0 g.linter.state.error_count) (print_error_counts iteritems g.linter)

    -- main, from the result of getopt
    unfoldable pub main :
        (Counts → Counts) → Option (List (Text × Text) × List Text) → Option Text → Globals ℕ → Exit
    unfolding process_files end_of_main
    main iteritems options root g = elim (parse_arguments int options root g) [
      | exits e ↦ e
      | parsed (filenames, root', g') ↦ end_of_main iteritems (
          process_files root' filenames (record g' {
            linter = record g'.linter { state = reset_error_counts g'.linter.state };
          }))
    ]
