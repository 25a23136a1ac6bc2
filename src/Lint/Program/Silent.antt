-- ===== src/Lint/Program/Silent.antt =====
-- main at a verbosity above 5, the highest confidence of a report.
use ringfile.Prelude.{
  ℕ, ◌<◌, ◌≡◌, refl, sym, ◌∙◌, Bool, false, Option, some, List, [], ◌∷◌, Text, arith,
}
use mathlib.Core.Path.{subst}
use ringfile.Lint.State.{Counts, reset_error_counts}
use ringfile.Lint.Conditions.{append-IsSound}
use ringfile.Lint.Cleanse.{CleansedLines}
use ringfile.Lint.Include.{Entry}
use ringfile.Lint.Outcomes.{IsSoundOption, IsSoundResult-some, map-IsSoundOption}
use ringfile.Lint.Lines.Sound.{process_all-IsSound}
use ringfile.Lint.RequiredIncludes.{Required}
use ringfile.Lint.RequiredIncludes.Sound.{what_you_use-IsSound}
use ringfile.Lint.Process.Config.{Ending, returned, raised, unfinished, Contents, Globals}
use ringfile.Lint.FileName.{repository_name}
use ringfile.Lint.Process.Config.Ends.{Ends, Ends-bind}
use ringfile.Lint.Process.{process_file}
use ringfile.Lint.Process.Silent.{process_file-error_count}
use ringfile.Lint.Program.Ends.{header_variable-known}
use ringfile.Lint.Program.{
  header_variable, Exit, usage, categories, uncaught, endless, status, parsed, parse_arguments,
  file_events, process_files, end_of_main, main,
}

-- The verbosity, and the count of errors
abbrev IsQuiet : ℕ → Globals ℕ → Type 0
IsQuiet n g = (5 < g.linter.state.verbose_level) × (g.linter.state.error_count ≡ n)

-- An exception ends the program, or the test for errors, which fails.
abbrev pub IsClean : Exit → Type 0
IsClean (usage message) = ⊥
IsClean categories = ⊥
IsClean uncaught = Unit
IsClean endless = ⊥
IsClean (status b l) = b ≡ false

module _ (normalize : Text → Text) (is_wide is_combining : ℕ → Bool) (exists : Text → Bool)
    (rounds : ℕ) (abspath : Text → Text) (header_lines : Text → Option (List Text))
    (header_keys : List Entry → List Text) (items : Required → Required) where
  file_events-IsSound :
      (cppvar : Text) (line_length verbose : ℕ) (filename extension : Text)
      (clean_lines : CleansedLines)
      → IsSoundOption filename (
          file_events normalize is_wide is_combining exists rounds abspath header_lines header_keys
            items cppvar line_length verbose filename extension clean_lines)
  unfolding file_events
  file_events-IsSound cppvar line_length verbose filename extension clean_lines =
      let lines =
        process_all-IsSound normalize is_wide is_combining cppvar
          (repository_name abspath exists rounds)
          (record { verbose_level = verbose; line_length = line_length }) filename extension
          clean_lines in
      map-IsSoundOption filename _ _ λ (s, events) e.
        append-IsSound filename events _ (IsSoundResult-some filename _ lines e) (
          what_you_use-IsSound abspath header_lines header_keys items filename clean_lines
            s.includes)

  module _ (int : Text → Option ℕ) (match : Text → Text → Option Bool)
      (config_file : Text → Contents) (strip_root : Option Text → Text → Text)
      (read_file : Text → Option Text)
      (known : (f : Text)
        → (name : Text) × (repository_name abspath exists rounds f ≡ some name)) where
    process_files-IsQuiet :
        (root : Option Text) (filenames : List Text) (n : ℕ) (g : Globals ℕ)
        → IsQuiet n g
        → Ends (IsQuiet n) (
            process_files normalize is_wide is_combining exists rounds abspath header_lines
              header_keys items int match config_file strip_root read_file root filenames g)
    unfolding process_files
    process_files-IsQuiet root [] n g h = h
    process_files-IsQuiet root (filename ∷ filenames) n g h =
        let events =
          file_events normalize is_wide is_combining exists rounds abspath header_lines header_keys
            items in
        let level = g.linter.state.verbose_level in
        Ends-bind
          (λ g'.
            (g'.linter.state.verbose_level ≡ level)
            × (g'.linter.state.error_count ≡ g.linter.state.error_count))
          (IsQuiet n)
          (process_file abspath int match config_file
            (header_variable exists rounds abspath strip_root root) events read_file filename level
            g)
          _
          (process_file-error_count abspath int match config_file
            (header_variable exists rounds abspath strip_root root) events read_file
            (header_variable-known exists rounds abspath strip_root root known) file_events-IsSound
            filename level g h.0)
          (λ g' k.
            process_files-IsQuiet root filenames n g' (subst (λ l. 5 < l) (sym k.0) h.0, k.1 ∙ h.1))

    end_of_main-IsClean :
        (iteritems : Counts → Counts) (e : Ending (Globals ℕ))
        → Ends (IsQuiet 0) e
        → IsClean (
            end_of_main normalize is_wide is_combining exists rounds abspath header_lines
              header_keys items int match config_file strip_root read_file iteritems e)
    unfolding end_of_main
    end_of_main-IsClean iteritems (returned g) h = ground (arith, h.1)
    end_of_main-IsClean iteritems raised h = tt
    end_of_main-IsClean iteritems unfinished h = h

    -- Where ParseArguments goes on with a verbosity above 5 and RepositoryName ends for every name, main
    -- ends, and unless an exception ends it, as which a loop of the checks of lines that runs out of rounds
    -- counts, the exit status says that there are no errors: whatever the files, the headers and the configuration
    -- files say.
    pub main-IsClean :
        (iteritems : Counts → Counts) (options : Option (List (Text × Text) × List Text))
        (root : Option Text) (g : Globals ℕ) (p : List Text × Option Text × Globals ℕ)
        → parse_arguments int options root g ≡ parsed p
        → 5 < p.2.linter.state.verbose_level
        → IsClean (
            main normalize is_wide is_combining exists rounds abspath header_lines header_keys items
              int match config_file strip_root read_file iteritems options root g)
    unfolding main reset_error_counts
    main-IsClean iteritems options root g p e v =
        rw (main, e) (end_of_main-IsClean iteritems _ (process_files-IsQuiet p.1 p.0 0 _ (v, refl)))
