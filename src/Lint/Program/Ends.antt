-- ===== src/Lint/Program/Ends.antt =====
-- main ends.
use mathlib.Core.Option
use mathlib.Core.Path.{subst}
use ringfile.Prelude.{ℕ, ◌≡◌, Bool, true, Option, some, ap, List, [], ◌∷◌, Text, codes, inl, inr}
use ringfile.Prelude.Strings.{one_of}
use ringfile.Lint.FileChecks.Guard.{get_header_guard_cpp_variable, guard_filename}
use ringfile.Lint.State.{Counts}
use ringfile.Lint.Include.{Entry}
use ringfile.Lint.RequiredIncludes.{Required}
use ringfile.Lint.Process.Config.{Ending, returned, raised, unfinished, Contents, Globals}
use ringfile.Lint.FileName.{repository_name}
use ringfile.Lint.Process.Config.Ends.{Ends, Ends-bind}
use ringfile.Lint.Process.{process_file}
use ringfile.Lint.Process.Restores.{process_file-filters}
use ringfile.Lint.Program.{
  header_variable, Exit, usage, categories, uncaught, endless, status, parse_arguments, file_events,
  process_files, end_of_main, main,
}
use ringfile.Lint.Program.Options.{Gives, IsReady, IsRefusal, Parsed-cases, parse_arguments-IsReady}

-- Where RepositoryName ends, a file has a variable for its header guard.
pub header_variable-known :
    (exists : Text → Bool) (rounds : ℕ) (abspath : Text → Text)
    (strip_root : Option Text → Text → Text) (root : Option Text)
    → ((f : Text) → (name : Text) × (repository_name abspath exists rounds f ≡ some name))
    → (f : Text) → (v : Text) × (header_variable exists rounds abspath strip_root root f ≡ some v)
unfolding header_variable get_header_guard_cpp_variable
header_variable-known exists rounds abspath strip_root root known f =
    let (name, e) = known (guard_filename f) in (_, ap (Option.map _) e)

-- The program has ended.
abbrev pub HasEnded : Exit → Type 0
HasEnded endless = ⊥
HasEnded _ = Unit

refused : (e : Exit) → IsRefusal e → HasEnded e
unfolding IsRefusal
refused (usage message) h = tt
refused categories h = tt
refused uncaught h = tt
refused endless h = h
refused (status b l) h = tt

module _ (normalize : Text → Text) (is_wide is_combining : ℕ → Bool) (exists : Text → Bool)
    (rounds : ℕ) (abspath : Text → Text) (header_lines : Text → Option (List Text))
    (header_keys : List Entry → List Text) (items : Required → Required) where
  module _ (int : Text → Option ℕ) (match : Text → Text → Option Bool)
      (config_file : Text → Contents) (strip_root : Option Text → Text → Text)
      (read_file : Text → Option Text)
      (known : (f : Text)
        → (name : Text) × (repository_name abspath exists rounds f ≡ some name)) where
    process_files-Ends :
        (root : Option Text) (filenames : List Text) (g : Globals ℕ)
        → Ends
            (λ _. Unit)
            (process_files normalize is_wide is_combining exists rounds abspath header_lines
              header_keys items int match config_file strip_root read_file root filenames g)
    unfolding process_files
    process_files-Ends root [] g = tt
    process_files-Ends root (filename ∷ filenames) g =
        let events =
          file_events normalize is_wide is_combining exists rounds abspath header_lines header_keys
            items in
        let level = g.linter.state.verbose_level in
        Ends-bind (λ g'. g'.linter.state.filters ≡ g.linter.state.filters) (λ _. Unit)
          (process_file abspath int match config_file
            (header_variable exists rounds abspath strip_root root) events read_file filename level
            g)
          _
          (process_file-filters abspath int match config_file
            (header_variable exists rounds abspath strip_root root) events read_file
            (header_variable-known exists rounds abspath strip_root root known) filename level g)
          (λ g' k. process_files-Ends root filenames g')

    end_of_main-HasEnded :
        (iteritems : Counts → Counts) (e : Ending (Globals ℕ))
        → Ends (λ _. Unit) e
        → HasEnded (
            end_of_main normalize is_wide is_combining exists rounds abspath header_lines
              header_keys items int match config_file strip_root read_file iteritems e)
    unfolding end_of_main
    end_of_main-HasEnded iteritems (returned g) h = tt
    end_of_main-HasEnded iteritems raised h = tt
    end_of_main-HasEnded iteritems unfinished h = h

    -- From globals with a known output format, and where RepositoryName ends for every name, main ends,
    -- whatever the options, the files, the headers and the configuration files say: its loops over the
    -- options, the files, the directories of configuration files and the multi-line comments of a file
    -- do. The checks of the lines of a file give a result or none, and none counts as an exception here.
    pub main-HasEnded :
        (iteritems : Counts → Counts) (options : Option (List (Text × Text) × List Text))
        (root : Option Text) (g : Globals ℕ)
        → one_of g.linter.state.output_format (codes "emacs" ∷ codes "vs7" ∷ codes "eclipse" ∷ [])
          ≡ true
        → HasEnded (
            main normalize is_wide is_combining exists rounds abspath header_lines header_keys items
              int match config_file strip_root read_file iteritems options root g)
    unfolding main Gives
    main-HasEnded iteritems options root g h =
        let P =
          Gives
            (λ ((filenames, root', g') : List Text × Option Text × Globals ℕ).
              IsReady filenames g'.linter.state)
            IsRefusal in
        let result = parse_arguments-IsReady int options root g h in
        elim (Parsed-cases (parse_arguments int options root g)) [
          | inl (p, e) ↦
              rw (main, e) (end_of_main-HasEnded iteritems _ (process_files-Ends p.1 p.0 _))
          | inr (x, e) ↦ rw (main, e) (refused x (subst P e result))
        ]
