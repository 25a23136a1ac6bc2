-- ===== src/Lint/Program/Runs.antt =====
-- Runs of the program, with two files, one of which cannot be read.
use ringfile.Prelude.{
  ℕ, ◌≡◌, refl, arith, true, false, Option, none, some, List, [], ◌∷◌, ◌++◌, Text, codes, same,
  if◌then◌else◌, map,
}
use ringfile.Prelude.Strings.{one_of}
use ringfile.Lint.Report.{start}
use ringfile.Lint.State
use ringfile.Lint.Report
use ringfile.Lint.Process.Config.{no_file, Globals}
use ringfile.Lint.FileName.{repository_name}
use ringfile.Lint.Program.{Exit, usage, categories, parsed, exits, parse_arguments, main}
use ringfile.Lint.Program.Options.{Gives, IsReady, IsRefusal, parse_arguments-IsReady}
use ringfile.Lint.Program.Ends.{HasEnded, main-HasEnded}
use ringfile.Lint.Program.Silent.{IsClean, main-IsClean}

abbrev globals : Globals ℕ
globals = record {
  linter = start;
  line_length = 80;
  valid_extensions = codes "cc" ∷ codes "h" ∷ [];
}

abbrev int : Text → Option ℕ
int t = if same t (codes "6") then some 6 else none

abbrev options : Option (List (Text × Text) × List Text)
options = some (
  (codes "--verbose", codes "6") ∷ (codes "--output", codes "vs7") ∷ [],
  codes "a.cc" ∷ codes "b.cc" ∷ [],
)

abbrev read_file : Text → Option Text
read_file p = if same p (codes "a.cc") then some (codes "void f() { g( x); }\n") else none

abbrev run_of : Option (List (Text × Text) × List Text) → Exit
run_of o =
    main (λ s. s) (λ x. false) (λ x. false) (λ p. false) 1 (λ p. codes "/r/" ++ p) (λ p. none)
      (map (λ (h, n). h)) (λ r. r) int (λ p t. some false) (λ p. no_file) (λ r p. p) read_file
      (λ d. d) o none globals

format_test :
    one_of globals.linter.state.output_format (codes "emacs" ∷ codes "vs7" ∷ codes "eclipse" ∷ [])
    ≡ true
unfolding one_of same State.init
format_test = refl

-- what ParseArguments gives for the options
abbrev settings : List Text × Option Text × Globals ℕ
settings = (
  codes "a.cc" ∷ codes "b.cc" ∷ [],
  none,
  record {
    linter = record {
      state = record {
        verbose_level = 6;
        error_count = 0;
        filters = codes "-build/include_alpha" ∷ [];
        filters_backup = codes "-build/include_alpha" ∷ [];
        counting = [];
        errors_by_category = [];
        output_format = codes "vs7";
      };
      error_suppressions = [];
      stderr = [];
    };
    line_length = 80;
    valid_extensions = codes "cc" ∷ codes "h" ∷ [];
  },
)

parse_test : parse_arguments int options none globals ≡ parsed settings
unfolding parse_arguments one_of same State.init Report.set_filters State.set_filters
    State.first_unsigned State.clean_filters Report.set_counting_style State.set_counting_style
    Report.set_verbose_level State.set_verbose_level Report.set_output_format
    State.set_output_format
parse_test = refl

parse_arguments-IsReady_example :
    Gives
      (λ (filenames, root, g). IsReady filenames g.linter.state)
      IsRefusal
      (parse_arguments int options none globals)
parse_arguments-IsReady_example = parse_arguments-IsReady int options none globals format_test

known :
    (f : Text)
    → (name : Text) × (repository_name (λ p. codes "/r/" ++ p) (λ p. false) 1 f ≡ some name)
unfolding repository_name
known f = (_, refl)

main-HasEnded_example : HasEnded (run_of options)
main-HasEnded_example =
    main-HasEnded (λ s. s) (λ x. false) (λ x. false) (λ p. false) 1 (λ p. codes "/r/" ++ p)
      (λ p. none) (map (λ (h, n). h)) (λ r. r) int (λ p t. some false) (λ p. no_file) (λ r p. p)
      read_file known (λ d. d) options none globals format_test

main-IsClean_example : IsClean (run_of options)
main-IsClean_example =
    main-IsClean (λ s. s) (λ x. false) (λ x. false) (λ p. false) 1 (λ p. codes "/r/" ++ p)
      (λ p. none) (map (λ (h, n). h)) (λ r. r) int (λ p t. some false) (λ p. no_file) (λ r p. p)
      read_file known (λ d. d) options none globals settings parse_test (omega arith)

-- The empty filter lists the categories, and a counting style that is unknown is refused.
categories_test :
    parse_arguments int (some ((codes "--filter", []) ∷ [], codes "a.cc" ∷ [])) none globals
    ≡ exits categories
unfolding parse_arguments same
categories_test = refl

counting_test :
    parse_arguments int
      (some ((codes "--counting", codes "none") ∷ [], codes "a.cc" ∷ []))
      none
      globals
    ≡ exits (usage (some (codes "Valid counting options are total, toplevel, and detailed")))
unfolding parse_arguments same one_of
counting_test = refl
