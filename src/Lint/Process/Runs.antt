-- ===== src/Lint/Process/Runs.antt =====
-- Runs of the processing of a file.
use ringfile.Prelude.{
  ℕ, ◌≡◌, refl, arith, Bool, Option, none, some, [], ◌∷◌, ◌++◌, Text, codes, same, if◌then◌else◌,
  starts_with,
}
use ringfile.Lint.Report.{start}
use ringfile.Lint.Process.Config.{Contents, no_file, text_lines, Globals}
use ringfile.Lint.Process.{process_file, split_endings}
use ringfile.Lint.Process.Config.Ends.{Ends}
use ringfile.Lint.Conditions.{none-IsSound}
use ringfile.Lint.Outcomes.{IsSoundOption}
use ringfile.Lint.Process.Silent.{process_file-error_count}
use ringfile.Lint.Process.Restores.{process_file-filters}

abbrev globals : Globals ℕ
globals = record {
  linter = start;
  line_length = 80;
  valid_extensions = codes "cc" ∷ codes "h" ∷ [];
}

abbrev abspath : Text → Text
abspath p = codes "/r/" ++ p

abbrev int : Text → Option ℕ
int t = if same t (codes "100") then some 100 else none

abbrev match : Text → Text → Option Bool
match pattern t = some (starts_with t pattern)

abbrev config_file : Text → Contents
config_file p =
    if same p (codes "/r/CPPLINT.cfg")
    then text_lines (
        codes "# settings\n"
        ∷ codes "set noparent\n"
        ∷ codes "filter=-build, +legal\n"
        ∷ codes "linelength = 100\n"
        ∷ [])
    else no_file

abbrev read_file : Text → Option Text
read_file p = some (codes "int x;\r\nint y;\n")

endings_test :
    split_endings 0 (codes "a\r" ∷ codes "b" ∷ [] ∷ [])
    ≡ (codes "a" ∷ codes "b" ∷ [] ∷ [], 2 ∷ [], 1 ∷ [])
unfolding split_endings
endings_test = refl

no_reports : (filename : Text) → IsSoundOption filename (some [])
unfolding IsSoundOption
no_reports filename = none-IsSound filename

known : (f : Text) → (v : Text) × (some (codes "A_H_") ≡ some v)
known f = (codes "A_H_", refl)

process_file-filters_example :
    Ends
      (λ (g' : Globals ℕ). g'.linter.state.filters ≡ globals.linter.state.filters)
      (process_file abspath int match config_file
        (λ p. some (codes "A_H_"))
        (λ d n v p e c. some [])
        read_file
        (codes "a.cc")
        1
        globals)
process_file-filters_example =
    process_file-filters abspath int match config_file (λ p. some (codes "A_H_"))
      (λ d n v p e c. some []) read_file known (codes "a.cc") 1 globals

process_file-error_count_test :
    Ends
      (λ (g' : Globals ℕ).
        (g'.linter.state.verbose_level ≡ 6)
        × (g'.linter.state.error_count ≡ globals.linter.state.error_count))
      (process_file abspath int match config_file
        (λ p. some (codes "A_H_"))
        (λ d n v p e c. some [])
        read_file
        (codes "a.cc")
        6
        globals)
process_file-error_count_test =
    process_file-error_count abspath int match config_file (λ p. some (codes "A_H_"))
      (λ d n v p e c. some []) read_file known (λ d n v p e c. no_reports p) (codes "a.cc") 6
      globals (omega arith)
