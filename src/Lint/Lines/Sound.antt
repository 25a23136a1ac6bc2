-- ===== src/Lint/Lines/Sound.antt =====
-- What ProcessLine reports, and the loop over the lines of a file in ProcessFileData.
use ringfile.Prelude.{ℕ, zero, suc, ◌+◌, Bool, Option, Text}
use ringfile.Lint.Cleanse.{CleansedLines}
use ringfile.Lint.Conditions.{IsSound, none-IsSound, append-IsSound}
use ringfile.Lint.Outcomes.{IsSoundResult, result_rules, map-IsSoundResult}
use ringfile.Lint.Nolint.Sound.{nolint-IsSound}
use ringfile.Lint.FileChecks.Sound.{multiline-IsSound}
use ringfile.Lint.FunctionLengths.Sound.{lengths-IsSound}
use ringfile.Lint.Nesting.Stack.{Nesting}
use ringfile.Lint.Nesting.Update.{update}
use ringfile.Lint.Nesting.Sound.{blocks-IsSound, indentation-IsSound, completed-IsSound}
use ringfile.Lint.LineChecks.Sound.{
  threading-IsSound, vlog-IsSound, increment-IsSound, make_pair-IsSound, captures-IsSound,
  virtual-IsSound, override-IsSound, cxx11-IsSound,
}
use ringfile.Lint.Style.Sound.{check_style-IsSound}
use ringfile.Lint.Language.Sound.{reference-IsSound}
use ringfile.Lint.Language.Results.{language-IsSound, constructs-IsSound}
use ringfile.Lint.Lines.{
  States, Limits, simple_checks, language_checks, code_checks, process_line, process_lines,
  process_all,
}

module _ (filename : Text) where
  simple-IsSound :
      (clean_lines : CleansedLines) (linenum : ℕ)
      → IsSound filename (simple_checks filename clean_lines linenum)
  unfolding simple_checks
  simple-IsSound clean_lines linenum =
      search
        (
          append-IsSound, threading-IsSound, vlog-IsSound, increment-IsSound, make_pair-IsSound,
          captures-IsSound, virtual-IsSound, override-IsSound,
        )
        depth 10

  update-IsSound :
      (clean_lines : CleansedLines) (linenum : ℕ) (s : Nesting)
      → IsSoundResult filename (update filename clean_lines linenum s)
  unfolding update
  update-IsSound clean_lines linenum s =
      map-IsSoundResult filename _ _
        λ (rest, s'). blocks-IsSound filename clean_lines linenum rest s'

module _ (normalize : Text → Text) (is_wide is_combining : ℕ → Bool) (cppvar : Text)
    (repository_name : Text → Option Text) (limits : Limits) where
  module _ (filename file_extension : Text) (clean_lines : CleansedLines) where
    language_checks-IsSound :
        (linenum : ℕ) (s : States)
        → IsSoundResult filename (
            language_checks normalize is_wide is_combining cppvar repository_name limits filename
              file_extension clean_lines linenum s)
    unfolding language_checks
    language_checks-IsSound linenum s =
        search
          (result_rules, language-IsSound, reference-IsSound, constructs-IsSound, simple-IsSound)
          depth 10

    code-IsSound :
        (linenum : ℕ) (s : States)
        → IsSoundResult filename (
            code_checks normalize is_wide is_combining cppvar repository_name limits filename
              file_extension clean_lines linenum s)
    unfolding code_checks
    code-IsSound linenum s =
        search
          (
            result_rules, append-IsSound, lengths-IsSound, multiline-IsSound, check_style-IsSound,
            language_checks-IsSound,
          )
          depth 10

    line-IsSound :
        (linenum : ℕ) (s : States)
        → IsSoundResult filename (
            process_line normalize is_wide is_combining cppvar repository_name limits filename
              file_extension clean_lines linenum s)
    unfolding process_line
    line-IsSound linenum s =
        search
          (
            result_rules, none-IsSound, nolint-IsSound, update-IsSound, indentation-IsSound,
            code-IsSound,
          )
          depth 10

    lines-IsSound :
        (n linenum : ℕ) (s : States)
        → IsSoundResult filename (
            process_lines normalize is_wide is_combining cppvar repository_name limits filename
              file_extension clean_lines n linenum s)
    unfolding process_lines
    lines-IsSound zero linenum s = search (result_rules, none-IsSound)
    lines-IsSound (suc n) linenum s =
        let rest = lines-IsSound n (linenum + 1) in
        search (result_rules, line-IsSound, cxx11-IsSound, rest) depth 8

    -- Where the checks of the lines of a file give a result, each of the reports of all of them, those of
    -- the blocks that are open at the end included, is about the file, under a category that a NOLINT
    -- comment can name and with a confidence of 5 at most.
    pub process_all-IsSound : IsSoundResult filename (
        process_all normalize is_wide is_combining cppvar repository_name limits filename
          file_extension clean_lines)
    unfolding process_all
    process_all-IsSound = search (result_rules, lines-IsSound, completed-IsSound) depth 8
