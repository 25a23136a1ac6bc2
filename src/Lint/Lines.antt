-- ===== src/Lint/Lines.antt =====
-- ProcessLine of tools/cpplint.py, and the loop over the lines of a file in ProcessFileData: the checks of
-- lines one after the other, with the states that they share. The extra checks of a caller, of which
-- the program has none, are left out. What unicodedata and the file system say is a parameter.
pub mod Sound
mod Runs
use ringfile.Prelude.{
  ℕ, zero, suc, ◌+◌, Bool, Option, none, some, List, [], ◌++◌, Text, if◌then◌else◌,
}
use ringfile.Lint.Report.{Event}
use ringfile.Lint.FileChecks.Guard.{line_at}
use ringfile.Lint.Cleanse.{CleansedLines}
use ringfile.Lint.Nolint.{parse_nolint_suppressions}
use ringfile.Lint.FileChecks.{check_for_multiline_comments_and_strings}
use ringfile.Lint.Include as Includes
use ringfile.Lint.Include.{IncludeState}
use ringfile.Lint.Function as Functions
use ringfile.Lint.Function.{FunctionState}
use ringfile.Lint.FunctionLengths.{check_for_function_lengths}
use ringfile.Lint.Nesting.Stack as Nestings
use ringfile.Lint.Nesting.Stack.{Nesting, in_asm_block, check_completed_blocks}
use ringfile.Lint.Nesting.Update.{update}
use ringfile.Lint.Nesting.Indentation.{check_for_namespace_indentation}
use ringfile.Lint.LineChecks.{
  check_posix_threading, check_vlog_arguments, check_invalid_increment,
  check_make_pair_uses_deduction, check_default_lambda_captures,
}
use ringfile.Lint.LineChecks.Specifiers.{
  check_redundant_virtual, check_redundant_override_or_final, flag_cxx11_features,
}
use ringfile.Lint.Constructs.{check_for_non_standard_constructs}
use ringfile.Lint.Outcomes.{after, after_all, and_then}
use ringfile.Lint.Style.All.{check_style}
use ringfile.Lint.Language.All.{check_language}
use ringfile.Lint.Language.References.{check_for_non_const_reference}

-- include_state, function_state and nesting_state
pub record States : Type 0 where
  pub includes : IncludeState
  pub functions : FunctionState
  pub nesting : Nesting

unfoldable pub init : States
init = record { includes = Includes.init; functions = Functions.init; nesting = Nestings.init }

-- The globals that the checks read: the verbosity and the limit of the length of a line.
pub record Limits : Type 0 where
  pub verbose_level : ℕ
  pub line_length : ℕ

abbrev pub Result : Type 0
Result = Option (States × List Event)

-- The checks that look at a line only.
unfoldable pub simple_checks : Text → CleansedLines → ℕ → List Event
simple_checks filename clean_lines linenum =
    let elided = clean_lines.elided in
    let line = line_at elided linenum in
    check_vlog_arguments filename line linenum
    ++ check_posix_threading filename line linenum
    ++ check_invalid_increment filename line linenum
    ++ check_make_pair_uses_deduction filename line linenum
    ++ check_default_lambda_captures filename elided linenum
    ++ check_redundant_virtual filename elided linenum
    ++ check_redundant_override_or_final filename line linenum

module _ (normalize : Text → Text) (is_wide is_combining : ℕ → Bool) (cppvar : Text)
    (repository_name : Text → Option Text) (limits : Limits) where
  -- From CheckLanguage on; `none` is an exception, or a loop of RepositoryName out of rounds.
  unfoldable pub language_checks : Text → Text → CleansedLines → ℕ → States → Result
  unfolding simple_checks
  language_checks filename file_extension clean_lines linenum s =
      and_then
        (check_language filename (repository_name filename) file_extension clean_lines linenum
          s.includes)
        λ includes.
          after
            (check_for_non_const_reference filename clean_lines.elided linenum
              s.nesting.previous_stack_top)
            (after_all
              (check_for_non_standard_constructs filename clean_lines linenum
                s.nesting.braces.stack)
              (some (record s { includes = includes }, simple_checks filename clean_lines linenum)))

  -- What comes behind the test for assembly; `none` is an exception.
  unfoldable pub code_checks : Text → Text → CleansedLines → ℕ → States → Result
  unfolding language_checks
  code_checks filename file_extension clean_lines linenum s =
      let (functions, lengths) =
        check_for_function_lengths limits.verbose_level filename clean_lines.lines linenum
          s.functions in
      after
        (lengths
          ++ check_for_multiline_comments_and_strings filename (line_at clean_lines.elided linenum)
              linenum)
        (after_all
          (check_style normalize is_wide is_combining cppvar filename clean_lines linenum
            file_extension s.nesting limits.line_length)
          (language_checks filename file_extension clean_lines linenum
            (record s { functions = functions })))

  -- ProcessLine; `none` is an exception, or a loop of RepositoryName or InTemplateArgumentList out of
  -- rounds.
  unfoldable pub process_line : Text → Text → CleansedLines → ℕ → States → Result
  unfolding code_checks
  process_line filename file_extension clean_lines linenum s =
      after (parse_nolint_suppressions filename (line_at clean_lines.raw_lines linenum) linenum) (
        and_then (update filename clean_lines linenum s.nesting) λ nesting.
          let s' = record s { nesting = nesting } in
          after (check_for_namespace_indentation filename nesting clean_lines linenum) (
            if in_asm_block nesting
            then some (s', [])
            else code_checks filename file_extension clean_lines linenum s'))

  -- The loop over so many lines, from the one of a number on, with FlagCxx11Features.
  unfoldable pub process_lines : Text → Text → CleansedLines → ℕ → ℕ → States → Result
  unfolding process_line
  process_lines filename file_extension clean_lines zero linenum s = some (s, [])
  process_lines filename file_extension clean_lines (suc n) linenum s =
      and_then (process_line filename file_extension clean_lines linenum s) λ s'.
        after (flag_cxx11_features filename (line_at clean_lines.elided linenum) linenum)
          (process_lines filename file_extension clean_lines n (linenum + 1) s')

  -- All lines, and CheckCompletedBlocks
  unfoldable pub process_all : Text → Text → CleansedLines → Result
  unfolding process_lines init
  process_all filename file_extension clean_lines =
      and_then (process_lines filename file_extension clean_lines clean_lines.num_lines 0 init)
        λ s. some (s, check_completed_blocks filename s.nesting.braces.stack)
