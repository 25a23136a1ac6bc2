-- ===== src/Lint/Process.antt =====
-- The processing of a file in tools/cpplint.py: ProcessConfigOverrides, ProcessFileData, ProcessFile.
--
-- What the code calls outside of the repository is a parameter: os.path.abspath, int, the matching of
-- an expression that a configuration file gives (`none` is an exception of each), and the contents of
-- files. What ProcessFileData reports between the comments and the bad characters, from the limit of the
-- length of a line and the verbosity, is one more, `line_events`, for which Lint/Program.antt puts the
-- checks of lines and of includes (`none` is an exception, or a loop of them out of rounds). So is
-- `header_variable`, for which it puts GetHeaderGuardCPPVariable: CheckStyle asks for it on the first line
-- of every file with the extension h, and `none` is a loop that does not end.
pub mod Config
pub mod Restores
pub mod Silent
mod Runs
use ringfile.Prelude.{
  ℕ, zero, suc, ◌+◌, Bool, true, false, not, ◌&&◌, ◌||◌, ◌==◌, Option, none, some, List, [], ◌∷◌,
  ◌++◌, Text, same, if◌then◌else◌, codes, reverse, length, map,
}
use ringfile.Prelude.Strings.{is_space, strip, rstrip, split, ends_with, one_of}
use ringfile.Lint.Paths.{path_split, path_join, split_last}
use ringfile.Lint.Report
use ringfile.Lint.Report.{Linter, Event, Report, report, perform, error}
use ringfile.Lint.FileChecks.{
  check_for_copyright, check_for_bad_characters, check_for_newline_at_eof,
}
use ringfile.Lint.FileChecks.Guard.{check_for_header_guard}
use ringfile.Lint.Comments.{remove_multi_line_comments}
use ringfile.Lint.Cleanse.{CleansedLines, cleanse}
use ringfile.Lint.Process.Config.{
  Ending, returned, raised, unfinished, ◌>>=◌, or_raise, or_unfinished, Contents, Globals, say,
  perform_all, process_config_overrides,
}

-- ', '.join(ts)
unfoldable pub join : List Text → Text
join [] = []
join (t ∷ []) = t
join (t ∷ (u ∷ ts)) = t ++ codes ", " ++ join (u ∷ ts)

abbrev pub is_nil : List ℕ → Bool
is_nil [] = true
is_nil (n ∷ ns) = false

-- Every line but the last without its carriage returns, and the numbers of the lines that end with
-- one and of the others.
unfoldable pub split_endings : ℕ → List Text → List Text × List ℕ × List ℕ
unfolding rstrip ends_with
split_endings linenum [] = ([], [], [])
split_endings linenum (line ∷ []) = (line ∷ [], [], [])
split_endings linenum (line ∷ (next ∷ lines)) =
    let (rest, lf_lines, crlf_lines) = split_endings (linenum + 1) (next ∷ lines) in
    if ends_with line (codes "\r")
    then (rstrip (λ x. x == 13) line ∷ rest, lf_lines, (linenum + 1) ∷ crlf_lines)
    else (line ∷ rest, (linenum + 1) ∷ lf_lines, crlf_lines)

unfoldable pub newline_event : Text → ℕ → Event
newline_event filename linenum = report (record {
  filename = filename;
  linenum = linenum;
  category = codes "whitespace/newline";
  confidence = 1;
  message = codes "Unexpected \\r (^M) found; better to use only \\n";
})

-- filename[filename.rfind('.') + 1:]
abbrev pub extension : Text → Text
extension filename = elim (split_last b'.' filename) [ none ↦ filename | some (h, t) ↦ t ]

abbrev pub restored : {N : Type 0} → Globals N → Globals N
restored g = record g { linter = Report.restore_filters g.linter }

module _ {N : Type 0} (abspath : Text → Text) (int : Text → Option N)
    (match : Text → Text → Option Bool) (config_file : Text → Contents) where
  module _ (header_variable : Text → Option Text)
      (line_events : Text → N → ℕ → Text → Text → CleansedLines → Option (List Event))
      (read_file : Text → Option Text) where
    -- ProcessFileData
    unfoldable pub process_file_data : Text → Text → List Text → Globals N → Ending (Globals N)
    process_file_data filename file_extension file_lines g =
        let lines =
          codes "// marker so line numbers and indices both start at 1" ∷ file_lines
          ++ codes "// marker so line numbers end in a known way" ∷ [] in
        (if same file_extension (codes "h")
          then or_unfinished (header_variable filename)
          else returned [])
        >>= λ cppvar.
            or_unfinished (remove_multi_line_comments filename lines)
            >>= λ (lines', comment_events).
                or_raise (
                  line_events cppvar g.line_length g.linter.state.verbose_level filename
                    file_extension (cleanse lines'))
                >>= λ events.
                    perform_all
                      (check_for_copyright filename lines
                        ++ (if same file_extension (codes "h")
                            then check_for_header_guard cppvar filename lines
                            else [])
                        ++ comment_events
                        ++ events
                        ++ check_for_bad_characters filename lines'
                        ++ check_for_newline_at_eof filename lines')
                      (record g { linter = Report.reset_nolint_suppressions g.linter })

    -- The checks of a file that is read: those of its lines, and that its line ends are not mixed.
    unfoldable pub process_lines : Text → Text → Globals N → Ending (Globals N)
    unfolding split_last
    process_lines filename text g =
        let (lines, lf_lines, crlf_lines) = split_endings 0 (split b'\n' text) in
        if not (same filename (codes "-")) && not (one_of (extension filename) g.valid_extensions)
        then returned (
            say
              (codes "Ignoring "
                ++ filename
                ++ codes "; not a valid file name ("
                ++ join g.valid_extensions
                ++ codes ")\n")
              g)
        else process_file_data filename (extension filename) lines g >>= λ g'.
            perform_all
              (if is_nil lf_lines || is_nil crlf_lines
                then []
                else map (newline_event filename) crlf_lines)
              g'

    -- ProcessFile
    unfoldable pub process_file : Text → ℕ → Globals N → Ending (Globals N)
    process_file filename vlevel g =
        let l = Report.backup_filters (Report.set_verbose_level vlevel g.linter).0 in
        process_config_overrides abspath int match config_file filename (record g { linter = l })
        >>= λ (g', ok). if not ok then returned (restored g') else elim (read_file filename) [
          | none ↦ returned (
              restored (
                say (codes "Skipping input '" ++ filename ++ codes "': Can't open for reading\n")
                  g'))
          | some text ↦ process_lines filename text g' >>= λ g''.
              returned (restored (say (codes "Done processing " ++ filename ++ codes "\n") g''))
        ]
