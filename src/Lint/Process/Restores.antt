-- ===== src/Lint/Process/Restores.antt =====
-- ProcessFile ends, and puts the filters back.
use ringfile.Prelude.{
  ℕ, ◌≡◌, inl, inr, refl, Bool, not, ◌&&◌, ◌||◌, Option, some, List, [], ◌∷◌, ◌++◌, Text, same,
  Bool-cases, Option-cases, if◌then◌else◌, codes, map,
}
use ringfile.Prelude.Strings.{split, one_of}
use ringfile.Lint.State
use ringfile.Lint.State.{CppLintState, increment_error_count}
use ringfile.Lint.Report
use ringfile.Lint.Report.{
  Linter, Event, Report, report, suppress, perform, perform_one, error, should_print_error,
  print_error,
}
use ringfile.Lint.Cleanse.{CleansedLines, cleanse}
use ringfile.Lint.Comments.Removal.{remove_multi_line_comments_lem}
use ringfile.Lint.Process.Config.{returned, Contents, Globals, say, process_config_overrides}
use ringfile.Lint.Process.{
  process_file_data, process_lines, process_file, extension, restored, is_nil, newline_event,
  split_endings,
}
use ringfile.Lint.Process.Config.Ends.{
  Ends, Ends-bind, Ends-if, HasBackup, perform_all-HasBackup, variable-Ends,
}
use ringfile.Lint.Process.Config.Keeps.{process_config_overrides-Keeps}

module _ {N : Type 0} (abspath : Text → Text) (int : Text → Option N)
    (match : Text → Text → Option Bool) (config_file : Text → Contents) where
  module _ (header_variable : Text → Option Text)
      (line_events : Text → N → ℕ → Text → Text → CleansedLines → Option (List Event))
      (read_file : Text → Option Text)
      (known : (f : Text) → (v : Text) × (header_variable f ≡ some v)) where
    process_file_data-HasBackup :
        (filename extension : Text) (lines : List Text) (g : Globals N) (b : List Text)
        → HasBackup b g
        → Ends (HasBackup b) (
            process_file_data abspath int match config_file header_variable line_events read_file
              filename extension lines g)
    unfolding process_file_data Report.reset_nolint_suppressions
    process_file_data-HasBackup filename extension lines g b h =
        let marked =
          codes "// marker so line numbers and indices both start at 1" ∷ lines
          ++ codes "// marker so line numbers end in a known way" ∷ [] in
        let r = remove_multi_line_comments_lem filename marked in
        let g' = record g { linter = Report.reset_nolint_suppressions g.linter } in
        let found = λ (v : Text).
          line_events v g.line_length g.linter.state.verbose_level filename extension
            (cleanse r.0.0) in
        Ends-bind (λ _. Unit) (HasBackup b) _ _
          (variable-Ends extension (header_variable filename) (known filename))
          (λ v k. elim (Option-cases (found v)) [
            | inl n ↦ rw (r.1, n) tt
            | inr (events, n) ↦ rw (r.1, n) (perform_all-HasBackup _ g' b h)
          ])

    process_lines-HasBackup :
        (filename text : Text) (g : Globals N) (b : List Text)
        → HasBackup b g
        → Ends (HasBackup b) (
            process_lines abspath int match config_file header_variable line_events read_file
              filename text g)
    unfolding process_lines
    process_lines-HasBackup filename text g b h =
        let mixed = λ (lf_lines crlf_lines : List ℕ).
          if is_nil lf_lines || is_nil crlf_lines
          then []
          else map (newline_event filename) crlf_lines in
        let e = split_endings 0 (split b'\n' text) in
        elim (Bool-cases (
          not (same filename (codes "-"))
          && not (one_of (extension filename) g.valid_extensions))) [
            | inl c ↦ rw c h
            | inr c ↦ rw c (
                Ends-bind (HasBackup b) (HasBackup b)
                  (process_file_data abspath int match config_file header_variable line_events
                    read_file filename (extension filename) e.0 g)
                  _ (process_file_data-HasBackup filename (extension filename) e.0 g b h)
                  (λ g' k. perform_all-HasBackup (mixed e.1 e.2) g' b k))
          ]

    -- Where RepositoryName ends, so that each file has a variable for its header guard, ProcessFile
    -- raises an exception or returns, so that the loops of ProcessFile and
    -- ProcessConfigOverrides end, and where it returns the filters of the linter are those it began
    -- with: whatever the file is, its configuration files say and the checks of its lines give.
    pub process_file-filters :
        (filename : Text) (vlevel : ℕ) (g : Globals N)
        → Ends
            (λ g'. g'.linter.state.filters ≡ g.linter.state.filters)
            (process_file abspath int match config_file header_variable line_events read_file
              filename vlevel g)
    unfolding process_file Report.backup_filters Report.restore_filters State.backup_filters
        State.restore_filters Report.set_verbose_level State.set_verbose_level
    process_file-filters filename vlevel g =
        let b = g.linter.state.filters in
        let l = Report.backup_filters (Report.set_verbose_level vlevel g.linter).0 in
        let P = λ (g' : Globals N). g'.linter.state.filters ≡ b in
        Ends-bind (λ ((g', ok) : Globals N × Bool). HasBackup b g') P
          (process_config_overrides abspath int match config_file filename
            (record g { linter = l }))
          _
          (process_config_overrides-Keeps abspath int match config_file (λ s. s.filters_backup ≡ b)
            (λ s filters h. h) filename (record g { linter = l }) refl)
          (λ (g', ok) k. elim (Option-cases (read_file filename)) [
            | inl n ↦
                rw n
                  (Ends-if P (not ok) (returned (restored g')) (returned (restored (say _ g'))) k k)
            | inr (text, n) ↦ rw n (
                Ends-if P (not ok) (returned (restored g')) _ k (
                  Ends-bind (HasBackup b) P
                    (process_lines abspath int match config_file header_variable line_events
                      read_file filename text g')
                    _ (process_lines-HasBackup filename text g' b k) (λ g'' k'. k')))
          ])
