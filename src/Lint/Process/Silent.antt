-- ===== src/Lint/Process/Silent.antt =====
-- The processing of a file at a verbosity above 5, the highest confidence of a report.
use ringfile.Prelude.{
  ℕ, ◌<◌, ◌≤◌, ◌≡◌, refl, sym, ◌∙◌, ap, inl, inr, Bool, not, ◌&&◌, ◌||◌, Option, some, List, [],
  ◌∷◌, ◌++◌, Text, same, arith, Bool-cases, Option-cases, some_eq, if◌then◌else◌, codes, map,
}
use mathlib.Core.Path.{subst}
use ringfile.Prelude.Strings.{split, one_of}
use ringfile.Lint.State
use ringfile.Lint.State.{CppLintState}
use ringfile.Lint.Categories.{error_categories}
use ringfile.Lint.Nolint.{is_category}
use ringfile.Lint.Report
use ringfile.Lint.Report.{
  Linter, Event, Report, report, suppress, perform, perform_one, error, should_print_error,
}
use ringfile.Lint.Conditions.{
  IsSound, IsSoundReport, is_sound, none-IsSound, cons-IsSound, append-IsSound, if-IsSound,
  call-IsSound,
}
use ringfile.Lint.Outcomes.{IsSoundOption, IsSoundOption-some, IsSoundResult-some}
use ringfile.Lint.Cleanse.{CleansedLines, cleanse}
use ringfile.Lint.Comments.Removal.{remove_multi_line_comments_lem}
use ringfile.Lint.FileChecks.Sound.{
  copyright-IsSound, newline-IsSound, guard-IsSound, bad_characters-IsSound, comments-IsSound,
}
use ringfile.Lint.Process.Config.{
  returned, Contents, Globals, say, perform_all, process_config_overrides,
}
use ringfile.Lint.Process.Config.Ends.{Ends, Ends-bind, Ends-if, variable-Ends}
use ringfile.Lint.Process.Config.Keeps.{process_config_overrides-Keeps}
use ringfile.Lint.Process.{
  process_file_data, process_lines, process_file, extension, restored, is_nil, newline_event,
  split_endings,
}

confidence-le :
    (r : Report) (filename : Text) → IsSoundReport filename (report r) → r.confidence ≤ 5
unfolding IsSoundReport is_sound
confidence-le r filename h = ground (arith, h.1)

-- A sound report is not printed.
perform_one-silent :
    (filename : Text) (e : Event) (l l' : Linter)
    → IsSoundReport filename e
    → 5 < l.state.verbose_level
    → perform_one e l ≡ some l'
    → l'.state ≡ l.state
unfolding perform_one error should_print_error
perform_one-silent filename (suppress key line) l l' h v e =
    ap (λ (k : Linter). k.state) (sym (some_eq e))
perform_one-silent filename (report r) l l' h v e = ground (arith, confidence-le r filename h)

perform-silent :
    (filename : Text) (es : List Event) (l l' : Linter)
    → IsSound filename es
    → 5 < l.state.verbose_level
    → perform es l ≡ some l'
    → l'.state ≡ l.state
unfolding perform IsSound
perform-silent filename [] l l' h v e = ap (λ (k : Linter). k.state) (sym (some_eq e))
perform-silent filename (e ∷ es) l l' h v p = elim (Option-cases (perform_one e l)) [
  | inl n ↦ cc (rw (n, perform) at p)
  | inr (k, n) ↦
      let q = perform_one-silent filename e l k h.0 v n in
      perform-silent filename es k l' h.1
        (subst (λ (s : CppLintState). 5 < s.verbose_level) (sym q) v) (rw (n, perform) at p)
      ∙ q
]

-- The state of the linter is this one.
abbrev HasState : {N : Type 0} → CppLintState → Globals N → Type 0
HasState s g = g.linter.state ≡ s

perform_all-HasState :
    {N : Type 0} (filename : Text) (es : List Event) (g : Globals N) (s : CppLintState)
    → IsSound filename es
    → 5 < s.verbose_level
    → HasState s g
    → Ends (HasState s) (perform_all es g)
perform_all-HasState filename es g s h v e = elim (Option-cases (perform es g.linter)) [
  | inl n ↦ rw n tt
  | inr (l, n) ↦
      let v' = subst (λ (t : CppLintState). 5 < t.verbose_level) (sym e) v in
      rw n (perform-silent filename es g.linter l h v' n ∙ e)
]

newline_events-IsSound :
    (filename : Text) (ns : List ℕ) → IsSound filename (map (newline_event filename) ns)
unfolding newline_event is_sound is_category one_of error_categories same
newline_events-IsSound filename [] = none-IsSound filename
newline_events-IsSound filename (n ∷ ns) =
    cons-IsSound filename _ _ (call-IsSound filename n 1 _ _ refl)
      (newline_events-IsSound filename ns)

-- that is so of the reports of the lines
abbrev pub IsSoundCheck :
    {N : Type 0} → (Text → N → ℕ → Text → Text → CleansedLines → Option (List Event)) → Type 0
IsSoundCheck {N = N} line_events =
    (cppvar : Text) (n : N) (verbose : ℕ) (filename extension : Text) (clean_lines : CleansedLines)
    → IsSoundOption filename (line_events cppvar n verbose filename extension clean_lines)

module _ {N : Type 0} (abspath : Text → Text) (int : Text → Option N)
    (match : Text → Text → Option Bool) (config_file : Text → Contents) where
  module _ (header_variable : Text → Option Text)
      (line_events : Text → N → ℕ → Text → Text → CleansedLines → Option (List Event))
      (read_file : Text → Option Text)
      (known : (f : Text) → (v : Text) × (header_variable f ≡ some v))
      (sound : IsSoundCheck line_events) where
    process_file_data-HasState :
        (filename extension : Text) (lines : List Text) (g : Globals N) (s : CppLintState)
        → 5 < s.verbose_level
        → HasState s g
        → Ends (HasState s) (
            process_file_data abspath int match config_file header_variable line_events read_file
              filename extension lines g)
    unfolding process_file_data Report.reset_nolint_suppressions
    process_file_data-HasState filename extension lines g s big h =
        let marked =
          codes "// marker so line numbers and indices both start at 1" ∷ lines
          ++ codes "// marker so line numbers end in a known way" ∷ [] in
        let r = remove_multi_line_comments_lem filename marked in
        let g' = record g { linter = Report.reset_nolint_suppressions g.linter } in
        let verbose = g.linter.state.verbose_level in
        let found =
          λ (v : Text). line_events v g.line_length verbose filename extension (cleanse r.0.0) in
        let comments = IsSoundResult-some filename _ (comments-IsSound filename marked) r.1 in
        Ends-bind (λ _. Unit) (HasState s) _ _
          (variable-Ends extension (header_variable filename) (known filename))
          (λ v k'. elim (Option-cases (found v)) [
            | inl n ↦ rw (r.1, n) tt
            | inr (events, n) ↦
                let others =
                  IsSoundOption-some filename (found v)
                    (sound v g.line_length verbose filename extension (cleanse r.0.0)) n in
                rw (r.1, n)
                  (perform_all-HasState filename _ g' s
                    (search
                      (
                        append-IsSound, if-IsSound, none-IsSound, copyright-IsSound, guard-IsSound,
                        bad_characters-IsSound, newline-IsSound, comments, others,
                      )
                      depth 10)
                    big h)
          ])

    process_lines-HasState :
        (filename text : Text) (g : Globals N) (s : CppLintState)
        → 5 < s.verbose_level
        → HasState s g
        → Ends (HasState s) (
            process_lines abspath int match config_file header_variable line_events read_file
              filename text g)
    unfolding process_lines
    process_lines-HasState filename text g s v h =
        let mixed = λ (lf_lines crlf_lines : List ℕ).
          if is_nil lf_lines || is_nil crlf_lines
          then []
          else map (newline_event filename) crlf_lines in
        let e = split_endings 0 (split b'\n' text) in
        elim (Bool-cases (
          not (same filename (codes "-"))
          && not (one_of (extension filename) g.valid_extensions))) [
            | inl c ↦ rw c h
            | inr c ↦ rw c (
                Ends-bind (HasState s) (HasState s)
                  (process_file_data abspath int match config_file header_variable line_events
                    read_file filename (extension filename) e.0 g)
                  _ (process_file_data-HasState filename (extension filename) e.0 g s v h)
                  (λ g' k.
                    perform_all-HasState filename (mixed e.1 e.2) g' s
                      (if-IsSound filename _ _ _ (none-IsSound filename)
                        (newline_events-IsSound filename e.2))
                      v k))
          ]

    -- Where RepositoryName ends and what the checks of lines report is sound, ProcessFile at a level above
    -- 5 ends, and where it returns the count of errors is what it was and the verbosity is that level: whatever the file and
    -- its configuration files say.
    pub process_file-error_count :
        (filename : Text) (vlevel : ℕ) (g : Globals N)
        → 5 < vlevel
        → Ends
            (λ g'.
              (g'.linter.state.verbose_level ≡ vlevel)
              × (g'.linter.state.error_count ≡ g.linter.state.error_count))
            (process_file abspath int match config_file header_variable line_events read_file
              filename vlevel g)
    unfolding process_file Report.backup_filters Report.restore_filters State.backup_filters
        State.restore_filters Report.set_verbose_level State.set_verbose_level
    process_file-error_count filename vlevel g v =
        let l = Report.backup_filters (Report.set_verbose_level vlevel g.linter).0 in
        let Q : CppLintState → Type 0 =
          λ s. (s.verbose_level ≡ vlevel) × (s.error_count ≡ g.linter.state.error_count) in
        let P : Globals N → Type 0 = λ g'. Q g'.linter.state in
        Ends-bind (λ ((g', ok) : Globals N × Bool). P g') P
          (process_config_overrides abspath int match config_file filename
            (record g { linter = l }))
          _
          (process_config_overrides-Keeps abspath int match config_file Q (λ s filters h. h)
            filename (record g { linter = l }) (refl, refl))
          (λ (g', ok) k. elim (Option-cases (read_file filename)) [
            | inl n ↦
                rw n
                  (Ends-if P (not ok) (returned (restored g')) (returned (restored (say _ g'))) k k)
            | inr (text, n) ↦
                let s = g'.linter.state in
                let v' : 5 < s.verbose_level = omega (arith, v, k.0) in
                rw n (
                  Ends-if P (not ok) (returned (restored g')) _ k (
                    Ends-bind (HasState s) P
                      (process_lines abspath int match config_file header_variable line_events
                        read_file filename text g')
                      _ (process_lines-HasState filename text g' s v' refl)
                      (λ g'' k'. subst Q (sym k') k)))
          ])
