-- ===== src/Lint/Report/Runs.antt =====
-- Runs of Error.
use ringfile.Prelude.{◌≡◌, refl, some, [], ◌∷◌, codes, starts_with, same, List}
use mathlib.Core.Option
use ringfile.Lint.State
use ringfile.Prelude.Strings.{decimal}
use ringfile.Lint.Report.{
  Report, report, suppress, start, perform, Linter, Event, error, should_print_error, error_line,
}
use ringfile.Prelude.{none, ◌+◌, length}
use ringfile.Lint.Report.{perform_one, has_line, is_error_suppressed_by_nolint, print_error}
use ringfile.Lint.State.Filters
use ringfile.Lint.State.Filters.{IsWellFormed, Reached-IsWellFormed}
use ringfile.Lint.Report.Laws.{error_lem, perform_total, perform-balance, prints, printed}
use ringfile.Prelude.{if◌then◌else◌}

abbrev tab : Report
tab = record {
  filename = codes "a.cc";
  linenum = 12;
  category = codes "whitespace/tab";
  confidence = 1;
  message = codes "Tab found";
}

perform_test :
    Option.map (λ (l : Linter). l.stderr) (perform (report tab ∷ []) start)
    ≡ some (codes "a.cc:12:  Tab found  [whitespace/tab] [1]\n" ∷ [])
unfolding perform error should_print_error State.init State.filter_loop State.filter_step
    starts_with error_line same decimal
perform_test = refl

start-IsWellFormed : IsWellFormed start.state
start-IsWellFormed = Reached-IsWellFormed Filters.start

error_lem_example :
    (error tab start ≡ some (if prints tab start then printed tab start else start))
    × ((printed tab start).state.error_count ≡ start.state.error_count + 1)
error_lem_example = error_lem tab start start-IsWellFormed

abbrev tab_events : List Event
tab_events = report tab ∷ suppress none 12 ∷ report tab ∷ []

perform_total_example : (l' : Linter) × (perform tab_events start ≡ some l') × IsWellFormed l'.state
perform_total_example = perform_total tab_events start start-IsWellFormed

tab_run :
    perform tab_events start
    ≡ some (record (print_error tab start) { error_suppressions = (none, 12) ∷ [] })
unfolding perform perform_one error should_print_error print_error State.init State.filter_loop
    State.filter_step starts_with error_line same decimal is_error_suppressed_by_nolint has_line
tab_run = refl

perform-balance_example :
    length (print_error tab start).stderr + start.state.error_count
    ≡ length start.stderr + (print_error tab start).state.error_count
perform-balance_example =
    perform-balance tab_events start
      (record (print_error tab start) { error_suppressions = (none, 12) ∷ [] }) tab_run
