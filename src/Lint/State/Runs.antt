-- ===== src/Lint/State/Runs.antt =====
-- Runs of the linter's state.
use ringfile.Prelude.{◌≡◌, refl, some, [], ◌∷◌, codes, false, starts_with}
use ringfile.Lint.State.{init, set_filters, filter_loop, filter_step, clean_filters, first_unsigned}
use ringfile.Prelude.{same, All, List, Text, ◌↔◌, ◌≢◌, true, none}
use ringfile.Lint.State.{
  CppLintState, add_filters, backup_filters, restore_filters, count_of, reset_error_counts,
  set_counting_style,
}
use ringfile.Lint.State.Filters.{
  IsSigned, filter_loop-last_match, verdict, last_match, Reached, start, next, set_from_flag,
  backup, Reached-filter_loop, add_filters-accepts, restore_filters-add_all, add_all,
}
use ringfile.Lint.State.Counts.{report_all, report_all-reset, report_all-total, occurrences, total}

set_filters_test :
    (set_filters (codes "-whitespace, +whitespace/indent,") init).0.filters
    ≡ codes "-build/include_alpha" ∷ codes "-whitespace" ∷ codes "+whitespace/indent" ∷ []
unfolding set_filters clean_filters init
set_filters_test = refl

set_filters_raises : (set_filters (codes "whitespace") init).1 ≡ some (codes "whitespace")
unfolding set_filters clean_filters first_unsigned init
set_filters_raises = refl

filter_loop_test :
    filter_loop
      (codes "whitespace/indent")
      false
      (codes "-whitespace" ∷ codes "+whitespace/indent" ∷ [])
    ≡ some false
unfolding filter_loop filter_step starts_with
filter_loop_test = refl

abbrev indent_filters : List Text
indent_filters = codes "-whitespace" ∷ codes "+whitespace/indent" ∷ []

filter_loop-last_match_example :
    filter_loop (codes "whitespace/indent") true indent_filters
    ≡ some (verdict true (last_match (codes "whitespace/indent") indent_filters))
unfolding starts_with
filter_loop-last_match_example =
    filter_loop-last_match (codes "whitespace/indent") true indent_filters (refl, (refl, tt))

set_filters_accepts : (set_filters (codes "-whitespace, +whitespace/indent,") init).1 ≡ none
unfolding set_filters clean_filters first_unsigned init starts_with
set_filters_accepts = refl

abbrev configured : CppLintState
configured = backup_filters (set_filters (codes "-whitespace, +whitespace/indent,") init).0

configured-Reached : Reached configured
configured-Reached =
    next
      (next start
        (set_from_flag (codes "-whitespace, +whitespace/indent,") init set_filters_accepts))
      (backup (set_filters (codes "-whitespace, +whitespace/indent,") init).0)

Reached-filter_loop_example : filter_loop (codes "build/include") false configured.filters ≢ none
Reached-filter_loop_example = Reached-filter_loop (codes "build/include") configured-Reached

add_filters-accepts_example :
    ((add_filters (codes "+build,whitespace") init).1 ≡ none)
    ↔ (All IsSigned init.filters × All IsSigned (clean_filters (codes "+build,whitespace")))
add_filters-accepts_example = add_filters-accepts (codes "+build,whitespace") init

restore_filters-add_all_test :
    (restore_filters (add_all (codes "+build" ∷ codes "-legal" ∷ []) (backup_filters init))).filters
    ≡ init.filters
restore_filters-add_all_test = restore_filters-add_all (codes "+build" ∷ codes "-legal" ∷ []) init

abbrev by_category : CppLintState
by_category = set_counting_style (codes "toplevel") init

abbrev reported : List Text
reported = codes "whitespace/tab" ∷ codes "legal/copyright" ∷ codes "whitespace/braces" ∷ []

report_all-reset_test :
    (count_of
        (codes "whitespace")
        (report_all reported (reset_error_counts by_category)).errors_by_category
      ≡ occurrences (codes "toplevel") (codes "whitespace") reported)
    × ((report_all reported (reset_error_counts by_category)).error_count ≡ 3)
unfolding set_counting_style
report_all-reset_test = report_all-reset (codes "whitespace") reported by_category

report_all-total_test :
    total (report_all reported (reset_error_counts by_category)).errors_by_category
    ≡ (report_all reported (reset_error_counts by_category)).error_count
unfolding set_counting_style same
report_all-total_test = report_all-total reported by_category refl
