-- ===== src/Lint/Function/Runs.antt =====
-- Runs of the length checks.
use ringfile.Prelude.{◌≡◌, refl, ◌↔◌, ◌≤◌, ◌*◌, ◌^◌, codes, true, [], ◌∷◌}
use ringfile.Prelude.Strings.{decimal}
use ringfile.Lint.Regex.{matches}
use ringfile.Lint.Report.{Report, report}
use ringfile.Lint.Function.{
  FunctionState, init, begin, check, base_trigger, error_level, log2, log2_loop,
}
use ringfile.Lint.Function.Length.{count_times, check-begin, check-confidence}

check-begin_example :
    (check 1 (codes "a.cc") 900 (count_times 501 (begin (codes "Write") init)) ≡ [])
    ↔ (501 ≤ base_trigger (codes "Write") * 2 ^ 1)
check-begin_example = check-begin 1 (codes "a.cc") 900 501 (codes "Write") init

abbrev long_function : FunctionState
long_function = record {
  in_a_function = true;
  lines_in_function = 1001;
  current_function = codes "Write";
}

abbrev long_report : Report
long_report = record {
  filename = codes "a.cc";
  linenum = 1200;
  category = codes "readability/fn_size";
  confidence = 2;
  message =
      codes
        "Small and focused functions are preferred: Write has 1001 non-comment lines (error triggered by exceeding 1000 lines).";
}

long_function-check : check 2 (codes "a.cc") 1200 long_function ≡ report long_report ∷ []
unfolding check error_level log2 log2_loop base_trigger decimal matches
long_function-check = refl

check-confidence_test : (2 ≤ 5) × (2 ≤ 5 → 2 ≤ long_report.confidence)
check-confidence_test =
    check-confidence 2 (codes "a.cc") 1200 long_function long_report long_function-check
