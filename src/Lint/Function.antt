-- ===== src/Lint/Function.antt =====
-- class _FunctionState of tools/cpplint.py: the length of the function body at hand.
pub mod Length
mod Runs
use ringfile.Prelude.{
  ℕ, zero, suc, ◌+◌, ◌*◌, ◌/◌, ◌^◌, Bool, true, false, List, [], ◌∷◌, ◌++◌, Text, if◌then◌else◌,
  codes, ltb,
}
use ringfile.Prelude.Strings.{decimal}
use ringfile.Lint.Regex.{Re, matches, all_of, any_of, lit, char}
use ringfile.Lint.Report.{Event, report}

pub record FunctionState : Type 0 where
  pub in_a_function : Bool
  pub lines_in_function : ℕ
  pub current_function : Text

unfoldable pub init : FunctionState
init = record { in_a_function = false; lines_in_function = 0; current_function = [] }

unfoldable pub begin : Text → FunctionState → FunctionState
begin name s = record { in_a_function = true; lines_in_function = 0; current_function = name }

unfoldable pub count : FunctionState → FunctionState
count s = if s.in_a_function then record s { lines_in_function = s.lines_in_function + 1 } else s

abbrev pub normal_trigger : ℕ
normal_trigger = 250

abbrev pub test_trigger : ℕ
test_trigger = 400

-- r'T(EST|est)'
abbrev pub test_re : Re
test_re = all_of (char b'T' ∷ any_of (lit (codes "EST") ∷ lit (codes "est") ∷ []) ∷ [])

unfoldable pub base_trigger : Text → ℕ
base_trigger name = if matches test_re name then test_trigger else normal_trigger

-- int(math.log(n, 2)) for a positive n: how often n can be halved, for which n rounds are enough.
unfoldable pub log2_loop : ℕ → ℕ → ℕ
log2_loop zero n = 0
log2_loop (suc fuel) n = elim (ltb n 2) [ true ↦ 0 | false ↦ suc (log2_loop fuel (n / 2)) ]

unfoldable pub log2 : ℕ → ℕ
log2 n = log2_loop n n

unfoldable pub error_level : ℕ → ℕ → ℕ
error_level lines base = let level = log2 (lines / base) in if ltb 5 level then 5 else level

-- Check, at a verbosity of at least 0.
unfoldable pub check : ℕ → Text → ℕ → FunctionState → List Event
unfolding base_trigger
check verbose filename linenum s =
    let base = base_trigger s.current_function in
    let trigger = base * 2 ^ verbose in
    if ltb trigger s.lines_in_function
    then report (record {
      filename = filename;
      linenum = linenum;
      category = codes "readability/fn_size";
      confidence = error_level s.lines_in_function base;
      message =
          codes "Small and focused functions are preferred: "
          ++ s.current_function
          ++ codes " has "
          ++ decimal s.lines_in_function
          ++ codes " non-comment lines (error triggered by exceeding "
          ++ decimal trigger
          ++ codes " lines).";
    })
      ∷ []
    else []

-- End
unfoldable pub finish : FunctionState → FunctionState
finish s = record s { in_a_function = false }
