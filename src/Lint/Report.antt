-- ===== src/Lint/Report.antt =====
-- The module globals of tools/cpplint.py and the functions that report an error: _error_suppressions,
-- _cpplint_state and its accessors, _ShouldPrintError and Error.
--
-- The checks take the function Error as an argument and call it. A check is modelled by the calls
-- that it makes, in order, and the NOLINT suppressions that it records between them, as a list of
-- events; `perform` carries the events out. `none` there is the failed assertion of
-- _ShouldPrintError.
pub mod Laws
mod Runs
use ringfile.Prelude.{
  ℕ, ◌+◌, Bool, true, false, not, ◌&&◌, ◌||◌, ◌==◌, ltb, Option, none, some, List, [], ◌∷◌, ◌++◌,
  Text, same, if◌then◌else◌, codes,
}
use ringfile.Prelude.Strings.{decimal}
use ringfile.Lint.State
use ringfile.Lint.State.{CppLintState, filter_loop, increment_error_count}

-- A category, or `none` for the key None that suppresses all categories.
abbrev pub Key : Type 0
Key = Option Text

unfoldable pub same_key : Key → Key → Bool
same_key none none = true
same_key (some s) (some t) = same s t
same_key _ _ = false

-- The arguments of one call of Error.
pub record Report : Type 0 where
  pub filename : Text
  pub linenum : ℕ
  pub category : Text
  pub confidence : ℕ
  pub message : Text

pub data Event : Type 0 where
  report : Report → Event
  suppress : Key → ℕ → Event

-- The map from keys to sets of lines is the list of its pairs.
pub record Linter : Type 0 where
  pub state : CppLintState
  pub error_suppressions : List (Key × ℕ)
  pub stderr : List Text

abbrev pub start : Linter
start = record { state = State.init; error_suppressions = []; stderr = [] }

-- linenum in _error_suppressions.get(key, set())
unfoldable pub has_line : Key → ℕ → List (Key × ℕ) → Bool
unfolding same_key
has_line key line [] = false
has_line key line ((k, n) ∷ m) = (same_key k key && n == line) || has_line key line m

-- ResetNolintSuppressions
unfoldable pub reset_nolint_suppressions : Linter → Linter
reset_nolint_suppressions l = record l { error_suppressions = [] }

unfoldable pub is_error_suppressed_by_nolint : Text → ℕ → Linter → Bool
unfolding has_line
is_error_suppressed_by_nolint category linenum l =
    has_line (some category) linenum l.error_suppressions
    || has_line none linenum l.error_suppressions

-- The accessors of the one _CppLintState.
abbrev pub verbose_level : Linter → ℕ
verbose_level l = l.state.verbose_level

abbrev pub output_format : Linter → Text
output_format l = l.state.output_format

abbrev pub filters : Linter → List Text
filters l = l.state.filters

unfoldable pub set_output_format : Text → Linter → Linter
set_output_format format l = record l { state = State.set_output_format format l.state }

unfoldable pub set_verbose_level : ℕ → Linter → Linter × ℕ
set_verbose_level level l =
    let (s, old) = State.set_verbose_level level l.state in (record l { state = s }, old)

unfoldable pub set_counting_style : Text → Linter → Linter
set_counting_style style l = record l { state = State.set_counting_style style l.state }

unfoldable pub set_filters : Text → Linter → Linter × Option Text
set_filters flag l = let (s, r) = State.set_filters flag l.state in (record l { state = s }, r)

unfoldable pub add_filters : Text → Linter → Linter × Option Text
add_filters flag l = let (s, r) = State.add_filters flag l.state in (record l { state = s }, r)

unfoldable pub backup_filters : Linter → Linter
backup_filters l = record l { state = State.backup_filters l.state }

unfoldable pub restore_filters : Linter → Linter
restore_filters l = record l { state = State.restore_filters l.state }

-- `none` is the failed assertion.
unfoldable pub should_print_error : Text → ℕ → ℕ → Linter → Option Bool
unfolding is_error_suppressed_by_nolint
should_print_error category confidence linenum l =
    if is_error_suppressed_by_nolint category linenum l
    then some false
    else if ltb confidence l.state.verbose_level
    then some false
    else elim (filter_loop category false l.state.filters) [ none ↦ none | some b ↦ some (not b) ]

-- The line that Error writes.
unfoldable pub error_line : Text → Report → Text
error_line format r =
    (if same format (codes "vs7")
      then r.filename ++ codes "(" ++ decimal r.linenum ++ codes "):  "
      else if same format (codes "eclipse")
      then r.filename ++ codes ":" ++ decimal r.linenum ++ codes ": warning: "
      else r.filename ++ codes ":" ++ decimal r.linenum ++ codes ":  ")
    ++ r.message
    ++ codes "  ["
    ++ r.category
    ++ codes "] ["
    ++ decimal r.confidence
    ++ codes "]\n"

unfoldable pub print_error : Report → Linter → Linter
print_error r l = record l {
  state = increment_error_count r.category l.state;
  stderr = l.stderr ++ error_line l.state.output_format r ∷ [];
}

unfoldable pub error : Report → Linter → Option Linter
unfolding print_error
error r l = elim (should_print_error r.category r.confidence r.linenum l) [
  | none ↦ none
  | some b ↦ some (if b then print_error r l else l)
]

unfoldable pub perform_one : Event → Linter → Option Linter
perform_one (report r) l = error r l
perform_one (suppress key line) l =
    some (record l { error_suppressions = (key, line) ∷ l.error_suppressions })

unfoldable pub perform : List Event → Linter → Option Linter
unfolding perform_one
perform [] l = some l
perform (e ∷ es) l = elim (perform_one e l) [ none ↦ none | some l' ↦ perform es l' ]

unfoldable pub category_lines : List (Text × ℕ) → List Text
category_lines [] = []
category_lines ((c, n) ∷ d) =
    (codes "Category '" ++ c ++ codes "' errors found: " ++ decimal n ++ codes "\n")
    ∷ category_lines d

-- PrintErrorCounts; the dict is listed in an order of its own.
unfoldable pub print_error_counts : (List (Text × ℕ) → List (Text × ℕ)) → Linter → Linter
unfolding category_lines
print_error_counts iteritems l = record l {
  stderr =
      l.stderr
      ++ category_lines (iteritems l.state.errors_by_category)
      ++ (codes "Total errors found: " ++ decimal l.state.error_count ++ codes "\n") ∷ [];
}
