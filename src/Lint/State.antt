-- ===== src/Lint/State.antt =====
-- class _CppLintState of tools/cpplint.py: verbosity, filters and error counts.
pub mod Filters
pub mod Counts
mod Runs
use ringfile.Prelude.{
  ℕ, zero, suc, ◌+◌, Bool, true, false, not, ◌&&◌, ◌||◌, Option, none, some, List, [], ◌∷◌, ◌++◌,
  Text, same, if◌then◌else◌, codes, starts_with, map, drop,
}
use ringfile.Prelude.Strings.{is_space, strip, split, split_first}

-- A dict from texts to counts, without the order of its keys.
abbrev pub Counts : Type 0
Counts = List (Text × ℕ)

-- d.get(k, 0)
unfoldable pub count_of : Text → Counts → ℕ
count_of k [] = 0
count_of k ((j, n) ∷ d) = if same j k then n else count_of k d

-- `if k not in d: d[k] = 0`, then `d[k] += 1`
unfoldable pub bump : Text → Counts → Counts
bump k [] = (k, 1) ∷ []
bump k ((j, n) ∷ d) = if same j k then (j, n + 1) ∷ d else (j, n) ∷ bump k d

pub record CppLintState : Type 0 where
  pub verbose_level : ℕ
  pub error_count : ℕ
  pub filters : List Text
  pub filters_backup : List Text
  pub counting : Text
  pub errors_by_category : Counts
  pub output_format : Text

abbrev pub default_filters : List Text
default_filters = codes "-build/include_alpha" ∷ []

-- __init__
unfoldable pub init : CppLintState
init = record {
  verbose_level = 1;
  error_count = 0;
  filters = default_filters;
  filters_backup = default_filters;
  counting = codes "total";
  errors_by_category = [];
  output_format = codes "emacs";
}

unfoldable pub set_output_format : Text → CppLintState → CppLintState
set_output_format format s = record s { output_format = format }

-- The new state and the level before.
unfoldable pub set_verbose_level : ℕ → CppLintState → CppLintState × ℕ
set_verbose_level level s = (record s { verbose_level = level }, s.verbose_level)

unfoldable pub set_counting_style : Text → CppLintState → CppLintState
set_counting_style style s = record s { counting = style }

abbrev pub is_signed : Text → Bool
is_signed f = starts_with f (codes "+") || starts_with f (codes "-")

-- the filters of a flag, stripped, without the empty ones
unfoldable pub nonempty : List Text → List Text
nonempty [] = []
nonempty ([] ∷ ts) = nonempty ts
nonempty ((x ∷ t) ∷ ts) = (x ∷ t) ∷ nonempty ts

unfoldable pub clean_filters : Text → List Text
unfolding nonempty strip split is_space
clean_filters flag = nonempty (map (strip is_space) (split b',' flag))

unfoldable pub first_unsigned : List Text → Option Text
unfolding starts_with
first_unsigned [] = none
first_unsigned (f ∷ fs) = if is_signed f then first_unsigned fs else some f

-- The new state and, if ValueError is raised, the filter that it names. The filters are in place
-- when it is raised.
unfoldable pub add_filters : Text → CppLintState → CppLintState × Option Text
add_filters flag s =
    let fs = s.filters ++ clean_filters flag in (record s { filters = fs }, first_unsigned fs)

unfoldable pub set_filters : Text → CppLintState → CppLintState × Option Text
unfolding add_filters
set_filters flag s = add_filters flag (record s { filters = default_filters })

unfoldable pub backup_filters : CppLintState → CppLintState
backup_filters s = record s { filters_backup = s.filters }

unfoldable pub restore_filters : CppLintState → CppLintState
restore_filters s = record s { filters = s.filters_backup }

unfoldable pub reset_error_counts : CppLintState → CppLintState
reset_error_counts s = record s { error_count = 0; errors_by_category = [] }

-- category.split('/')[0]
unfoldable pub top_level : Text → Text
unfolding split_first
top_level category = (split_first b'/' category).0

-- the key under which an error is counted, if the counting style has one
unfoldable pub counted_as : Text → Text → Option Text
unfolding top_level
counted_as counting category =
    if same counting (codes "toplevel") || same counting (codes "detailed")
    then some (if same counting (codes "detailed") then category else top_level category)
    else none

unfoldable pub count_under : Option Text → Counts → Counts
count_under none d = d
count_under (some k) d = bump k d

unfoldable pub increment_error_count : Text → CppLintState → CppLintState
unfolding count_under
increment_error_count category s = record s {
  error_count = s.error_count + 1;
  errors_by_category = count_under (counted_as s.counting category) s.errors_by_category;
}

-- One round of the loop over the filters in _ShouldPrintError; `none` is the failed assertion.
unfoldable pub filter_step : Text → Bool → Text → Option Bool
filter_step category is_filtered f =
    if starts_with f (codes "-")
    then some (if starts_with category (drop 1 f) then true else is_filtered)
    else if starts_with f (codes "+")
    then some (if starts_with category (drop 1 f) then false else is_filtered)
    else none

unfoldable pub filter_loop : Text → Bool → List Text → Option Bool
filter_loop category is_filtered [] = some is_filtered
filter_loop category is_filtered (f ∷ fs) = elim (filter_step category is_filtered f) [
  | none ↦ none
  | some b ↦ filter_loop category b fs
]
