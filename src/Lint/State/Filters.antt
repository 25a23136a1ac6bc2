-- ===== src/Lint/State/Filters.antt =====
-- The category filters: which lists are accepted, and which filter decides.
use ringfile.Prelude.{
  ◌≡◌, refl, ◌↔◌, Bool, true, false, Option, none, some, List, [], ◌∷◌, ◌++◌, Text, All, All-append,
  All-left, All-right, arith, if◌then◌else◌, codes, starts_with, drop, Bool-cases, inl, inr, ◌≢◌, ℕ,
}
use ringfile.Lint.State.{
  CppLintState, default_filters, is_signed, clean_filters, first_unsigned, add_filters, set_filters,
  backup_filters, restore_filters, filter_step, filter_loop, init, increment_error_count,
  set_output_format, set_verbose_level, set_counting_style, reset_error_counts,
}

abbrev pub IsSigned : Text → Type 0
IsSigned f = is_signed f ≡ true

first_unsigned-none : (fs : List Text) → All IsSigned fs → first_unsigned fs ≡ none
unfolding first_unsigned
first_unsigned-none [] h = refl
first_unsigned-none (f ∷ fs) h = rw h.0 (first_unsigned-none fs h.1)

pub signed_of_none : (fs : List Text) → first_unsigned fs ≡ none → All IsSigned fs
unfolding first_unsigned
signed_of_none [] h = tt
signed_of_none (f ∷ fs) h = elim (Bool-cases (is_signed f)) [
  | inl e ↦ (e, signed_of_none fs (rw e at h))
  | inr e ↦ cc (rw e at h)
]

-- Both lists of filters are such that the loop of _ShouldPrintError accepts them.
pub record IsWellFormed (s : CppLintState) : Type 0 where
  pub filters : All IsSigned s.filters
  pub backup : All IsSigned s.filters_backup

-- AddFilters raises no ValueError exactly when the filters in place and those of the flag all begin
-- with + or -.
pub add_filters-accepts :
    (flag : Text) (s : CppLintState)
    → ((add_filters flag s).1 ≡ none) ↔ (All IsSigned s.filters × All IsSigned (clean_filters flag))
unfolding add_filters
add_filters-accepts flag s = (
  λ h.
      let a = signed_of_none (s.filters ++ clean_filters flag) h in
      (
        All-left IsSigned s.filters (clean_filters flag) a,
        All-right IsSigned s.filters (clean_filters flag) a,
      ),
  λ h.
      first_unsigned-none (s.filters ++ clean_filters flag)
        (All-append IsSigned s.filters (clean_filters flag) h.0 h.1),
)

-- The last filter of a list that applies to a category.
pub last_match : Text → List Text → Option Text
last_match category [] = none
last_match category (f ∷ fs) = elim (last_match category fs) [
  | some g ↦ some g
  | none ↦ if starts_with category (drop 1 f) then some f else none
]

-- What that filter says: whether the category is filtered out.
pub verdict : Bool → Option Text → Bool
verdict is_filtered none = is_filtered
verdict is_filtered (some f) = starts_with f (codes "-")

filter_step_signed :
    (category : Text) (b : Bool) (f : Text)
    → IsSigned f
    → filter_step category b f
      ≡ some (if starts_with category (drop 1 f) then starts_with f (codes "-") else b)
unfolding filter_step
filter_step_signed category b f h = ground arith

-- Over filters that begin with + or -, the loop of _ShouldPrintError passes its assertion and the
-- last filter that applies to the category decides; with none, the value before stands.
pub filter_loop-last_match :
    (category : Text) (b : Bool) (fs : List Text)
    → All IsSigned fs
    → filter_loop category b fs ≡ some (verdict b (last_match category fs))
unfolding filter_loop last_match verdict
filter_loop-last_match category b [] h = refl
filter_loop-last_match category b (f ∷ fs) h =
    rw (filter_step_signed category b f h.0, filter_loop)
      (ground (
        arith,
        filter_loop-last_match category
            (if starts_with category (drop 1 f) then starts_with f (codes "-") else b) fs h.1,
      ))

-- The operations of class _CppLintState that the program calls: the settings, the filter line of a
-- CPPLINT.cfg, the copy of the filters that is taken and put back around each file, and the counts. An
-- error of the filters ends the program.
pub data FilterStep : CppLintState → CppLintState → Type 0 where
  set_from_flag :
      (flag : Text) (s : CppLintState)
      → (set_filters flag s).1 ≡ none
      → FilterStep s (set_filters flag s).0
  add_from_config :
      (flag : Text) (s : CppLintState)
      → (add_filters flag s).1 ≡ none
      → FilterStep s (add_filters flag s).0
  backup : (s : CppLintState) → FilterStep s (backup_filters s)
  restore : (s : CppLintState) → FilterStep s (restore_filters s)
  output_format : (format : Text) (s : CppLintState) → FilterStep s (set_output_format format s)
  verbosity : (level : ℕ) (s : CppLintState) → FilterStep s (set_verbose_level level s).0
  counting_style : (style : Text) (s : CppLintState) → FilterStep s (set_counting_style style s)
  reset_counts : (s : CppLintState) → FilterStep s (reset_error_counts s)
  count : (category : Text) (s : CppLintState) → FilterStep s (increment_error_count category s)

pub data Reached : CppLintState → Type 0 where
  start : Reached init
  next : {s t : CppLintState} → Reached s → FilterStep s t → Reached t

FilterStep-IsWellFormed : {s t : CppLintState} → FilterStep s t → IsWellFormed s → IsWellFormed t
unfolding set_filters add_filters backup_filters restore_filters increment_error_count
    set_output_format set_verbose_level set_counting_style reset_error_counts
FilterStep-IsWellFormed (set_from_flag flag s ok) w = record {
  filters = signed_of_none (default_filters ++ clean_filters flag) ok;
  backup = w.backup;
}
FilterStep-IsWellFormed (add_from_config flag s ok) w = record {
  filters = signed_of_none (s.filters ++ clean_filters flag) ok;
  backup = w.backup;
}
FilterStep-IsWellFormed (backup s) w = record { filters = w.filters; backup = w.filters }
FilterStep-IsWellFormed (restore s) w = record { filters = w.backup; backup = w.backup }
FilterStep-IsWellFormed (output_format t s) w = record { filters = w.filters; backup = w.backup }
FilterStep-IsWellFormed (verbosity n s) w = record { filters = w.filters; backup = w.backup }
FilterStep-IsWellFormed (counting_style t s) w = record { filters = w.filters; backup = w.backup }
FilterStep-IsWellFormed (reset_counts s) w = record { filters = w.filters; backup = w.backup }
FilterStep-IsWellFormed (count c s) w = record { filters = w.filters; backup = w.backup }

init-IsWellFormed : IsWellFormed init
unfolding init starts_with
init-IsWellFormed = record { filters = (refl, tt); backup = (refl, tt) }

pub Reached-IsWellFormed : {s : CppLintState} → Reached s → IsWellFormed s
Reached-IsWellFormed start = init-IsWellFormed
Reached-IsWellFormed (next r st) = FilterStep-IsWellFormed st (Reached-IsWellFormed r)

-- In every state that the operations of class _CppLintState reach from its first one without a
-- ValueError, the loop of _ShouldPrintError
-- passes its assertion, whatever the category.
pub Reached-filter_loop :
    {s : CppLintState} (category : Text) → Reached s → filter_loop category false s.filters ≢ none
Reached-filter_loop {s} category r h =
    cc (filter_loop-last_match category false s.filters (Reached-IsWellFormed r).filters)

-- AddFilters for each of several lists
pub add_all : List Text → CppLintState → CppLintState
add_all [] s = s
add_all (flag ∷ flags) s = add_all flags (add_filters flag s).0

add_all-backup :
    (flags : List Text) (s : CppLintState) → (add_all flags s).filters_backup ≡ s.filters_backup
unfolding add_all add_filters
add_all-backup [] s = refl
add_all-backup (flag ∷ flags) s = add_all-backup flags (add_filters flag s).0

-- RestoreFilters undoes every AddFilters since the last BackupFilters.
pub restore_filters-add_all :
    (flags : List Text) (s : CppLintState)
    → (restore_filters (add_all flags (backup_filters s))).filters ≡ s.filters
unfolding restore_filters backup_filters
restore_filters-add_all flags s = add_all-backup flags (backup_filters s)
