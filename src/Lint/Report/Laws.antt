-- ===== src/Lint/Report/Laws.antt =====
-- What Error prints, and what a sequence of errors and suppressions does to the linter.
use ringfile.Prelude.{
  ◌+◌, ◌≡◌, refl, Bool, false, not, ◌&&◌, leb, some, List, [], ◌∷◌, ◌++◌, arith, if◌then◌else◌,
  length, length-append, Bool-cases, inl, inr, Option-cases, ◌⊎◌,
}
use ringfile.Lint.State.{increment_error_count}
use ringfile.Lint.State.Filters.{IsWellFormed, last_match, verdict, filter_loop-last_match}
use ringfile.Lint.Report.{
  Linter, Report, Event, report, suppress, is_error_suppressed_by_nolint, should_print_error,
  print_error, error, error_line, perform_one, perform,
}

-- Whether Error prints a report.
pub prints : Report → Linter → Bool
prints r l =
    not (is_error_suppressed_by_nolint r.category r.linenum l)
    && leb l.state.verbose_level r.confidence
    && not (verdict false (last_match r.category l.state.filters))

error_branches :
    (r : Report) (l : Linter)
    → IsWellFormed l.state
    → error r l ≡ some (if prints r l then print_error r l else l)
unfolding error should_print_error prints
error_branches r l w =
    ground (arith, filter_loop-last_match r.category false l.state.filters w.filters)

-- The linter behind an error that is printed: one more line on stderr, and one more error.
abbrev pub printed : Report → Linter → Linter
printed r l = record l {
  state = increment_error_count r.category l.state;
  stderr = l.stderr ++ error_line l.state.output_format r ∷ [];
}

-- With filters that begin with + or -, Error passes its assertion. If no NOLINT covers the category on
-- that line, the confidence reaches the verbosity, and the last filter that applies to the category is
-- not one that begins with -, it writes the line of the report behind those on stderr and increments
-- the error counts, by one in the total; else it changes nothing.
pub error_lem :
    (r : Report) (l : Linter)
    → IsWellFormed l.state
    → (error r l ≡ some (if prints r l then printed r l else l))
      × ((printed r l).state.error_count ≡ l.state.error_count + 1)
unfolding print_error increment_error_count
error_lem r l w = (error_branches r l w, refl)

print_error-IsWellFormed :
    (r : Report) (l : Linter) → IsWellFormed l.state → IsWellFormed (print_error r l).state
unfolding print_error increment_error_count
print_error-IsWellFormed r l w = record { filters = w.filters; backup = w.backup }

perform_one-IsWellFormed :
    (e : Event) (l : Linter)
    → IsWellFormed l.state
    → (l' : Linter) × (perform_one e l ≡ some l') × IsWellFormed l'.state
unfolding perform_one
perform_one-IsWellFormed (suppress key line) l w =
    (record l { error_suppressions = (key, line) ∷ l.error_suppressions }, refl, w)
perform_one-IsWellFormed (report r) l w = elim (Bool-cases (prints r l)) [
  | inl e ↦ (print_error r l, rw (error_branches r l w, e), print_error-IsWellFormed r l w)
  | inr e ↦ (l, rw (error_branches r l w, e), w)
]

-- From filters that begin with + or -, any sequence of errors and suppressions runs to its end, and
-- the filters are such again.
pub perform_total :
    (es : List Event) (l : Linter)
    → IsWellFormed l.state
    → (l' : Linter) × (perform es l ≡ some l') × IsWellFormed l'.state
unfolding perform
perform_total [] l w = (l, refl, w)
perform_total (e ∷ es) l w =
    let (l', p, w') = perform_one-IsWellFormed e l w in
    let (l'', q, w'') = perform_total es l' w' in (l'', rw (p, perform) q, w'')

error_cases : (r : Report) (l l' : Linter) → error r l ≡ some l' → (l' ≡ print_error r l) ⊎ (l' ≡ l)
unfolding error
error_cases r l l' h = ground arith

print_error-balance :
    (r : Report) (l : Linter)
    → (length (print_error r l).stderr ≡ length l.stderr + 1)
      × ((print_error r l).state.error_count ≡ l.state.error_count + 1)
unfolding print_error increment_error_count
print_error-balance r l = (length-append l.stderr _, refl)

perform_one-balance :
    (e : Event) (l l' : Linter)
    → perform_one e l ≡ some l'
    → length l'.stderr + l.state.error_count ≡ length l.stderr + l'.state.error_count
unfolding perform_one
perform_one-balance (suppress key line) l l' h = ground arith
perform_one-balance (report r) l l' h = elim (error_cases r l l' h) [
  | inl p ↦ rw p (omega (arith, print_error-balance r l))
  | inr p ↦ rw p (omega arith)
]

-- Over any sequence of errors and suppressions that runs to its end, the lines on stderr and the count
-- of errors grow by the same number.
pub perform-balance :
    (es : List Event) (l l' : Linter)
    → perform es l ≡ some l'
    → length l'.stderr + l.state.error_count ≡ length l.stderr + l'.state.error_count
unfolding perform
perform-balance [] l l' h = ground arith
perform-balance (e ∷ es) l l' h = elim (Option-cases (perform_one e l)) [
  | inl p ↦ cc (rw (p, perform) at h)
  | inr (m, p) ↦
      omega (arith, perform_one-balance e l m p, perform-balance es m l' (rw (p, perform) at h))
]
