-- ===== src/Lint/State/Counts.antt =====
-- The error statistic: the total and the counts by category.
use ringfile.Prelude.{
  ℕ, ◌+◌, ◌≡◌, refl, true, ◌||◌, Option, none, some, List, [], ◌∷◌, Text, arith, length,
  if◌then◌else◌, codes, same, same_iff,
}
use ringfile.Lint.State.{
  CppLintState, Counts, count_of, bump, counted_as, count_under, increment_error_count,
  reset_error_counts,
}

-- the sum of the counts
pub total : Counts → ℕ
total [] = 0
total ((k, n) ∷ d) = n + total d

total-bump : (k : Text) (d : Counts) → total (bump k d) ≡ total d + 1
unfolding total bump
total-bump k [] = refl
total-bump k ((j, n) ∷ d) = ground (arith, total-bump k d)

count_of-bump :
    (k j : Text) (d : Counts)
    → count_of j (bump k d) ≡ (if same k j then count_of j d + 1 else count_of j d)
unfolding count_of bump
count_of-bump k j [] = ground arith
count_of-bump k j ((i, n) ∷ d) =
    ground (arith, count_of-bump k j d, same_iff i k, same_iff i j, same_iff k j)

-- IncrementErrorCount for each category of a list
pub report_all : List Text → CppLintState → CppLintState
report_all [] s = s
report_all (c ∷ cs) s = report_all cs (increment_error_count c s)

abbrev says : Text → Option Text → ℕ
says k none = 0
says k (some j) = if same j k then 1 else 0

-- how many categories of a list are counted under a key
pub occurrences : Text → Text → List Text → ℕ
occurrences counting k [] = 0
occurrences counting k (c ∷ cs) = says k (counted_as counting c) + occurrences counting k cs

count_of-count_under :
    (o : Option Text) (k : Text) (d : Counts)
    → count_of k (count_under o d) ≡ says k o + count_of k d
unfolding count_under
count_of-count_under none k d = omega arith
count_of-count_under (some j) k d = ground (arith, count_of-bump j k d)

report_all-counts :
    (k : Text) (cs : List Text) (s : CppLintState)
    → count_of k (report_all cs s).errors_by_category
      ≡ occurrences s.counting k cs + count_of k s.errors_by_category
unfolding report_all occurrences increment_error_count
report_all-counts k [] s = omega arith
report_all-counts k (c ∷ cs) s = omega (
  arith,
  report_all-counts k cs (increment_error_count c s),
  count_of-count_under (counted_as s.counting c) k s.errors_by_category,
)

report_all-error_count :
    (cs : List Text) (s : CppLintState) → (report_all cs s).error_count ≡ length cs + s.error_count
unfolding report_all increment_error_count
report_all-error_count [] s = omega arith
report_all-error_count (c ∷ cs) s =
    omega (arith, report_all-error_count cs (increment_error_count c s))

total-count_under :
    (counting c : Text) (d : Counts)
    → (same counting (codes "toplevel") || same counting (codes "detailed")) ≡ true
    → total (count_under (counted_as counting c) d) ≡ total d + 1
unfolding count_under counted_as
total-count_under counting c d h = rw h (total-bump _ d)

report_all-sum :
    (cs : List Text) (s : CppLintState)
    → (same s.counting (codes "toplevel") || same s.counting (codes "detailed")) ≡ true
    → total (report_all cs s).errors_by_category ≡ length cs + total s.errors_by_category
unfolding report_all increment_error_count
report_all-sum [] s h = omega arith
report_all-sum (c ∷ cs) s h = omega (
  arith,
  report_all-sum cs (increment_error_count c s) h,
  total-count_under s.counting c s.errors_by_category h,
)

-- After ResetErrorCounts and any errors, each key of the statistic has the number of the errors that
-- the counting style puts under it, and the total is the number of all errors.
pub report_all-reset :
    (k : Text) (cs : List Text) (s : CppLintState)
    → (count_of k (report_all cs (reset_error_counts s)).errors_by_category
        ≡ occurrences s.counting k cs)
      × ((report_all cs (reset_error_counts s)).error_count ≡ length cs)
unfolding reset_error_counts count_of
report_all-reset k cs s = (
  omega (arith, report_all-counts k cs (reset_error_counts s)),
  omega (arith, report_all-error_count cs (reset_error_counts s)),
)

-- With the style toplevel or detailed no error is missed in the statistic: its counts add up to the
-- total.
pub report_all-total :
    (cs : List Text) (s : CppLintState)
    → (same s.counting (codes "toplevel") || same s.counting (codes "detailed")) ≡ true
    → total (report_all cs (reset_error_counts s)).errors_by_category
      ≡ (report_all cs (reset_error_counts s)).error_count
unfolding reset_error_counts total
report_all-total cs s h = omega (
  arith,
  report_all-sum cs (reset_error_counts s) h,
  report_all-error_count cs (reset_error_counts s),
)
