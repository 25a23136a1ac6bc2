-- ===== src/Lint/LineChecks/Listed.antt =====
-- The checks of lines report under the categories of the list.
use ringfile.Prelude.{
  ℕ, ◌≡◌, refl, Bool, true, false, List, [], ◌∷◌, Text, All, All-append, if◌then◌else◌, codes, same,
  length, Option-cases, inl, inr,
}
use ringfile.Prelude.Strings.{one_of}
use ringfile.Lint.Report.{Event, report, suppress}
use ringfile.Lint.Categories.{error_categories}
use ringfile.Lint.Regex.{searches, matches, match_re, group_or_empty}
use ringfile.Lint.FileChecks.{call}
use ringfile.Lint.FileChecks.Guard.{line_at}
use ringfile.Lint.Brackets.{close_expression}
use ringfile.Lint.Nolint.{is_category}
use ringfile.Lint.LineChecks.{
  Threading, threading_events, threading_re, threading_list, check_posix_threading,
  check_vlog_arguments, vlog_re, check_invalid_increment, invalid_increment_re,
  check_make_pair_uses_deduction, make_pair_re, check_default_lambda_captures, capture_re,
  is_lambda,
}

-- An error on that line, under a category that a NOLINT comment can name.
abbrev pub IsListed : ℕ → Event → Type 0
IsListed linenum (report r) = (r.linenum ≡ linenum) × (is_category r.category ≡ true)
IsListed linenum (suppress key line) = ⊥

one_call :
    (b : Bool) (filename : Text) (linenum : ℕ) (category : Text) (confidence : ℕ) (message : Text)
    → is_category category ≡ true
    → All
        (IsListed linenum)
        (if b then call filename linenum category confidence message ∷ [] else [])
one_call true filename linenum category confidence message h = ((refl, h), tt)
one_call false filename linenum category confidence message h = tt

threading_events-IsListed :
    (filename line : Text) (linenum : ℕ) (ts : List Threading)
    → All (IsListed linenum) (threading_events filename line linenum ts)
unfolding threading_events is_category one_of error_categories same
threading_events-IsListed filename line linenum [] = tt
threading_events-IsListed filename line linenum (t ∷ ts) =
    All-append (IsListed linenum) _ (threading_events filename line linenum ts)
      (one_call (searches (threading_re t) line) filename linenum (codes "runtime/threadsafe_fn") 2
        _ refl)
      (threading_events-IsListed filename line linenum ts)

captures-IsListed :
    (filename : Text) (elided : List Text) (linenum : ℕ)
    → All (IsListed linenum) (check_default_lambda_captures filename elided linenum)
unfolding check_default_lambda_captures is_category one_of error_categories same
captures-IsListed filename elided linenum =
    elim (Option-cases (match_re capture_re (line_at elided linenum))) [
      | inl e ↦ rw (check_default_lambda_captures, e) tt
      | inr (h, e) ↦
          elim (Option-cases (close_expression elided linenum (length (group_or_empty 1 h)))) [
            | inl f ↦ rw (check_default_lambda_captures, e, f) tt
            | inr (place, f) ↦
                rw (check_default_lambda_captures, e, f)
                  (one_call (is_lambda place) filename linenum (codes "build/c++11") 4
                    (codes "Default lambda captures are an unapproved C++ feature.") refl)
          ]
    ]

-- What the checks of threading, VLOG, increments, make_pair and lambda captures report is on their
-- line and under a category of _ERROR_CATEGORIES, so that a NOLINT comment can name it.
pub line_checks-IsListed :
    (filename line : Text) (elided : List Text) (linenum : ℕ)
    → All (IsListed linenum) (check_posix_threading filename line linenum)
      × All (IsListed linenum) (check_vlog_arguments filename line linenum)
      × All (IsListed linenum) (check_invalid_increment filename line linenum)
      × All (IsListed linenum) (check_make_pair_uses_deduction filename line linenum)
      × All (IsListed linenum) (check_default_lambda_captures filename elided linenum)
unfolding check_posix_threading check_vlog_arguments check_invalid_increment
    check_make_pair_uses_deduction is_category one_of error_categories same
line_checks-IsListed filename line elided linenum = (
  threading_events-IsListed filename line linenum threading_list,
  one_call (searches vlog_re line) filename linenum (codes "runtime/vlog") 5 _ refl,
  one_call (matches invalid_increment_re line) filename linenum (codes "runtime/invalid_increment")
      5 _ refl,
  one_call (searches make_pair_re line) filename linenum (codes "build/explicit_make_pair") 4 _
      refl,
  captures-IsListed filename elided linenum,
)
