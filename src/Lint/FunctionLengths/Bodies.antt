-- ===== src/Lint/FunctionLengths/Bodies.antt =====
-- When a function body is reported as too long.
use ringfile.Prelude.{
  ℕ, zero, suc, ◌+◌, ◌*◌, ◌^◌, ◌≤◌, ◌≡◌, ◌↔◌, refl, sym, ap, ◌∙◌, List, [], ◌∷◌, ◌++◌, Text, arith,
}
use ringfile.Lint.Report.{Event}
use ringfile.Lint.Function.{FunctionState, begin, base_trigger, check}
use ringfile.Lint.Function.Length.{count_times, check-begin}
use ringfile.Lint.FunctionLengths.{
  Kind, opens, declares, unfound, ends, counted, blank, kind, act, check_for_function_lengths,
}

-- CheckForFunctionLengths on n lines from a number on, as ProcessFileData calls it.
pub check_from : ℕ → Text → List Text → ℕ → ℕ → FunctionState → FunctionState × List Event
check_from verbose filename lines i zero s = (s, [])
check_from verbose filename lines i (suc n) s =
    let (s', es) = check_for_function_lengths verbose filename lines i s in
    let (s'', fs) = check_from verbose filename lines (i + 1) n s' in (s'', es ++ fs)

-- n lines from a number on that neither open nor end a function
abbrev pub IsInner : Kind → Type 0
IsInner (opens name) = ⊥
IsInner unfound = ⊥
IsInner ends = ⊥
IsInner _ = Unit

unfoldable pub IsBody : List Text → ℕ → ℕ → Type 0
IsBody lines i zero = Unit
IsBody lines i (suc n) = IsInner (kind lines i) × IsBody lines (i + 1) n

one : Kind → ℕ
one counted = 1
one _ = 0

-- how many of the n lines from a number on are counted
pub counted_lines : List Text → ℕ → ℕ → ℕ
unfolding one
counted_lines lines i zero = 0
counted_lines lines i (suc n) = one (kind lines i) + counted_lines lines (i + 1) n

act-IsInner :
    (verbose : ℕ) (filename : Text) (i : ℕ) (k : Kind) (s : FunctionState)
    → IsInner k
    → act verbose filename i k s ≡ (count_times (one k) s, [])
unfolding act one count_times
act-IsInner verbose filename i declares s h = refl
act-IsInner verbose filename i counted s h = refl
act-IsInner verbose filename i blank s h = refl
act-IsInner verbose filename i (opens _) s h = elim h [ ]
act-IsInner verbose filename i unfound s h = elim h [ ]
act-IsInner verbose filename i ends s h = elim h [ ]

count_times-one :
    (k : Kind) (n : ℕ) (s : FunctionState)
    → count_times n (count_times (one k) s) ≡ count_times (one k + n) s
unfolding one count_times
count_times-one counted n s = let e : suc n ≡ 1 + n = omega arith in ap (λ m. count_times m s) e
count_times-one _ n s = let e : n ≡ 0 + n = omega arith in ap (λ m. count_times m s) e

append-empty : (es : List Event) → es ++ [] ≡ es
append-empty [] = refl
append-empty (e ∷ es) = ap (λ fs. e ∷ fs) (append-empty es)

check_from-act :
    (verbose : ℕ) (filename : Text) (lines : List Text) (i n : ℕ) (k : Kind) (s s' : FunctionState)
    (es : List Event)
    → kind lines i ≡ k
    → act verbose filename i k s ≡ (s', es)
    → (check_from verbose filename lines i (suc n) s).1
      ≡ es ++ (check_from verbose filename lines (i + 1) n s').1
unfolding check_from check_for_function_lengths
check_from-act verbose filename lines i n k s s' es h a =
    ap (λ p. p.1 ++ (check_from verbose filename lines (i + 1) n p.0).1)
      (ap (λ j. act verbose filename i j s) h ∙ a)

-- n lines of a body and the line that ends it
check_from-body :
    (verbose : ℕ) (filename : Text) (lines : List Text) (i n : ℕ) (s : FunctionState)
    → IsBody lines i n
    → kind lines (i + n) ≡ ends
    → (check_from verbose filename lines i (suc n) s).1
      ≡ check verbose filename (i + n) (count_times (counted_lines lines i n) s)
unfolding check_from check_for_function_lengths counted_lines IsBody count_times act
check_from-body verbose filename lines i zero s b h =
    let e : i + 0 ≡ i = omega arith in
    let h' : kind lines i ≡ ends = rw e at h in rw (h', e) (append-empty _)
check_from-body verbose filename lines i (suc n) s b h =
    let e : (i + 1) + n ≡ i + suc n = omega arith in
    let one_step = act-IsInner verbose filename i (kind lines i) s b.0 in
    let rest =
      check_from-body verbose filename lines (i + 1) n (count_times (one (kind lines i)) s) b.1
        (rw e h) in
    check_from-act verbose filename lines i (suc n) (kind lines i) s
      (count_times (one (kind lines i)) s) [] refl one_step
    ∙ (rest
        ∙ (ap
              (λ j.
                check verbose filename j (
                  count_times (counted_lines lines (i + 1) n) (count_times (one (kind lines i)) s)))
              e
            ∙ ap (check verbose filename (i + suc n))
                (count_times-one (kind lines i) (counted_lines lines (i + 1) n) s)))

-- A function is reported exactly when too many lines are counted between the line that opens its body
-- and the one that ends it: more than the trigger for its name at the verbosity.
pub check_from-function :
    (verbose : ℕ) (filename : Text) (lines : List Text) (i n : ℕ) (name : Text) (s : FunctionState)
    → kind lines i ≡ opens name
    → IsBody lines (i + 1) n
    → kind lines (i + 1 + n) ≡ ends
    → ((check_from verbose filename lines i (suc (suc n)) s).1 ≡ [])
      ↔ (counted_lines lines (i + 1) n ≤ base_trigger name * 2 ^ verbose)
unfolding check_from check_for_function_lengths act
check_from-function verbose filename lines i n name s h b k =
    let e = check_from-body verbose filename lines (i + 1) n (begin name s) b k in
    let r = check-begin verbose filename (i + 1 + n) (counted_lines lines (i + 1) n) name s in
    let f =
      check_from-act verbose filename lines i (suc n) (opens name) s (begin name s) [] h refl ∙ e in
    (λ a. r.0 (sym f ∙ a), λ c. f ∙ r.1 c)
