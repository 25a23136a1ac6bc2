-- ===== src/Lint/Function/Length.antt =====
-- Which functions are reported as too long, and how sure the report is.
use native.Mathlib.Nat.{pow-suc}
use ringfile.Prelude.{
  ℕ, zero, suc, ◌+◌, ◌*◌, ◌/◌, ◌^◌, ◌≤◌, ◌<◌, ◌≡◌, ◌↔◌, refl, true, [], ◌∷◌, Text, arith, ltb,
  Bool-cases, ltb→lt, inl, inr,
}
use ringfile.Lint.Regex.{matches}
use ringfile.Lint.Report.{Report, report}
use ringfile.Lint.Function.{
  FunctionState, begin, count, base_trigger, log2_loop, log2, error_level, check, test_re,
}

pow_pos : (v : ℕ) → 0 < 2 ^ v
pow_pos zero = omega arith
pow_pos (suc v) = rw pow-suc (omega (arith, pow_pos v))

log2_loop-ge : (v fuel n : ℕ) → n ≤ fuel → 2 ^ v ≤ n → v ≤ log2_loop fuel n
unfolding log2_loop
log2_loop-ge zero fuel n h k = omega arith
log2_loop-ge (suc v) zero n h k = absurd (omega (arith, pow_pos (suc v)))
log2_loop-ge (suc v) (suc fuel) n h k =
    let q : 2 ^ v * 2 ≤ n = rw pow-suc at k in
    let p = pow_pos v in
    let r = log2_loop-ge v fuel (n / 2) (omega arith) (omega arith) in ground arith

error_level-le : (lines base : ℕ) → error_level lines base ≤ 5
unfolding error_level
error_level-le lines base = ground arith

error_level-ge : (lines base v : ℕ) → v ≤ 5 → 2 ^ v ≤ lines / base → v ≤ error_level lines base
unfolding error_level log2
error_level-ge lines base v h k =
    ground (arith, log2_loop-ge v (lines / base) (lines / base) (omega arith) k)

div_above :
    (lines p : ℕ) (name : Text) → base_trigger name * p < lines → p ≤ lines / base_trigger name
unfolding base_trigger
div_above lines p name h = elim (Bool-cases (matches test_re name)) [
  | inl e ↦ rw e (let h' : 400 * p < lines = rw e at h in omega arith)
  | inr e ↦ rw e (let h' : 250 * p < lines = rw e at h in omega arith)
]

-- A report of a function that is too long has a confidence of at most 5 and, at a verbosity of at
-- most 5, at least the verbosity: the verbosity that sets the limit never hides the report.
pub check-confidence :
    (v : ℕ) (filename : Text) (linenum : ℕ) (s : FunctionState) (r : Report)
    → check v filename linenum s ≡ report r ∷ []
    → (r.confidence ≤ 5) × (v ≤ 5 → v ≤ r.confidence)
unfolding check
check-confidence v filename linenum s r h =
    elim (Bool-cases (ltb (base_trigger s.current_function * 2 ^ v) s.lines_in_function)) [
      | inl e ↦
          let q : error_level s.lines_in_function (base_trigger s.current_function) ≡ r.confidence =
            ground arith in
          rw (← q) (
            error_level-le s.lines_in_function (base_trigger s.current_function),
            λ k.
                error_level-ge s.lines_in_function (base_trigger s.current_function) v k
                  (div_above s.lines_in_function (2 ^ v) s.current_function (ltb→lt _ _ e)),
          )
      | inr e ↦ ground arith
    ]

-- count, n times
unfoldable pub count_times : ℕ → FunctionState → FunctionState
count_times zero s = s
count_times (suc n) s = count_times n (count s)

count_times-begin :
    (n : ℕ) (s : FunctionState)
    → s.in_a_function ≡ true
    → ((count_times n s).lines_in_function ≡ n + s.lines_in_function)
      × ((count_times n s).current_function ≡ s.current_function)
unfolding count_times count
count_times-begin zero s h = (omega arith, refl)
count_times-begin (suc n) s h = ground (arith, count_times-begin n (count s))

-- A function in which n lines are counted is reported exactly when n exceeds the trigger for its
-- name at the verbosity, whatever stood before it.
pub check-begin :
    (v : ℕ) (filename : Text) (linenum n : ℕ) (name : Text) (s : FunctionState)
    → (check v filename linenum (count_times n (begin name s)) ≡ [])
      ↔ (n ≤ base_trigger name * 2 ^ v)
unfolding check begin
check-begin v filename linenum n name s =
    let c = count_times-begin n (begin name s) refl in rw (c.1, c.0) (ground arith, ground arith)
