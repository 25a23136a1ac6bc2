-- ===== src/Lint/Include/Order.antt =====
-- The order of the kinds of headers.
use ringfile.Prelude.{
  ℕ, ◌≤◌, ◌<◌, ◌≡◌, ◌≢◌, ◌↔◌, Bool, true, false, List, [], ◌∷◌, arith, if◌then◌else◌, Bool-cases,
  inl, inr,
}
use ringfile.Lint.Include.{
  HeaderType, c_sys_header, cpp_sys_header, likely_my_header, possible_my_header, IncludeState,
  next_section, check_next_include_order, error_message, init,
}

error_message_nonempty : (t : HeaderType) (n : ℕ) → error_message t n ≢ []
unfolding error_message
error_message_nonempty t n h = ground arith

-- The last section that a header of a type can come in.
abbrev pub latest : HeaderType → ℕ
latest c_sys_header = 2
latest cpp_sys_header = 3
latest _ = 4

-- The section moves forward through the numbers 0 to 4. A C system header behind section 2 and a C++
-- system header behind section 3 get a message that is not empty and leave the section where it is;
-- no other header gets a message.
pub check_next_include_order_lem :
    (t : HeaderType) (s : IncludeState)
    → s.section ≤ 4
    → (s.section ≤ (check_next_include_order t s).0.section)
      × ((check_next_include_order t s).0.section ≤ 4)
      × (((check_next_include_order t s).1 ≡ []) ↔ (s.section ≤ latest t))
      × (latest t < s.section → (check_next_include_order t s).0.section ≡ s.section)
unfolding check_next_include_order
check_next_include_order_lem c_sys_header s h =
    ground (arith, error_message_nonempty c_sys_header s.section)
check_next_include_order_lem cpp_sys_header s h =
    ground (arith, error_message_nonempty cpp_sys_header s.section)
check_next_include_order_lem _ s h = ground arith

-- Every header of a list is accepted, one after the other.
pub Accepted : List HeaderType → IncludeState → Type 0
Accepted [] s = Unit
Accepted (t ∷ ts) s =
    ((check_next_include_order t s).1 ≡ []) × Accepted ts (check_next_include_order t s).0

abbrev pub rank : HeaderType → ℕ
rank c_sys_header = 2
rank cpp_sys_header = 3
rank _ = 4

abbrev pub is_own : HeaderType → Bool
is_own likely_my_header = true
is_own possible_my_header = true
is_own _ = false

pub drop_own : List HeaderType → List HeaderType
drop_own [] = []
drop_own (t ∷ ts) = if is_own t then drop_own ts else t ∷ ts

-- The ranks of a list do not fall, and the first is at least n.
pub IsSortedFrom : ℕ → List HeaderType → Type 0
IsSortedFrom n [] = Unit
IsSortedFrom n (t ∷ ts) = (n ≤ rank t) × IsSortedFrom (rank t) ts

later_accepts :
    (t : HeaderType) (s : IncludeState)
    → 2 ≤ s.section
    → s.section ≤ 4
    → ((check_next_include_order t s).1 ≡ []) ↔ (s.section ≤ rank t)
unfolding check_next_include_order next_section
later_accepts c_sys_header s l h = ground (arith, error_message_nonempty c_sys_header s.section)
later_accepts cpp_sys_header s l h = ground (arith, error_message_nonempty cpp_sys_header s.section)
later_accepts _ s l h = ground arith

later_section :
    (t : HeaderType) (s : IncludeState)
    → 2 ≤ s.section
    → s.section ≤ rank t
    → (check_next_include_order t s).0.section ≡ rank t
unfolding check_next_include_order next_section
later_section c_sys_header s l h = ground arith
later_section _ s l h = ground arith

rank_bounds : (t : HeaderType) → (2 ≤ rank t) × (rank t ≤ 4)
rank_bounds c_sys_header = omega arith
rank_bounds _ = omega arith

later_sorted :
    (ts : List HeaderType) (s : IncludeState)
    → 2 ≤ s.section
    → s.section ≤ 4
    → Accepted ts s ↔ IsSortedFrom s.section ts
unfolding Accepted IsSortedFrom
later_sorted [] s l h = (λ x. tt, λ x. tt)
later_sorted (t ∷ ts) s l h =
    let t_ok = later_accepts t s l h in
    let s' = (check_next_include_order t s).0 in
    let b = rank_bounds t in
    (
      λ a.
          let le : s.section ≤ rank t = t_ok.0 a.0 in
          let e : s'.section ≡ rank t = later_section t s l le in
          (le, rw e at ((later_sorted ts s' (rw e b.0) (rw e b.1)).0 a.1)),
      λ a.
          let e : s'.section ≡ rank t = later_section t s l a.0 in
          (t_ok.1 a.0, (later_sorted ts s' (rw e b.0) (rw e b.1)).1 (rw e a.1)),
    )

first_other :
    (t : HeaderType) (s : IncludeState)
    → s.section ≤ 1
    → is_own t ≡ false
    → ((check_next_include_order t s).1 ≡ []) × ((check_next_include_order t s).0.section ≡ rank t)
unfolding check_next_include_order next_section
first_other c_sys_header s h e = ground arith
first_other _ s h e = ground arith

first_own :
    (t : HeaderType) (s : IncludeState)
    → s.section ≤ 1
    → is_own t ≡ true
    → ((check_next_include_order t s).1 ≡ []) × ((check_next_include_order t s).0.section ≤ 1)
unfolding check_next_include_order next_section
first_own c_sys_header s h e = ground arith
first_own _ s h e = ground arith

early_sorted :
    (ts : List HeaderType) (s : IncludeState)
    → s.section ≤ 1
    → Accepted ts s ↔ IsSortedFrom 0 (drop_own ts)
unfolding Accepted IsSortedFrom drop_own
early_sorted [] s h = (λ x. tt, λ x. tt)
early_sorted (t ∷ ts) s h = elim (Bool-cases (is_own t)) [
  | inl e ↦
      let f = first_own t s h e in
      let ih = early_sorted ts (check_next_include_order t s).0 f.1 in
      rw e ((λ a. ih.0 a.1), (λ a. (f.0, ih.1 a)))
  | inr e ↦
      let f = first_other t s h e in
      let s' = (check_next_include_order t s).0 in
      let b = rank_bounds t in
      let ih = later_sorted ts s' (rw f.1 b.0) (rw f.1 b.1) in
      rw e ((λ a. (omega arith, rw f.1 at (ih.0 a.1))), (λ a. (f.0, ih.1 (rw f.1 a.1))))
]

-- From the start of a section, a sequence of headers is accepted exactly when, behind the leading
-- headers that the file implements or may implement, the ranks do not fall: C system headers come
-- first, then C++ system headers, then all others, the file's own ones among these.
pub init-Accepted : (ts : List HeaderType) → Accepted ts init ↔ IsSortedFrom 0 (drop_own ts)
unfolding init
init-Accepted ts = early_sorted ts init (omega arith)
