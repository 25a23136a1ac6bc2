-- ===== src/Lint/FileChecks/Guard/Complete.antt =====
-- Which header guards are accepted.
use ringfile.Prelude.{
  ◌≡◌, ◌≢◌, ◌↔◌, refl, sym, ap, ◌∙◌, true, Option, none, some, List, [], ◌∷◌, ◌++◌, Text, same,
  same_iff, Option-cases, ℕ, ◌+◌, arith, starts_with, codes, if◌then◌else◌, ◌⊎◌, Bool-cases, inl,
  inr, some_eq,
}
use ringfile.Lint.FileChecks.Guard.{
  find_guard, see_line, see_words, is_none, first_two, words_from, no_guard, any_guard_nolint,
  check_for_header_guard, Guard, guard_events, ifndef_events, endif_events, endif_comment, is_text,
}

append-ne-nil {ℓ} : {A : Type ℓ} (xs : List A) (y : A) (ys : List A) → xs ++ y ∷ ys ≢ []
append-ne-nil [] y ys h = cc
append-ne-nil (x ∷ xs) y ys h = cc

append-nil-left {ℓ} : {A : Type ℓ} (xs ys : List A) → xs ++ ys ≡ [] → (xs ≡ []) × (ys ≡ [])
append-nil-left [] ys h = (refl, h)
append-nil-left (x ∷ xs) ys h = cc

is_text_iff : (o : Option Text) (t : Text) → (is_text o t ≡ true) ↔ (o ≡ some t)
unfolding is_text
is_text_iff none t = (λ h. cc, λ h. cc)
is_text_iff (some s) t = (λ h. ap some ((same_iff s t).0 h), λ h. (same_iff s t).1 (some_eq h))

module _ (filename : Text) (lines : List Text) (cppvar : Text) (g : Guard) where
  ifndef_events-nil :
      (ifndef : Text) → (ifndef_events filename lines cppvar g ifndef ≡ []) ↔ (ifndef ≡ cppvar)
  unfolding ifndef_events
  ifndef_events-nil ifndef = elim (Bool-cases (same ifndef cppvar)) [
    | inl e ↦ (λ _. (same_iff ifndef cppvar).0 e, λ _. rw e)
    | inr e ↦
        (λ h. absurd (append-ne-nil _ _ _ (rw e at h)), λ p. cc (e, (same_iff ifndef cppvar).1 p))
  ]

  endif_events-nil :
      (endif_events filename lines cppvar g ≡ []) ↔ (g.endif ≡ some (endif_comment cppvar))
  unfolding endif_events
  endif_events-nil = elim (Bool-cases (is_text g.endif (endif_comment cppvar))) [
    | inl e ↦ (λ _. (is_text_iff g.endif (endif_comment cppvar)).0 e, λ _. rw e)
    | inr e ↦ (
      λ h. absurd (append-ne-nil _ _ _ (rw e at h)),
      λ p. cc (e, (is_text_iff g.endif (endif_comment cppvar)).1 p),
    )
  ]

  both_events-nil :
      (ifndef define : Text)
      → g.ifndef ≡ some ifndef
      → g.define ≡ some define
      → (guard_events filename lines cppvar g ≡ [])
        ↔ ((ifndef ≡ cppvar) × (define ≡ ifndef) × (g.endif ≡ some (endif_comment cppvar)))
  unfolding guard_events
  both_events-nil ifndef define e f = elim (Bool-cases (same define ifndef)) [
    | inl d ↦
        rw (e, guard_events, f, d)
          (
            λ h.
                let (a, b) = append-nil-left _ _ h in
                (
                  (ifndef_events-nil ifndef).0 a,
                  (same_iff define ifndef).0 d,
                  endif_events-nil.0 b,
                ),
            λ h. rw ((ifndef_events-nil ifndef).1 h.0, endif_events-nil.1 h.2),
          )
    | inr d ↦
        rw (e, guard_events, f, d)
          (λ h. absurd (append-ne-nil _ _ _ h), λ h. cc (d, (same_iff define ifndef).1 h.1))
  ]

  guard_events-nil : (guard_events filename lines cppvar g ≡ []) ↔ (
      (g.ifndef ≡ some cppvar) × (g.define ≡ some cppvar) × (g.endif ≡ some (endif_comment cppvar)))
  unfolding guard_events
  guard_events-nil = elim (Option-cases g.ifndef) [
    | inl e ↦ (λ h. cc (rw (e, guard_events) at h), λ h. cc (e, h.0))
    | inr (ifndef, e) ↦ elim (Option-cases g.define) [
      | inl f ↦ (λ h. cc (rw (e, guard_events, f) at h), λ h. cc (f, h.1))
      | inr (define, f) ↦
          let b = both_events-nil ifndef define e f in
          (
            λ h. let (p, q, r) = b.0 h in (e ∙ ap some p, f ∙ ap some (q ∙ p), r),
            λ h.
                let p : ifndef ≡ cppvar = some_eq (sym e ∙ h.0) in
                b.1 (p, some_eq (sym f ∙ h.1) ∙ sym p, h.2),
          )
    ]
  ]

-- The word behind the first one, in the first line that begins with a word and has a second one
pub first_name : Text → List Text → Option Text
first_name key [] = none
first_name key (l ∷ ls) = elim (first_two (words_from [] l)) [
  | none ↦ first_name key ls
  | some (a, b) ↦ if same a key then some b else first_name key ls
]

-- The last line that begins with #endif
pub last_endif : List Text → Option Text
last_endif [] = none
last_endif (l ∷ ls) = elim (last_endif ls) [
  | some e ↦ some e
  | none ↦ if starts_with l (codes "#endif") then some l else none
]

abbrev or_else : Option Text → Option Text → Option Text
or_else (some a) b = some a
or_else none b = b

or_else-none : (o : Option Text) → o ≡ or_else o none
or_else-none none = refl
or_else-none (some a) = refl

find_guard-ifndef :
    (n : ℕ) (ls : List Text) (g : Guard)
    → (find_guard n ls g).ifndef ≡ or_else g.ifndef (first_name (codes "#ifndef") ls)
unfolding find_guard see_line see_words is_none first_name
find_guard-ifndef n [] g = or_else-none g.ifndef
find_guard-ifndef n (l ∷ ls) g = ground (arith, find_guard-ifndef (n + 1) ls (see_line n l g))

find_guard-define :
    (n : ℕ) (ls : List Text) (g : Guard)
    → (find_guard n ls g).define ≡ or_else g.define (first_name (codes "#define") ls)
unfolding find_guard see_line see_words is_none first_name
find_guard-define n [] g = or_else-none g.define
find_guard-define n (l ∷ ls) g = ground (arith, find_guard-define (n + 1) ls (see_line n l g))

find_guard-endif :
    (n : ℕ) (ls : List Text) (g : Guard)
    → (find_guard n ls g).endif ≡ or_else (last_endif ls) g.endif
unfolding find_guard see_line see_words is_none last_endif
find_guard-endif n [] g = refl
find_guard-endif n (l ∷ ls) g = ground (arith, find_guard-endif (n + 1) ls (see_line n l g))

-- CheckForHeaderGuard makes no call exactly when a line has a comment NOLINT(build/header_guard), or when
-- the name of the first #ifndef and that of the first #define are both the variable of the file, and
-- the last #endif carries the comment with it. A call with a confidence of 0, as that for the variable
-- with one more underscore, is a call.
pub check_for_header_guard-nil :
    (cppvar filename : Text) (lines : List Text)
    → (check_for_header_guard cppvar filename lines ≡ []) ↔ (
        (any_guard_nolint lines ≡ true)
        ⊎ ((first_name (codes "#ifndef") lines ≡ some cppvar)
            × (first_name (codes "#define") lines ≡ some cppvar)
            × (last_endif lines ≡ some (endif_comment cppvar))))
unfolding check_for_header_guard
check_for_header_guard-nil cppvar filename lines =
    let g = find_guard 0 lines no_guard in
    let i = find_guard-ifndef 0 lines no_guard in
    let d = find_guard-define 0 lines no_guard in
    let e = find_guard-endif 0 lines no_guard ∙ sym (or_else-none (last_endif lines)) in
    let accepted = guard_events-nil filename lines cppvar g in
    elim (Bool-cases (any_guard_nolint lines)) [
      | inl n ↦ rw (check_for_header_guard, n) ((λ _. inl refl), (λ _. refl))
      | inr n ↦
          rw (check_for_header_guard, n)
            (
              (λ h. let (p, q, r) = accepted.0 h in inr (sym i ∙ p, sym d ∙ q, sym e ∙ r)),
              (λ h. elim h [ inl m ↦ cc | inr (p, q, r) ↦ accepted.1 (i ∙ p, d ∙ q, e ∙ r) ]),
            )
    ]
