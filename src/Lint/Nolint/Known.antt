-- ===== src/Lint/Nolint/Known.antt =====
-- What a NOLINT comment can suppress.
use ringfile.Prelude.{
  ℕ, ◌+◌, ◌≡◌, ◌⊎◌, inl, inr, refl, true, Option, none, some, Text, codes, All, Option-cases,
  Bool-cases, same, starts_with, ◌&&◌,
}
use ringfile.Prelude.Strings.{ends_with}
use ringfile.Lint.Regex.{search_re, group_of}
use ringfile.Lint.Report.{Event, report, suppress, Key}
use ringfile.Lint.Nolint.{parse_nolint_suppressions, nolint_events, nolint_re, is_category, inner}

-- a key under which _ShouldPrintError can look a category up
abbrev pub IsKnown : Key → Type 0
IsKnown none = Unit
IsKnown (some category) = is_category category ≡ true

abbrev pub IsSound : ℕ → Event → Type 0
IsSound linenum (suppress key line) = IsKnown key × ((line ≡ linenum) ⊎ (line ≡ linenum + 1))
IsSound linenum (report r) = (r.linenum ≡ linenum) × (r.category ≡ codes "readability/nolint")

nolint_events-IsSound :
    (filename : Text) (linenum line : ℕ) (o : Option Text)
    → (line ≡ linenum) ⊎ (line ≡ linenum + 1)
    → All (IsSound linenum) (nolint_events filename linenum line o)
unfolding nolint_events
nolint_events-IsSound filename linenum line none h = ((tt, h), tt)
nolint_events-IsSound filename linenum line (some c) h = elim (Bool-cases (same c (codes "(*)"))) [
  | inl e ↦ rw e ((tt, h), tt)
  | inr e ↦ rw e (elim (Bool-cases (starts_with c (codes "(") && ends_with c (codes ")"))) [
    | inr f ↦ rw f tt
    | inl f ↦ rw f (elim (Bool-cases (is_category (inner c))) [
      | inl g ↦ rw g ((g, h), tt)
      | inr g ↦ rw g ((refl, refl), tt)
    ])
  ])
]

-- Whatever the line holds, a suppression that it records is for all categories or for one of the
-- list of categories, and for the line or the one below it; what it reports is on the line, under
-- the category for NOLINT comments.
pub parse_nolint_suppressions-IsSound :
    (filename raw_line : Text) (linenum : ℕ)
    → All (IsSound linenum) (parse_nolint_suppressions filename raw_line linenum)
unfolding parse_nolint_suppressions
parse_nolint_suppressions-IsSound filename raw_line linenum =
    elim (Option-cases (search_re nolint_re raw_line)) [
      | inl e ↦ rw (e, parse_nolint_suppressions) tt
      | inr (h, e) ↦
          rw (e, parse_nolint_suppressions)
            (elim (Option-cases (group_of 1 h.groups)) [
              | inl f ↦
                  rw f (
                    nolint_events-IsSound filename linenum linenum (group_of 2 h.groups) (inl refl))
              | inr (next, f) ↦ rw f (
                  nolint_events-IsSound filename linenum (linenum + 1) (group_of 2 h.groups)
                    (inr refl))
            ])
    ]
