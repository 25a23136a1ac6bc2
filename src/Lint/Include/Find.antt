-- ===== src/Lint/Include/Find.antt =====
-- Where a header was included before.
use mathlib.Core.List.{reverse-append}
use ringfile.Prelude.{
  ℕ, ◌≡◌, refl, ap, ◌∙◌, Option, none, some, List, [], ◌∷◌, ◌++◌, Text, arith, if◌then◌else◌,
  reverse, same, codes, Bool-cases, inl, inr,
}
use ringfile.Prelude.Strings.{one_of}
use ringfile.Lint.Include.{
  IncludeState, Entry, include_list, find_in, find_in_lists, find_header, add_header, reset_section,
}

-- the first of two results
abbrev pub or_else : Option ℕ → Option ℕ → Option ℕ
or_else (some n) o = some n
or_else none o = o

find_in-append :
    (header : Text) (es fs : List Entry)
    → find_in header (es ++ fs) ≡ or_else (find_in header es) (find_in header fs)
unfolding find_in
find_in-append header [] fs = refl
find_in-append header ((h, n) ∷ es) fs = ground (arith, find_in-append header es fs)

find_in_lists-append :
    (header : Text) (ls ms : List (List Entry))
    → find_in_lists header (ls ++ ms) ≡ or_else (find_in_lists header ls) (find_in_lists header ms)
unfolding find_in_lists
find_in_lists-append header [] ms = refl
find_in_lists-append header (l ∷ ls) ms = ground (arith, find_in_lists-append header ls ms)

find_in_lists-single :
    (header : Text) (l : List Entry) → find_in_lists header (l ∷ []) ≡ find_in header l
unfolding find_in_lists
find_in_lists-single header l = ground arith

-- the last list comes last
find_in_lists-reverse :
    (header : Text) (l : List Entry) (ls : List (List Entry))
    → find_in_lists header (reverse (l ∷ ls))
      ≡ or_else (find_in_lists header (reverse ls)) (find_in header l)
find_in_lists-reverse header l ls =
    ap (find_in_lists header) (reverse-append (l ∷ []) ls)
    ∙ (find_in_lists-append header (reverse ls) (l ∷ [])
        ∙ ap (or_else (find_in_lists header (reverse ls))) (find_in_lists-single header l))

find_header-split :
    (header : Text) (s : IncludeState)
    → find_header header s
      ≡ or_else (find_in_lists header (reverse s.earlier)) (find_in header s.last_list)
unfolding find_header include_list
find_header-split header s = find_in_lists-reverse header s.last_list s.earlier

or_else-none : (o : Option ℕ) → or_else o none ≡ o
or_else-none o = ground arith

-- After a header is added, FindHeader gives the line where a header was first included: what it gave
-- before, and for the new header, if it was not there, the new line.
pub find_header-add_header :
    (header new : Text) (line : ℕ) (s : IncludeState)
    → find_header header (add_header new line s)
      ≡ or_else (find_header header s) (if same new header then some line else none)
unfolding add_header find_in
find_header-add_header header new line s = simp (find_header-split, find_in-append) (ground arith)

-- A branch that an #else or #elif begins forgets the headers of the branch before it; #if and its
-- kin, and every other directive, forget none.
pub find_header-reset_section :
    (header directive : Text) (s : IncludeState)
    → find_header header (reset_section directive s) ≡ (
        if one_of directive (codes "if" ∷ codes "ifdef" ∷ codes "ifndef" ∷ [])
        then find_header header s
        else if one_of directive (codes "else" ∷ codes "elif" ∷ [])
        then find_in_lists header (reverse s.earlier)
        else find_header header s)
unfolding reset_section find_in find_in_lists
find_header-reset_section header directive s =
    elim (Bool-cases (one_of directive (codes "if" ∷ codes "ifdef" ∷ codes "ifndef" ∷ []))) [
      | inl p ↦ rw p (simp (find_header-split, find_in_lists-reverse, or_else-none))
      | inr p ↦ rw p (elim (Bool-cases (one_of directive (codes "else" ∷ codes "elif" ∷ []))) [
        | inl q ↦ rw q (simp (find_header-split, or_else-none))
        | inr q ↦ rw q (simp find_header-split)
      ])
    ]
