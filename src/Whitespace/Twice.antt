-- ===== src/Whitespace/Twice.antt =====
-- What FixWhitespace makes of the lines of a file, and of its own result.
use mathlib.Core.List.{reverse-append, reverse-reverse}
use ringfile.Prelude.{
  ℕ, ◌+◌, ◌≡◌, refl, sym, ap, ◌∙◌, Bool, List, [], ◌∷◌, ◌++◌, Text, same, same_iff, codes, map,
  reverse, arith, Bool-cases, inl, inr,
}
use ringfile.Prelude.Strings.{is_space, rstrip, drop_while}
use ringfile.Whitespace.{
  take_while, trailing_whitespace, fix_line, line_message, fix_from, fix_whitespace,
}

-- a line with one newline in place of the white space at its end
abbrev pub clean_line : Text → Text
clean_line line = rstrip is_space line ++ codes "\n"

take_while-append : (p : ℕ → Bool) (s : Text) → take_while p s ++ drop_while p s ≡ s
unfolding take_while drop_while
take_while-append p [] = refl
take_while-append p (x ∷ s) = ground (arith, take_while-append p s)

take_while-drop_while : (p : ℕ → Bool) (s : Text) → take_while p (drop_while p s) ≡ []
unfolding take_while drop_while
take_while-drop_while p [] = refl
take_while-drop_while p (x ∷ s) = ground (arith, take_while-drop_while p s)

rstrip-append : (line : Text) → rstrip is_space line ++ trailing_whitespace line ≡ line
unfolding rstrip trailing_whitespace
rstrip-append line =
    sym (reverse-append (take_while is_space (reverse line)) (drop_while is_space (reverse line)))
    ∙ (ap reverse (take_while-append is_space (reverse line)) ∙ reverse-reverse line)

trailing-clean_line : (line : Text) → trailing_whitespace (clean_line line) ≡ codes "\n"
unfolding rstrip trailing_whitespace take_while is_space
trailing-clean_line line =
    let r = drop_while is_space (reverse line) in
    let e : reverse (reverse r ++ codes "\n") ≡ 10 ∷ r =
      reverse-append (reverse r) (codes "\n") ∙ ap (λ s. 10 ∷ s) (reverse-reverse r) in
    ap (λ s. reverse (take_while is_space s)) e
    ∙ ap (λ s. reverse (10 ∷ s)) (take_while-drop_while is_space (reverse line))

fix_line_lem : (line : Text) → fix_line line ≡ clean_line line
unfolding fix_line
fix_line_lem line = elim (Bool-cases (same (trailing_whitespace line) (codes "\n"))) [
  | inl e ↦
      let t = (same_iff (trailing_whitespace line) (codes "\n")).0 e in
      rw e (sym (rstrip-append line) ∙ ap (λ s. rstrip is_space line ++ s) t)
  | inr e ↦ rw e refl
]

fix_from-lines :
    (repr : Text → Text) (path : Text) (i : ℕ) (ls : List Text)
    → (fix_from repr path i ls).0 ≡ map clean_line ls
unfolding fix_from
fix_from-lines repr path i [] = refl
fix_from-lines repr path i (l ∷ ls) = rw (fix_line_lem l, fix_from-lines repr path (i + 1) ls) refl

fix_line-clean_line : (line : Text) → fix_line (clean_line line) ≡ clean_line line
unfolding fix_line
fix_line-clean_line line =
    let e =
      (same_iff (trailing_whitespace (clean_line line)) (codes "\n")).1
        (trailing-clean_line line) in
    rw e refl

line_message-clean_line :
    (repr : Text → Text) (path : Text) (i : ℕ) (line : Text)
    → line_message repr path i (clean_line line) ≡ []
unfolding line_message
line_message-clean_line repr path i line =
    let e =
      (same_iff (trailing_whitespace (clean_line line)) (codes "\n")).1
        (trailing-clean_line line) in
    rw e refl

fix_from-clean :
    (repr : Text → Text) (path : Text) (i : ℕ) (ls : List Text)
    → fix_from repr path i (map clean_line ls) ≡ (map clean_line ls, [])
unfolding fix_from
fix_from-clean repr path i [] = refl
fix_from-clean repr path i (l ∷ ls) =
    rw
      (
        fix_line-clean_line l,
        line_message-clean_line repr path i l,
        fix_from-clean repr path (i + 1) ls,
      )
      refl

-- FixWhitespace puts one newline in place of the white space at the end of every line, and when it is
-- run again on its result it prints nothing and changes nothing.
pub fix_whitespace-twice :
    (repr : Text → Text) (path : Text) (lines : List Text)
    → ((fix_whitespace repr path lines).0 ≡ map clean_line lines)
      × (fix_whitespace repr path (fix_whitespace repr path lines).0 ≡ (map clean_line lines, []))
unfolding fix_whitespace
fix_whitespace-twice repr path lines =
    let e = fix_from-lines repr path 0 lines in
    (e, ap (fix_from repr path 0) e ∙ fix_from-clean repr path 0 lines)
