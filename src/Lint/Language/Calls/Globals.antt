-- ===== src/Lint/Language/Calls/Globals.antt =====
-- CheckGlobalStatic of tools/cpplint.py.
use ringfile.Prelude.{
  ℕ, ◌+◌, Bool, false, not, ◌&&◌, ◌||◌, ltb, leb, none, some, List, [], ◌∷◌, ◌++◌, Text,
  if◌then◌else◌, codes, length,
}
use ringfile.Prelude.Strings.{starts_with, strip}
use ringfile.Lint.Regex.{
  Hit, match_re, matches, searches, group_or_empty, all_of, any_of, lit, char, in_class, not_in,
  sat, word, non_word, space, spaces, eol, boundary, star, plus, maybe, group, dot, mem, eps,
}
use ringfile.Lint.Report.{Event}
use ringfile.Lint.FileChecks.{call}
use ringfile.Lint.FileChecks.Guard.{line_at}
use ringfile.Lint.Conditions.{when, on}
use ringfile.Prelude.Strings.{is_unicode_space}
use ringfile.Lint.Regex.{match_at}

-- Whether a member is initialized with itself: r'\b([A-Za-z0-9_]*_)\(\1\)'. The group takes the word up to
-- the parenthesis, since what it consists of are the characters of words.
unfoldable pub is_self_init : Text → Text → Bool
unfolding match_at
is_self_init before [] = false
is_self_init before (x ∷ s) =
    let others = is_self_init (x ∷ before) s in
    elim (match_at
      (all_of (
        boundary
        ∷ group 1 (
            all_of (
              star (
                sat (λ x.
                  mem x (codes "_")
                  || (leb b'A' x && leb x b'Z')
                  || (leb b'a' x && leb x b'z')
                  || (leb b'0' x && leb x b'9')))
              ∷ char b'_'
              ∷ []))
        ∷ char b'('
        ∷ []))
      before (x ∷ s)) [
        | none ↦ others
        | some h ↦ starts_with h.suffix (group_or_empty 1 h ++ codes ")") || others
      ]

-- Whether a declaration of a string is something else: a pointer, an operator or a function.
unfoldable pub is_other_string : Text → Hit → Bool
is_other_string line h =
    searches
      (all_of (
        boundary
        ∷ lit (codes "string")
        ∷ boundary
        ∷ maybe (group 1 (all_of (plus space ∷ lit (codes "const") ∷ [])))
        ∷ spaces
        ∷ char b'*'
        ∷ spaces
        ∷ maybe (group 2 (all_of (lit (codes "const") ∷ plus space ∷ [])))
        ∷ word
        ∷ []))
      line
    || searches (all_of (boundary ∷ lit (codes "operator") ∷ non_word ∷ [])) line
    || matches
        (all_of (
          spaces
          ∷ maybe (group 1 (all_of (char b'<' ∷ star dot ∷ char b'>' ∷ [])))
          ∷ star (
              group 2 (
                all_of (
                  lit (codes "::")
                  ∷ plus (
                      sat (λ x.
                        mem x (codes "_")
                        || (leb b'a' x && leb x b'z')
                        || (leb b'A' x && leb x b'Z')
                        || (leb b'0' x && leb x b'9')))
                  ∷ [])))
          ∷ spaces
          ∷ char b'('
          ∷ group 3 (any_of (not_in (codes "\"") ∷ eol ∷ []))
          ∷ []))
        (group_or_empty 3 h)

-- CheckGlobalStatic
unfoldable pub check_global_static : Text → List Text → ℕ → List Event
unfolding is_other_string is_self_init
check_global_static filename elided linenum =
    let first = line_at elided linenum in
    let line =
      if ltb (linenum + 1) (length elided) && not (searches (in_class (codes ";({")) first)
      then first ++ strip is_unicode_space (line_at elided (linenum + 1))
      else first in
    on
      (match_re
        (all_of (
          group 1 (
            all_of (
              any_of (eps ∷ all_of (lit (codes "static") ∷ plus (char b' ') ∷ []) ∷ [])
              ∷ any_of (eps ∷ all_of (lit (codes "const") ∷ plus (char b' ') ∷ []) ∷ [])
              ∷ []))
          ∷ lit (codes "string")
          ∷ plus (char b' ')
          ∷ group 2 (
              plus (
                sat (λ x.
                  mem x (codes "_:")
                  || (leb b'a' x && leb x b'z')
                  || (leb b'A' x && leb x b'Z')
                  || (leb b'0' x && leb x b'9'))))
          ∷ boundary
          ∷ group 3 (star dot)
          ∷ []))
        line)
      (λ h. when (not (is_other_string line h)) (
        call filename linenum (codes "runtime/string") 4 (
          codes "For a static/global string constant, use a C style string instead: "
          ++ codes "\""
          ++ group_or_empty 1 h
          ++ codes "char "
          ++ group_or_empty 2 h
          ++ codes "[]\".")))
    ++ when (is_self_init [] line) (
        call filename linenum (codes "runtime/init") 4
          (codes "You seem to be initializing a member variable with itself."))
