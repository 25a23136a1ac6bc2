-- ===== src/Lint/Language/All.antt =====
-- CheckLanguage of tools/cpplint.py.
use ringfile.Prelude.{
  ℕ, zero, suc, ◌+◌, Bool, true, false, not, ◌&&◌, ◌||◌, ltb, leb, ◌==◌, Option, none, some, List,
  [], ◌∷◌, ◌++◌, Text, if◌then◌else◌, codes, length, same, reverse,
}
use ringfile.Prelude.Strings.{find, is_space, starts_with, ends_with, rstrip}
use ringfile.Lint.Regex.{
  any_word, Re, match_re, search_re, matches, searches, group_or_empty, all_of, any_of, lit, char,
  in_class, sat, not_ahead, word, space, spaces, bol, eol, boundary, star, plus, maybe, group, dot,
  digit, is_word, mem,
}
use ringfile.Lint.Report.{Event}
use ringfile.Lint.FileChecks.{call}
use ringfile.Lint.FileChecks.Guard.{line_at}
use ringfile.Lint.Cleanse.{CleansedLines}
use ringfile.Lint.Conditions.{when, on}
use ringfile.Prelude.Strings.{drop_while}
use ringfile.Lint.FileChecks.{is_some}
use ringfile.Lint.Regex.{match_at, skip_of}
use ringfile.Lint.Cleanse.{include_re}
use ringfile.Lint.Outcomes.{after_all}
use ringfile.Lint.Include.{IncludeState, reset_section}
use ringfile.Lint.Language.Includes.{check_include_line}
use ringfile.Lint.Language.Casts.{check_casts}
use ringfile.Lint.Language.Calls.{check_global_static, check_printf, format_events, memset_events}

-- re.split, for an expression that matches no empty text: `part` is what was read of a part, the last
-- character first, and the number is what is left of a match.
unfoldable pub split_by : Re → ℕ → Text → Text → Text → List Text
unfolding match_at skip_of
split_by r n before part [] = reverse part ∷ []
split_by r (suc n) before part (x ∷ s) = split_by r n (x ∷ before) part s
split_by r zero before part (x ∷ s) =
    let h = match_at r before (x ∷ s) in
    let behind = split_by r (skip_of h) (x ∷ before) [] s in
    let longer = split_by r zero (x ∷ before) (x ∷ part) s in
    elim h [ none ↦ longer | some k ↦ reverse part ∷ behind ]

-- Whether a token of the size of an array is a constant, without the parentheses around it.
unfoldable pub is_constant_token : Text → Bool
is_constant_token tok =
    same tok []
    || matches (plus digit) tok
    || matches
        (all_of (
          char b'0'
          ∷ in_class (codes "xX")
          ∷ plus (
              sat (λ x.
                (leb b'0' x && leb x b'9')
                || (leb b'a' x && leb x b'f')
                || (leb b'A' x && leb x b'F')))
          ∷ []))
        tok
    || matches
        (all_of (
          char b'k'
          ∷ sat (λ x. (leb b'A' x && leb x b'Z') || (leb b'0' x && leb x b'9'))
          ∷ star word
          ∷ []))
        tok
    || matches
        (all_of (
          maybe (group 1 (all_of (plus dot ∷ lit (codes "::") ∷ [])))
          ∷ char b'k'
          ∷ sat (λ x. (leb b'A' x && leb x b'Z') || (leb b'0' x && leb x b'9'))
          ∷ star word
          ∷ []))
        tok
    || matches
        (all_of (
          maybe (group 1 (all_of (plus dot ∷ lit (codes "::") ∷ [])))
          ∷ sat (λ x. (leb b'A' x && leb x b'Z'))
          ∷ star (
              sat (λ x.
                mem x (codes "_") || (leb b'A' x && leb x b'Z') || (leb b'0' x && leb x b'9')))
          ∷ []))
        tok

-- Whether all tokens are constants: one that begins with sizeof makes the code skip the next.
unfoldable pub are_constant : List Text → Bool → Bool
unfolding is_constant_token
are_constant [] skip_next = true
are_constant (tok ∷ toks) true = are_constant toks false
are_constant (tok ∷ toks) false =
    let bare = rstrip (λ x. x == b')') (drop_while (λ x. x == b'(') tok) in
    let next = are_constant toks false in
    let skipped = are_constant toks true in
    if searches (all_of (lit (codes "sizeof(") ∷ plus dot ∷ char b')' ∷ [])) tok
      || searches (all_of (lit (codes "arraysize(") ∷ plus word ∷ char b')' ∷ [])) tok
      || is_constant_token bare
    then next
    else if starts_with bare (codes "sizeof")
    then skipped
    else false

-- Arrays of variable length
unfoldable pub array_events : Text → ℕ → Text → List Event
unfolding split_by are_constant
array_events filename linenum line =
    on
      (match_re
        (all_of (
          spaces
          ∷ maybe (group 1 (all_of (plus dot ∷ lit (codes "::") ∷ [])))
          ∷ group 2 (plus word)
          ∷ char b' '
          ∷ sat (λ x. (leb b'a' x && leb x b'z'))
          ∷ star word
          ∷ char b'['
          ∷ group 3 (plus dot)
          ∷ lit (codes "];")
          ∷ []))
        line)
      (λ h.
        when
          (not (same (group_or_empty 2 h) (codes "return"))
            && not (same (group_or_empty 2 h) (codes "delete"))
            && not (is_some (find (group_or_empty 3 h) (codes "]")))
            && not (
                are_constant
                  (split_by
                    (any_of (
                      space
                      ∷ char b'+'
                      ∷ char b'-'
                      ∷ char b'*'
                      ∷ char b'/'
                      ∷ lit (codes "<<")
                      ∷ lit (codes ">>]")
                      ∷ []))
                    0 [] [] (group_or_empty 3 h))
                  false))
          (call filename linenum (codes "runtime/arrays") 1 (
            codes "Do not use variable-length arrays.  Use an appropriately named "
            ++ codes "('k' followed by CamelCase) compile-time constant for the size.")))

-- The types of C
unfoldable pub integer_events : Text → ℕ → Text → List Event
integer_events filename linenum line =
    if searches (all_of (boundary ∷ lit (codes "short port") ∷ boundary ∷ [])) line
    then when
        (not
          (searches (all_of (boundary ∷ lit (codes "unsigned short port") ∷ boundary ∷ [])) line))
        (call filename linenum (codes "runtime/int") 4
          (codes "Use \"unsigned short\" for ports, not \"short\""))
    else on
        (search_re
          (all_of (
            boundary
            ∷ group 1 (
                any_of (
                  lit (codes "short")
                  ∷ all_of (
                      lit (codes "long")
                      ∷ not_ahead (all_of (plus (char b' ') ∷ lit (codes "double") ∷ []))
                      ∷ [])
                  ∷ lit (codes "long long")
                  ∷ []))
            ∷ boundary
            ∷ []))
          line)
        (λ h.
          call filename linenum (codes "runtime/int") 4
            (codes "Use int16/int64/etc, rather than the C type " ++ group_or_empty 1 h)
          ∷ [])

-- The macros that should end a class
unfoldable pub class_end_events : Text → List Text → ℕ → List Event
class_end_events filename elided linenum =
    on
      (match_re
        (all_of (
          spaces
          ∷ group 1 (
              all_of (
                lit (codes "DISALLOW_")
                ∷ group 2 (
                    any_of
                      (lit (codes "COPY_AND_ASSIGN") ∷ lit (codes "IMPLICIT_CONSTRUCTORS") ∷ []))
                ∷ []))
          ∷ char b'('
          ∷ star dot
          ∷ lit (codes ");")
          ∷ eol
          ∷ []))
        (line_at elided linenum))
      (λ h.
        when
          (ltb (linenum + 1) (length elided)
            && not (
                searches
                  (all_of (
                    bol
                    ∷ spaces
                    ∷ char b'}'
                    ∷ star (sat (λ x. mem x (codes "*,") || is_word x || is_space x))
                    ∷ char b';'
                    ∷ []))
                  (line_at elided (linenum + 1))))
          (call filename linenum (codes "readability/constructors") 3
            (group_or_empty 1 h ++ codes " should be the last thing in the class")))

-- What CheckLanguage looks for on the line itself, behind the casts.
unfoldable pub language_events : Text → Text → List Text → ℕ → List Event
unfolding integer_events array_events class_end_events
language_events filename file_extension elided linenum =
    let line = line_at elided linenum in
    check_global_static filename elided linenum
    ++ check_printf filename line linenum
    ++ integer_events filename linenum line
    ++ when
        (searches
          (all_of (
            boundary
            ∷ lit (codes "operator")
            ∷ spaces
            ∷ char b'&'
            ∷ spaces
            ∷ char b'('
            ∷ spaces
            ∷ char b')'
            ∷ []))
          line)
        (call filename linenum (codes "runtime/operator") 4
          (codes "Unary operator& is dangerous.  Do not use it."))
    ++ when
        (searches (all_of (char b'}' ∷ spaces ∷ lit (codes "if") ∷ spaces ∷ char b'(' ∷ [])) line)
        (call filename linenum (codes "readability/braces") 4
          (codes "Did you mean \"else if\"? If not, start a new line for \"if\"."))
    ++ format_events filename linenum line
    ++ memset_events filename linenum line
    ++ when (searches (all_of (boundary ∷ lit (codes "using namespace") ∷ boundary ∷ [])) line) (
        call filename linenum (codes "build/namespaces") 5 (
          codes "Do not use namespace using-directives.  "
          ++ codes "Use using-declarations instead."))
    ++ array_events filename linenum line
    ++ class_end_events filename elided linenum
    ++ when
        (same file_extension (codes "h")
          && searches (all_of (boundary ∷ lit (codes "namespace") ∷ spaces ∷ char b'{' ∷ [])) line
          && not (ends_with line (codes "\\")))
        (call filename linenum (codes "build/namespaces") 4 (
          codes "Do not use unnamed namespaces in header files.  See "
          ++ codes "http://google-styleguide.googlecode.com/svn/trunk/cppguide.xml#Namespaces"
          ++ codes " for more information."))

-- The section is reset at a directive.
unfoldable pub at_directive : Text → IncludeState → IncludeState
at_directive line s =
    elim (match_re
      (all_of (
        bol
        ∷ spaces
        ∷ char b'#'
        ∷ spaces
        ∷ group 1 (any_word ("if" ∷ "ifdef" ∷ "ifndef" ∷ "elif" ∷ "else" ∷ "endif" ∷ []))
        ∷ boundary
        ∷ []))
      line) [ none ↦ s | some h ↦ reset_section (group_or_empty 1 h) s ]

-- CheckLanguage, with the state of the includes; `none` is the IndexError of CheckCasts, or a
-- loop of RepositoryName that does not end.
unfoldable pub check_language :
    Text
    → Option Text
    → Text
    → CleansedLines
    → ℕ
    → IncludeState
    → Option (IncludeState × List Event)
unfolding language_events at_directive
check_language filename repository_name file_extension clean_lines linenum s =
    let line = line_at clean_lines.elided linenum in
    if same line []
    then some (s, [])
    else if matches include_re line
    then check_include_line filename repository_name clean_lines linenum s
    else after_all (check_casts filename clean_lines linenum) (
        some
          (at_directive line s, language_events filename file_extension clean_lines.elided linenum))
