-- ===== src/Lint/Language/Calls.antt =====
-- CheckGlobalStatic, CheckPrintf, _GetTextInside and the checks of printf and memset of CheckLanguage of
-- tools/cpplint.py.
pub mod Globals
use ringfile.Prelude.{
  ℕ, ◌+◌, not, ◌&&◌, ◌||◌, leb, ◌==◌, Option, none, some, List, [], ◌∷◌, ◌++◌, Text, if◌then◌else◌,
  codes, same, map,
}
use ringfile.Lint.Regex.{
  Re, match_re, search_re, matches, searches, group_or_empty, all_of, any_of, lit, char, in_class,
  not_in, sat, spaces, bol, eol, boundary, star, plus, maybe, group, is_word, mem,
}
use ringfile.Lint.Report.{Event}
use ringfile.Lint.FileChecks.{call}
use ringfile.Lint.Conditions.{when, on}
unfoldable pub use ringfile.Lint.Language.Calls.Globals.{
  is_self_init, is_other_string, check_global_static,
}

-- The closing punctuation of an opening one, and whether a character is a closing one.
unfoldable pub closing_of : ℕ → Option ℕ
closing_of c =
    if c == b'('
    then some b')'
    else if c == b'{'
    then some b'}'
    else if c == b'['
    then some b']'
    else none

-- The loop of _GetTextInside: the text up to the punctuation that takes the last of the stack away.
unfoldable pub text_up_to : List ℕ → Text → Option Text
unfolding closing_of
text_up_to [] text = some []
text_up_to (expected ∷ stack) [] = none
text_up_to (expected ∷ stack) (c ∷ text) =
    let popped = text_up_to stack text in
    let rest = text_up_to (expected ∷ stack) text in
    let and_c : Option Text → Option Text = λ o. elim o [ none ↦ none | some t ↦ some (c ∷ t) ] in
    let opened : Option Text = elim (closing_of c) [
      | none ↦ and_c rest
      | some close ↦ and_c (text_up_to (close ∷ (expected ∷ stack)) text)
    ] in
    if c == expected
    then elim stack [ [] ↦ some [] | x ∷ st ↦ and_c popped ]
    else if mem c (codes ")}]")
    then none
    else opened

-- _GetTextInside, for an expression that ends with an opening parenthesis.
unfoldable pub get_text_inside : Text → Re → Option Text
unfolding text_up_to
get_text_inside text start_pattern = elim (search_re start_pattern text) [
  | none ↦ none
  | some h ↦ text_up_to (b')' ∷ []) h.suffix
]

-- A letter of either case
abbrev pub letters : List Text → Re
letters ls = all_of (map in_class ls)

abbrev pub printf_letters : Re
printf_letters =
    letters (codes "pP" ∷ codes "rR" ∷ codes "iI" ∷ codes "nN" ∷ codes "tT" ∷ codes "fF" ∷ [])

abbrev pub string_letters : Re
string_letters =
    letters (codes "sS" ∷ codes "tT" ∷ codes "rR" ∷ codes "iI" ∷ codes "nN" ∷ codes "gG" ∷ [])

-- r'\b((?:string)?printf)\s*\(', in any case
abbrev pub printf_re : Re
printf_re = all_of (
    boundary
    ∷ group 1 (all_of (maybe string_letters ∷ printf_letters ∷ []))
    ∷ spaces
    ∷ char b'('
    ∷ [])

-- A format that is no literal
unfoldable pub format_events : Text → ℕ → Text → List Event
unfolding get_text_inside
format_events filename linenum line = on (get_text_inside line printf_re) (λ printf_args.
    on
      (match_re (all_of (group 1 (plus (sat (λ x. mem x (codes ".->()") || is_word x))) ∷ eol ∷ []))
        printf_args)
      (λ h. on (search_re printf_re line) (λ f.
        when (not (same (group_or_empty 1 h) (codes "__VA_ARGS__"))) (
          call filename linenum (codes "runtime/printf") 4 (
            codes "Potential format string bug. Do "
            ++ group_or_empty 1 f
            ++ codes "(\"%s\", "
            ++ group_or_empty 1 h
            ++ codes ") instead.")))))

-- A memset of no bytes
unfoldable pub memset_events : Text → ℕ → Text → List Event
memset_events filename linenum line =
    on
      (search_re
        (all_of (
          lit (codes "memset")
          ∷ spaces
          ∷ char b'('
          ∷ group 1 (star (not_in (codes ",")))
          ∷ char b','
          ∷ spaces
          ∷ group 2 (star (not_in (codes ",")))
          ∷ char b','
          ∷ spaces
          ∷ char b'0'
          ∷ spaces
          ∷ char b')'
          ∷ []))
        line)
      (λ h.
        when
          (not (
            matches
              (any_of (
                all_of (bol ∷ lit (codes "''") ∷ [])
                ∷ all_of (maybe (char b'-') ∷ plus (sat (λ x. (leb b'0' x && leb x b'9'))) ∷ [])
                ∷ all_of (
                    lit (codes "0x")
                    ∷ sat (λ x.
                      (leb b'0' x && leb x b'9')
                      || (leb b'A' x && leb x b'F')
                      || (leb b'a' x && leb x b'f'))
                    ∷ eol
                    ∷ [])
                ∷ []))
              (group_or_empty 2 h)))
          (call filename linenum (codes "runtime/memset") 4 (
            codes "Did you mean \"memset("
            ++ group_or_empty 1 h
            ++ codes ", 0, "
            ++ group_or_empty 2 h
            ++ codes ")\"?")))

-- CheckPrintf
unfoldable pub check_printf : Text → Text → ℕ → List Event
check_printf filename line linenum =
    on
      (search_re
        (all_of (
          lit (codes "snprintf")
          ∷ spaces
          ∷ char b'('
          ∷ group 1 (star (not_in (codes ",")))
          ∷ char b','
          ∷ spaces
          ∷ group 2 (star (sat (λ x. (leb b'0' x && leb x b'9'))))
          ∷ spaces
          ∷ char b','
          ∷ []))
        line)
      (λ h. when (not (same (group_or_empty 2 h) (codes "0"))) (
        call filename linenum (codes "runtime/printf") 3 (
          codes "If you can, use sizeof("
          ++ group_or_empty 1 h
          ++ codes ") instead of "
          ++ group_or_empty 2 h
          ++ codes " as the 2nd arg "
          ++ codes "to snprintf.")))
    ++ when (searches (all_of (boundary ∷ lit (codes "sprintf") ∷ spaces ∷ char b'(' ∷ [])) line) (
        call filename linenum (codes "runtime/printf") 5
          (codes "Never use sprintf. Use snprintf instead."))
    ++ on
        (search_re
          (all_of (
            boundary
            ∷ group 1 (
                all_of
                  (lit (codes "strc") ∷ any_of (lit (codes "py") ∷ lit (codes "at") ∷ []) ∷ []))
            ∷ spaces
            ∷ char b'('
            ∷ []))
          line)
        (λ h.
          call filename linenum (codes "runtime/printf") 4
            (codes "Almost always, snprintf is better than " ++ group_or_empty 1 h)
          ∷ [])
