-- ===== src/Lint/LineChecks/Specifiers.antt =====
-- CheckRedundantVirtual, CheckRedundantOverrideOrFinal and FlagCxx11Features of tools/cpplint.py.
use ringfile.Prelude.{
  ℕ, zero, suc, ◌+◌, not, ◌&&◌, ltb, Option, none, some, List, [], ◌∷◌, ◌++◌, Text, if◌then◌else◌,
  codes, length, drop,
}
use ringfile.Prelude.Strings.{one_of}
use ringfile.Lint.Regex.{
  Re, match_re, search_re, matches, searches, group_or_empty, all_of, any_of, lit, char, in_class,
  not_in, sat, space, spaces, bol, eol, boundary, star, plus, group, dot, is_word,
}
use ringfile.Lint.Report.{Event}
use ringfile.Lint.FileChecks.{call}
use ringfile.Lint.FileChecks.Guard.{line_at}
use ringfile.Lint.Conditions.{when, on}
use ringfile.Lint.Brackets.{close_expression}

-- r'^(.*\bvirtual\b)'
abbrev pub virtual_re : Re
virtual_re =
    all_of
      (bol ∷ group 1 (all_of (star dot ∷ boundary ∷ lit (codes "virtual") ∷ boundary ∷ [])) ∷ [])

-- r'^([^(]*)\('
abbrev pub parameters_re : Re
parameters_re = all_of (bol ∷ group 1 (star (not_in (codes "("))) ∷ char b'(' ∷ [])

-- r'\b(override|final)\b'
abbrev pub specifier_re : Re
specifier_re = all_of (
    boundary ∷ group 1 (any_of (lit (codes "override") ∷ lit (codes "final") ∷ [])) ∷ boundary ∷ [])

-- r'[^\w]\s*$'
abbrev pub complete_re : Re
complete_re = all_of (sat (λ x. not (is_word x)) ∷ spaces ∷ eol ∷ [])

-- The end of the parameter list that begins on one of so many lines, the first one from a column on:
-- the number of its line and its column. `none` is that there is none.
unfoldable pub end_of_parameters : ℕ → List Text → ℕ → ℕ → Option (ℕ × ℕ)
end_of_parameters zero elided start_line start_col = none
end_of_parameters (suc n) elided start_line start_col =
    let rest = end_of_parameters n elided (start_line + 1) 0 in
    if not (ltb start_line (length elided))
    then none
    else elim (match_re parameters_re (drop start_col (line_at elided start_line))) [
      | none ↦ rest
      | some h ↦
          elim (close_expression elided start_line (start_col + length (group_or_empty 1 h))) [
            | none ↦ none
            | some place ↦ elim place.pos [
              | none ↦ none
              | some end_col ↦ some (place.linenum, end_col)
            ]
          ]
    ]

-- The specifiers on so many lines, the first one from a column on.
unfoldable pub specifiers : Text → ℕ → ℕ → List Text → ℕ → ℕ → List Event
specifiers filename linenum zero elided i end_col = []
specifiers filename linenum (suc n) elided i end_col =
    let line = drop end_col (line_at elided i) in
    let rest = specifiers filename linenum n elided (i + 1) 0 in
    if not (ltb i (length elided))
    then []
    else on (search_re specifier_re line) (λ h.
      call filename linenum (codes "readability/inheritance") 4 (
        codes "\"virtual\" is redundant since function is "
        ++ codes "already declared as \""
        ++ group_or_empty 1 h
        ++ codes "\"")
      ∷ [])
      ++ (if searches complete_re line then [] else rest)

-- CheckRedundantVirtual
unfoldable pub check_redundant_virtual : Text → List Text → ℕ → List Event
unfolding end_of_parameters specifiers
check_redundant_virtual filename elided linenum =
    on (match_re virtual_re (line_at elided linenum)) (λ h.
      on (end_of_parameters 3 elided linenum (length (group_or_empty 1 h)))
        (λ p. specifiers filename linenum 3 elided p.0 p.1))

-- CheckRedundantOverrideOrFinal
unfoldable pub check_redundant_override_or_final : Text → Text → ℕ → List Event
check_redundant_override_or_final filename line linenum =
    when
      (searches (all_of (boundary ∷ lit (codes "override") ∷ boundary ∷ [])) line
        && searches (all_of (boundary ∷ lit (codes "final") ∷ boundary ∷ [])) line)
      (call filename linenum (codes "readability/inheritance") 4 (
        codes "\"override\" is redundant since function is "
        ++ codes "already declared as \"final\""))

-- r'\s*#\s*include\s+[<"]([^<"]+)[">]'
abbrev pub include_header_re : Re
include_header_re = all_of (
    spaces
    ∷ char b'#'
    ∷ spaces
    ∷ lit (codes "include")
    ∷ plus space
    ∷ in_class (codes "<\"")
    ∷ group 1 (plus (not_in (codes "<\"")))
    ∷ in_class (codes "\">")
    ∷ [])

abbrev pub unapproved_headers : List Text
unapproved_headers =
    codes "cfenv"
    ∷ codes "condition_variable"
    ∷ codes "fenv.h"
    ∷ codes "future"
    ∷ codes "mutex"
    ∷ codes "thread"
    ∷ codes "chrono"
    ∷ codes "ratio"
    ∷ codes "regex"
    ∷ codes "system_error"
    ∷ []

abbrev pub top_names : List Text
top_names = codes "alignment_of" ∷ codes "aligned_union" ∷ codes "forward" ∷ []

-- r'\bstd::%s\b'
abbrev pub std_re : Text → Re
std_re top_name = all_of (boundary ∷ lit (codes "std::") ∷ lit top_name ∷ boundary ∷ [])

unfoldable pub std_events : Text → Text → ℕ → List Text → List Event
std_events filename line linenum [] = []
std_events filename line linenum (top_name ∷ names) =
    when (searches (std_re top_name) line) (
      call filename linenum (codes "build/c++11") 5 (
        codes "std::"
        ++ top_name
        ++ codes " is an unapproved C++11 class or function.  Send c-style "
        ++ codes "an example of where it would make your code more readable, and "
        ++ codes "they may let you use it."))
    ++ std_events filename line linenum names

-- FlagCxx11Features
unfoldable pub flag_cxx11_features : Text → Text → ℕ → List Event
unfolding std_events
flag_cxx11_features filename line linenum =
    on (match_re include_header_re line) (λ h.
      when (one_of (group_or_empty 1 h) unapproved_headers) (
        call filename linenum (codes "build/c++11") 5
          (codes "<" ++ group_or_empty 1 h ++ codes "> is an unapproved C++11 header.")))
    ++ (if matches (all_of (spaces ∷ char b'#' ∷ [])) line
          && not (
              matches (all_of (spaces ∷ char b'#' ∷ spaces ∷ lit (codes "define") ∷ boundary ∷ []))
                line)
        then []
        else std_events filename line linenum top_names)
