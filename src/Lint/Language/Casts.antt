-- ===== src/Lint/Language/Casts.antt =====
-- CheckCasts, CheckCStyleCast and ExpectingFunctionArgs of tools/cpplint.py.
pub mod Addresses
pub mod CStyle
use ringfile.Prelude.{
  ℕ, ◌+◌, Bool, true, false, not, ◌&&◌, ◌||◌, Option, none, some, List, [], ◌∷◌, ◌++◌, Text,
  if◌then◌else◌, codes,
}
use mathlib.Core.Option
use ringfile.Prelude.Strings.{starts_with}
use ringfile.Lint.Regex.{
  any_word, Re, Hit, search_re, matches, searches, group_or_empty, group_of, all_of, any_of, lit,
  char, not_in, word, space, non_space, spaces, boundary, star, plus, maybe, group, dot,
}
use ringfile.Lint.Report.{Event}
use ringfile.Lint.FileChecks.{call}
use ringfile.Lint.FileChecks.Guard.{line_at}
use ringfile.Lint.Cleanse.{CleansedLines}
use ringfile.Lint.Conditions.{when, on, on_or}
unfoldable pub use ringfile.Lint.Language.Casts.Addresses.{
  is_dereferenced, address_re, cast_address_re, address_event, brackets_events, taken_events,
  address_events,
}
unfoldable pub use ringfile.Lint.Language.Casts.CStyle.{
  expecting_function_args, cast_context, is_no_cast, is_unnamed_allowed, cast_event,
  check_c_style_cast,
}

-- The call of a conversion function
abbrev pub conversion_re : Re
conversion_re = all_of (
    maybe (
      group 1 (
        any_of (
          all_of (boundary ∷ lit (codes "new") ∷ plus space ∷ [])
          ∷ all_of (
              non_space
              ∷ char b'<'
              ∷ spaces
              ∷ maybe (all_of (lit (codes "const") ∷ plus space ∷ []))
              ∷ [])
          ∷ [])))
    ∷ boundary
    ∷ group 2 (
        any_word (
          "int" ∷ "float" ∷ "double" ∷ "bool" ∷ "char" ∷ "int32" ∷ "uint32" ∷ "int64" ∷ "uint64"
          ∷ []))
    ∷ group 3 (all_of (char b'(' ∷ not_in (codes ")") ∷ star dot ∷ []))
    ∷ [])

-- Whether the conversion is of the deprecated style.
unfoldable pub is_conversion : Text → Hit → Bool
is_conversion line h =
    let matched_type = group_or_empty 2 h in
    let funcptr = group_or_empty 3 h in
    let plain : Bool = elim (group_of 1 h.groups) [ none ↦ true | some t ↦ false ] in
    plain
    && not (
        matches
          (all_of (
            char b'('
            ∷ maybe (
                all_of (
                  plus (not_in (codes "() "))
                  ∷ lit (codes "::")
                  ∷ spaces
                  ∷ char b'*'
                  ∷ spaces
                  ∷ []))
            ∷ plus (not_in (codes "() "))
            ∷ char b')'
            ∷ spaces
            ∷ char b'('
            ∷ []))
          funcptr
        || starts_with funcptr (codes "(*)"))
    && not (
        matches
          (all_of (
            (all_of (
              spaces
              ∷ lit (codes "using")
              ∷ plus space
              ∷ plus non_space
              ∷ spaces
              ∷ char b'='
              ∷ spaces
              ∷ []))
            ∷ lit matched_type
            ∷ []))
          line)
    && not (
        searches
          (all_of (
            (all_of (lit (codes "new(") ∷ plus non_space ∷ char b')' ∷ spaces ∷ []))
            ∷ lit matched_type
            ∷ []))
          line)

-- The casts of the C style
unfoldable pub c_style_events : Text → CleansedLines → ℕ → List Event
unfolding check_c_style_cast
c_style_events filename clean_lines linenum =
    let cast = check_c_style_cast filename clean_lines linenum in
    (if expecting_function_args clean_lines.elided linenum
      then []
      else on
          (cast (codes "static_cast") (
            all_of (
              char b'('
              ∷ group 1 (
                  any_of (
                    lit (codes "int")
                    ∷ lit (codes "float")
                    ∷ lit (codes "double")
                    ∷ lit (codes "bool")
                    ∷ lit (codes "char")
                    ∷ all_of (
                        maybe (char b'u')
                        ∷ lit (codes "int")
                        ∷ group 2 (any_word ("16" ∷ "32" ∷ "64" ∷ []))
                        ∷ [])
                    ∷ []))
              ∷ char b')'
              ∷ [])))
          (λ e. e ∷ []))
    ++ on_or
        (cast (codes "const_cast") (
          all_of (
            char b'('
            ∷ group 1
                (all_of (lit (codes "char") ∷ maybe space ∷ plus (char b'*') ∷ maybe space ∷ []))
            ∷ char b')'
            ∷ spaces
            ∷ char b'"'
            ∷ [])))
        (λ e. e ∷ [])
        (on
          (cast (codes "reinterpret_cast") (
            all_of (
              char b'('
              ∷ group 1 (all_of (plus word ∷ maybe space ∷ plus (char b'*') ∷ maybe space ∷ []))
              ∷ char b')'
              ∷ [])))
          (λ e. e ∷ []))

-- CheckCasts; `none` is the IndexError of is_dereferenced.
unfoldable pub check_casts : Text → CleansedLines → ℕ → Option (List Event)
unfolding is_conversion c_style_events address_events expecting_function_args
check_casts filename clean_lines linenum =
    let elided = clean_lines.elided in
    let line = line_at elided linenum in
    let found =
      if expecting_function_args elided linenum then none else search_re conversion_re line in
    let is_array : Bool = elim found [
      | none ↦ false
      | some h ↦
          matches
            (all_of (char b'(' ∷ plus (not_in (codes "()")) ∷ char b')' ∷ spaces ∷ char b'[' ∷ []))
            (group_or_empty 3 h)
    ] in
    let conversion = on found (λ h. when (is_conversion line h) (
      call filename linenum (codes "readability/casting") 4 (
        codes "Using deprecated casting style.  "
        ++ codes "Use static_cast<"
        ++ group_or_empty 2 h
        ++ codes ">(...) instead"))) in
    if is_array
    then some []
    else Option.map (λ es. conversion ++ c_style_events filename clean_lines linenum ++ es)
        (address_events filename elided linenum)
