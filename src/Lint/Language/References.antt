-- ===== src/Lint/Language/References.antt =====
-- CheckForNonConstReference of tools/cpplint.py, with IsDerivedFunction and IsInitializerList.
pub mod Places
use ringfile.Prelude.{
  ℕ, ◌+◌, ◌-◌, Bool, true, not, ◌&&◌, ◌||◌, leb, Option, none, some, List, [], ◌∷◌, ◌++◌, Text,
  if◌then◌else◌, codes,
}
use mathlib.Core.Option
use ringfile.Lint.Regex.{
  Re, Hit, replace_all, matches, searches, group_or_empty, all_of, any_of, lit, char, in_class,
  not_in, sat, word, space, spaces, eol, boundary, star, plus, maybe, group, dot, mem,
}
use ringfile.Lint.Report.{Event}
use ringfile.Lint.FileChecks.{call}
use ringfile.Lint.FileChecks.Guard.{line_at}
use ringfile.Lint.Conditions.{when}
use ringfile.Lint.FileChecks.{has_char}
use ringfile.Lint.Nesting.Block.{Block, is_class, is_namespace}
use ringfile.Lint.Style.Operators.{find_iter}
unfoldable pub use ringfile.Lint.Language.References.Places.{
  is_derived_from, is_derived_function, is_initializer_from, is_initializer_list, previous_part,
  stripped, template_text, whole_type, after_colon, whitelisted_re, is_whitelisted,
}

-- _RE_PATTERN_REF_PARAM
abbrev pub ref_param_re : Re
ref_param_re = all_of (
    group 1 (
      all_of (
        maybe (all_of (lit (codes "const") ∷ plus space ∷ []))
        ∷ maybe (
            any_of (
              all_of (lit (codes "typename") ∷ plus space ∷ [])
              ∷ all_of (lit (codes "class") ∷ plus space ∷ [])
              ∷ all_of (lit (codes "struct") ∷ plus space ∷ [])
              ∷ all_of (lit (codes "union") ∷ plus space ∷ [])
              ∷ all_of (lit (codes "enum") ∷ plus space ∷ [])
              ∷ []))
        ∷ plus (
            any_of (
              word
              ∷ all_of (
                  spaces
                  ∷ char b'<'
                  ∷ star (
                      any_of (
                        all_of (
                          char b'<'
                          ∷ star (
                              any_of (
                                all_of (char b'<' ∷ star (not_in (codes "<>")) ∷ char b'>' ∷ [])
                                ∷ not_in (codes "<>")
                                ∷ []))
                          ∷ char b'>'
                          ∷ [])
                        ∷ not_in (codes "<>")
                        ∷ []))
                  ∷ char b'>'
                  ∷ [])
              ∷ lit (codes "::")
              ∷ []))
        ∷ star (
            all_of (
              spaces
              ∷ any_of (all_of (boundary ∷ lit (codes "const") ∷ boundary ∷ []) ∷ char b'*' ∷ [])
              ∷ []))
        ∷ spaces
        ∷ char b'&'
        ∷ spaces
        ∷ sat (λ x. mem x (codes "_") || (leb b'a' x && leb x b'z') || (leb b'A' x && leb x b'Z'))
        ∷ star word
        ∷ []))
    ∷ spaces
    ∷ maybe (all_of (char b'=' ∷ plus (not_in (codes ",()")) ∷ []))
    ∷ in_class (codes ",)")
    ∷ [])

-- _RE_PATTERN_CONST_REF_PARAM
abbrev pub const_ref_param_re : Re
const_ref_param_re = any_of (
    all_of (
      star dot
      ∷ spaces
      ∷ boundary
      ∷ lit (codes "const")
      ∷ spaces
      ∷ char b'&'
      ∷ spaces
      ∷ sat (λ x. mem x (codes "_") || (leb b'a' x && leb x b'z') || (leb b'A' x && leb x b'Z'))
      ∷ star word
      ∷ [])
    ∷ all_of (
        lit (codes "const")
        ∷ plus space
        ∷ maybe (all_of (lit (codes "const") ∷ plus space ∷ []))
        ∷ maybe (
            any_of (
              all_of (lit (codes "typename") ∷ plus space ∷ [])
              ∷ all_of (lit (codes "class") ∷ plus space ∷ [])
              ∷ all_of (lit (codes "struct") ∷ plus space ∷ [])
              ∷ all_of (lit (codes "union") ∷ plus space ∷ [])
              ∷ all_of (lit (codes "enum") ∷ plus space ∷ [])
              ∷ []))
        ∷ plus (
            any_of (
              word
              ∷ all_of (
                  spaces
                  ∷ char b'<'
                  ∷ star (
                      any_of (
                        all_of (
                          char b'<'
                          ∷ star (
                              any_of (
                                all_of (char b'<' ∷ star (not_in (codes "<>")) ∷ char b'>' ∷ [])
                                ∷ not_in (codes "<>")
                                ∷ []))
                          ∷ char b'>'
                          ∷ [])
                        ∷ not_in (codes "<>")
                        ∷ []))
                  ∷ char b'>'
                  ∷ [])
              ∷ lit (codes "::")
              ∷ []))
        ∷ spaces
        ∷ char b'&'
        ∷ spaces
        ∷ sat (λ x. mem x (codes "_") || (leb b'a' x && leb x b'z') || (leb b'A' x && leb x b'Z'))
        ∷ star word
        ∷ [])
    ∷ [])

unfoldable pub reference_events : Text → ℕ → List Hit → List Event
reference_events filename linenum [] = []
reference_events filename linenum (h ∷ hs) =
    let parameter = group_or_empty 1 h in
    when (not (matches const_ref_param_re parameter)) (
      call filename linenum (codes "runtime/references") 2 (
        codes "Is this a non-const reference? "
        ++ codes "If so, make const or use a pointer: "
        ++ replace_all (all_of (star (char b' ') ∷ char b'<' ∷ [])) (λ k. codes "<") parameter))
    ++ reference_events filename linenum hs

-- Whether the block that the line began in can have declarations of functions: none, a class or a
-- namespace.
abbrev pub has_declarations : Option Block → Bool
has_declarations none = true
has_declarations (some b) = is_class b.kind || is_namespace b.kind

-- CheckForNonConstReference, where the top of the stack before the line is given.
unfoldable pub check_for_non_const_reference : Text → List Text → ℕ → Option Block → List Event
unfolding is_derived_function whole_type after_colon is_initializer_list is_whitelisted
    reference_events
check_for_non_const_reference filename elided linenum previous_stack_top =
    let line = whole_type elided linenum in
    if not (has_char b'&' (line_at elided linenum))
      || is_derived_function elided linenum
      || not (has_declarations previous_stack_top)
      || after_colon 9 elided (linenum - 1)
      || searches (all_of (char b'\\' ∷ spaces ∷ eol ∷ [])) line
      || is_initializer_list elided linenum
      || is_whitelisted elided linenum line
    then []
    else reference_events filename linenum (
        find_iter ref_param_re 0 [] (
          replace_all (all_of (char b'{' ∷ star (not_in (codes "}")) ∷ char b'}' ∷ []))
            (λ h. codes " ") line))
