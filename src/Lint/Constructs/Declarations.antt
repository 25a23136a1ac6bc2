-- ===== src/Lint/Constructs/Declarations.antt =====
-- The declarations that CheckForNonStandardConstructs of tools/cpplint.py finds in a line.
use ringfile.Prelude.{ℕ, not, ◌||◌, List, [], ◌∷◌, ◌++◌, Text, codes}
use ringfile.Prelude.Strings.{is_space, replace}
use ringfile.Lint.Regex.{
  any_word, Re, matches, searches, all_of, any_of, lit, char, in_class, sat, word, space, spaces,
  bol, boundary, star, plus, maybe, group, dot, digit, mem,
}
use ringfile.Lint.Report.{Event}
use ringfile.Lint.FileChecks.{call}
use ringfile.Lint.Conditions.{when}

-- The storage classes behind a type
abbrev pub storage_re : Re
storage_re = all_of (
    boundary
    ∷ group 1 (
        any_of (
          lit (codes "const")
          ∷ lit (codes "volatile")
          ∷ lit (codes "void")
          ∷ lit (codes "char")
          ∷ lit (codes "short")
          ∷ lit (codes "int")
          ∷ lit (codes "long")
          ∷ lit (codes "float")
          ∷ lit (codes "double")
          ∷ lit (codes "signed")
          ∷ lit (codes "unsigned")
          ∷ lit (codes "schar")
          ∷ all_of (maybe (char b'u') ∷ lit (codes "int8") ∷ [])
          ∷ all_of (maybe (char b'u') ∷ lit (codes "int16") ∷ [])
          ∷ all_of (maybe (char b'u') ∷ lit (codes "int32") ∷ [])
          ∷ all_of (maybe (char b'u') ∷ lit (codes "int64") ∷ [])
          ∷ []))
    ∷ plus space
    ∷ group 2 (any_word ("register" ∷ "static" ∷ "extern" ∷ "typedef" ∷ []))
    ∷ boundary
    ∷ [])

-- r'(\w+|[+-]?\d+(\.\d*)?)\s*(<|>)\?=?\s*(\w+|[+-]?\d+)(\.\d*)?'
abbrev pub extremum_re : Re
extremum_re = all_of (
    group 1 (
      any_of (
        plus word
        ∷ all_of (
            maybe (in_class (codes "+-"))
            ∷ plus digit
            ∷ maybe (group 2 (all_of (char b'.' ∷ star digit ∷ [])))
            ∷ [])
        ∷ []))
    ∷ spaces
    ∷ group 3 (in_class (codes "<>"))
    ∷ char b'?'
    ∷ maybe (char b'=')
    ∷ spaces
    ∷ group 4 (any_of (plus word ∷ all_of (maybe (in_class (codes "+-")) ∷ plus digit ∷ []) ∷ []))
    ∷ maybe (group 5 (all_of (char b'.' ∷ star digit ∷ [])))
    ∷ [])

-- What is checked of every line: `line` with strings and `elided` without.
unfoldable pub line_constructs : Text → ℕ → Text → Text → List Event
line_constructs filename linenum line elided =
    when
      (searches
        (all_of (
          lit (codes "printf")
          ∷ spaces
          ∷ char b'('
          ∷ star dot
          ∷ char b'"'
          ∷ star dot
          ∷ char b'%'
          ∷ maybe (in_class (codes "-+ "))
          ∷ star digit
          ∷ char b'q'
          ∷ []))
        line)
      (call filename linenum (codes "runtime/printf_format") 3
        (codes "%q in format strings is deprecated.  Use %ll instead."))
    ++ when
        (searches
          (all_of (
            lit (codes "printf")
            ∷ spaces
            ∷ char b'('
            ∷ star dot
            ∷ char b'"'
            ∷ star dot
            ∷ char b'%'
            ∷ plus digit
            ∷ char b'$'
            ∷ []))
          line)
        (call filename linenum (codes "runtime/printf_format") 2
          (codes "%N$ formats are unconventional.  Try rewriting to avoid them."))
    ++ when
        (searches
          (all_of (
            group 1 (in_class (codes "\"'"))
            ∷ star dot
            ∷ char b'\\'
            ∷ group 2 (in_class (codes "%[({"))
            ∷ []))
          (replace line (codes "\\\\") []))
        (call filename linenum (codes "build/printf_format") 3
          (codes "%, [, (, and { are undefined character escapes.  Unescape them."))
    ++ when (searches storage_re elided) (
        call filename linenum (codes "build/storage_class") 5
          (codes "Storage class (static, extern, typedef, etc) should be first."))
    ++ when
        (matches
          (all_of (
            spaces
            ∷ char b'#'
            ∷ spaces
            ∷ lit (codes "endif")
            ∷ spaces
            ∷ plus (sat (λ x. not (mem x (codes "/") || is_space x)))
            ∷ []))
          elided)
        (call filename linenum (codes "build/endif_comment") 5
          (codes "Uncommented text after #endif is non-standard.  Use a comment."))
    ++ when
        (matches
          (all_of (
            spaces
            ∷ lit (codes "class")
            ∷ plus space
            ∷ plus (group 1 (all_of (plus word ∷ spaces ∷ lit (codes "::") ∷ spaces ∷ [])))
            ∷ plus word
            ∷ spaces
            ∷ char b';'
            ∷ []))
          elided)
        (call filename linenum (codes "build/forward_decl") 5
          (codes "Inner-style forward declarations are invalid.  Remove this line."))
    ++ when (searches extremum_re elided) (
        call filename linenum (codes "build/deprecated") 3
          (codes ">? and <? (max and min) operators are non-standard and deprecated."))
    ++ when
        (searches
          (all_of (
            bol
            ∷ spaces
            ∷ lit (codes "const")
            ∷ spaces
            ∷ lit (codes "string")
            ∷ spaces
            ∷ char b'&'
            ∷ spaces
            ∷ plus word
            ∷ spaces
            ∷ char b';'
            ∷ []))
          elided)
        (call filename linenum (codes "runtime/member_string_references") 2 (
          codes "const string& members are dangerous. It is much better to use "
          ++ codes "alternatives, such as pointers or simple constants."))
