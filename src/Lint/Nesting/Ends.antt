-- ===== src/Lint/Nesting/Ends.antt =====
-- What is checked at the closing brace of a class or a namespace: the CheckEnd methods of class
-- _ClassInfo and class _NamespaceInfo of tools/cpplint.py.
use ringfile.Prelude.{
  ℕ, ◌+◌, not, ◌&&◌, ◌||◌, ltb, ◌==◌, Option, none, some, List, [], ◌∷◌, ◌++◌, Text, if◌then◌else◌,
  codes, length,
}
use ringfile.Prelude.Strings.{is_space}
use ringfile.Lint.Regex.{
  Re, match_re, matches, group_or_empty, all_of, any_of, lit, char, in_class, sat, space, spaces,
  bol, eol, boundary, star, plus, group, dot, mem,
}
use ringfile.Lint.Report.{Event}
use ringfile.Lint.FileChecks.{call}
use ringfile.Lint.FileChecks.Guard.{line_at}
use ringfile.Lint.Cleanse.{CleansedLines}
use ringfile.Lint.Conditions.{when, on}
use ringfile.Lint.Nesting.Block.{
  ClassInfo, NamespaceInfo, BlockKind, block_info, extern_c_info, class_info, namespace_info,
}

-- r'^( *)\}'
abbrev pub closing_re : Re
closing_re = all_of (bol ∷ group 1 (star (char b' ')) ∷ char b'}' ∷ [])

-- 'struct ' + name or 'class ' + name
abbrev pub parent_name : ClassInfo → Text
parent_name c = (if c.is_struct then codes "struct " else codes "class ") ++ c.name

-- _ClassInfo.CheckEnd
unfoldable pub check_class_end : Text → CleansedLines → ℕ → ClassInfo → List Event
check_class_end filename clean_lines linenum c =
    on (match_re closing_re (line_at clean_lines.elided linenum)) (λ h.
      when (not (length (group_or_empty 1 h) == c.class_indent)) (
        call filename linenum (codes "whitespace/indent") 3
          (codes "Closing brace should be aligned with beginning of " ++ parent_name c)))

-- r'};*\s*(//|/\*).*\bnamespace\b'
abbrev pub some_namespace_re : Re
some_namespace_re = all_of (
    char b'}'
    ∷ star (char b';')
    ∷ spaces
    ∷ group 1 (all_of (char b'/' ∷ in_class (codes "/*") ∷ []))
    ∷ star dot
    ∷ boundary
    ∷ lit (codes "namespace")
    ∷ boundary
    ∷ [])

-- r'};*\s*(//|/\*).*\bnamespace\s+x[\*/\.\\\s]*$', with the name in the place of the x
abbrev pub named_re : Text → Re
named_re name = all_of (
    char b'}'
    ∷ star (char b';')
    ∷ spaces
    ∷ group 1 (all_of (char b'/' ∷ in_class (codes "/*") ∷ []))
    ∷ star dot
    ∷ boundary
    ∷ lit (codes "namespace")
    ∷ plus space
    ∷ lit name
    ∷ star (sat (λ x. mem x (codes "*/.\\") || is_space x))
    ∷ eol
    ∷ [])

-- r'};*\s*(//|/\*).*\bnamespace[\*/\.\\\s]*$'
abbrev pub unnamed_re : Re
unnamed_re = all_of (
    char b'}'
    ∷ star (char b';')
    ∷ spaces
    ∷ group 1 (all_of (char b'/' ∷ in_class (codes "/*") ∷ []))
    ∷ star dot
    ∷ boundary
    ∷ lit (codes "namespace")
    ∷ star (sat (λ x. mem x (codes "*/.\\") || is_space x))
    ∷ eol
    ∷ [])

-- r'}.*\b(namespace anonymous|anonymous namespace)\b'
abbrev pub anonymous_re : Re
anonymous_re = all_of (
    char b'}'
    ∷ star dot
    ∷ boundary
    ∷ group 1 (any_of (lit (codes "namespace anonymous") ∷ lit (codes "anonymous namespace") ∷ []))
    ∷ boundary
    ∷ [])

-- The message where the comment at the end of a namespace is not as it should be.
unfoldable pub namespace_end_message : Text → Text → Option Text
namespace_end_message [] line =
    if matches unnamed_re line
    then none
    else if matches anonymous_re line
    then some (
        codes "Anonymous namespace should be terminated with \"// namespace\""
        ++ codes " or \"// anonymous namespace\"")
    else some (codes "Anonymous namespace should be terminated with \"// namespace\"")
namespace_end_message (x ∷ name) line =
    if matches (named_re (x ∷ name)) line
    then none
    else some
        (codes "Namespace should be terminated with \"// namespace " ++ (x ∷ name) ++ codes "\"")

-- _NamespaceInfo.CheckEnd
unfoldable pub check_namespace_end : Text → CleansedLines → ℕ → NamespaceInfo → List Event
unfolding namespace_end_message
check_namespace_end filename clean_lines linenum n =
    let line = line_at clean_lines.raw_lines linenum in
    if ltb linenum (n.starting_linenum + 10) && not (matches some_namespace_re line)
    then []
    else on (namespace_end_message n.name line)
        (λ message. call filename linenum (codes "readability/namespace") 5 message ∷ [])

-- CheckEnd
unfoldable pub check_end : Text → CleansedLines → ℕ → BlockKind → List Event
unfolding check_class_end check_namespace_end
check_end filename clean_lines linenum block_info = []
check_end filename clean_lines linenum extern_c_info = []
check_end filename clean_lines linenum (class_info c) =
    check_class_end filename clean_lines linenum c
check_end filename clean_lines linenum (namespace_info n) =
    check_namespace_end filename clean_lines linenum n
