-- ===== src/Lint/Constructs.antt =====
-- CheckForNonStandardConstructs of tools/cpplint.py.
pub mod Declarations
pub mod Collapse
use ringfile.Prelude.{
  ℕ, ◌+◌, ◌-◌, Bool, true, false, not, ◌&&◌, ◌||◌, ltb, leb, ◌==◌, Option, none, some, List, [],
  ◌∷◌, ◌++◌, Text, if◌then◌else◌, codes, length, same, reverse,
}
use mathlib.Core.Option
use ringfile.Prelude.Strings.{find, count, strip, split}
use ringfile.Lint.Regex.{
  Re, Hit, match_re, matches, searches, group_or_empty, all_of, any_of, lit, char, not_in, word,
  space, spaces, boundary, star, plus, maybe, group,
}
use ringfile.Lint.Report.{Event}
use ringfile.Lint.FileChecks.{call}
use ringfile.Lint.FileChecks.Guard.{line_at}
use ringfile.Lint.Cleanse.{CleansedLines}
use ringfile.Lint.Conditions.{when}
use ringfile.Prelude.Strings.{is_unicode_space}
use ringfile.Lint.FileChecks.{is_some}
use ringfile.Lint.Nesting.Block.{
  Block, ClassInfo, block_info, extern_c_info, class_info, namespace_info,
}
unfoldable pub use ringfile.Lint.Constructs.Declarations.{storage_re, extremum_re, line_constructs}

-- InnermostClass, with its block
unfoldable pub innermost_class_block : List Block → Option (Block × ClassInfo)
innermost_class_block [] = none
innermost_class_block (b ∷ st) = elim b.kind [
  | class_info c ↦ some (b, c)
  | block_info ↦ innermost_class_block st
  | extern_c_info ↦ innermost_class_block st
  | namespace_info n ↦ innermost_class_block st
]

-- name.split('::')[-1]
unfoldable pub last_name : Text → Text → Text
last_name seen [] = reverse seen
last_name seen (x ∷ []) = reverse (x ∷ seen)
last_name seen (x ∷ (y ∷ s)) =
    let here = last_name (x ∷ seen) (y ∷ s) in
    let behind = last_name [] s in if x == b':' && y == b':' then behind else here

-- r'\s+(?:inline\s+)?(explicit\s+)?(?:inline\s+)?%s\s*\(((?:[^()]|\([^()]*\))*)\)'
abbrev pub constructor_re : Text → Re
constructor_re name = all_of (
    plus space
    ∷ maybe (all_of (lit (codes "inline") ∷ plus space ∷ []))
    ∷ maybe (group 1 (all_of (lit (codes "explicit") ∷ plus space ∷ [])))
    ∷ maybe (all_of (lit (codes "inline") ∷ plus space ∷ []))
    ∷ lit name
    ∷ spaces
    ∷ char b'('
    ∷ group 2 (
        star (
          any_of (
            not_in (codes "()")
            ∷ (all_of (char b'(' ∷ star (not_in (codes "()")) ∷ char b')' ∷ []))
            ∷ [])))
    ∷ char b')'
    ∷ [])

-- An argument that a comma ended too early
abbrev pub is_incomplete : Text → Bool
is_incomplete arg =
    ltb (count arg (codes ">")) (count arg (codes "<"))
    || ltb (count arg (codes ")")) (count arg (codes "("))

-- The collapsing of arguments, of which the first is `arg`. `none` is the IndexError where the last one
-- is incomplete.
unfoldable pub collapse_from : Text → List Text → Option (List Text)
collapse_from arg [] = if is_incomplete arg then none else some (arg ∷ [])
collapse_from arg (next ∷ args) =
    let longer = collapse_from (arg ++ codes "," ++ next) args in
    let others = collapse_from next args in
    if is_incomplete arg
    then longer
    else elim others [ none ↦ none | some rest ↦ some (arg ∷ rest) ]

unfoldable pub collapse : List Text → Option (List Text)
collapse [] = some []
collapse (arg ∷ args) = collapse_from arg args

-- The arguments between the parentheses, before they are collapsed.
abbrev pub constructor_args : Text → List Text
constructor_args [] = []
constructor_args (x ∷ s) = split b',' (x ∷ s)

abbrev pub defaulted : List Text → ℕ
defaulted [] = 0
defaulted (arg ∷ args) = (if is_some (find arg (codes "=")) then 1 else 0) + defaulted args

abbrev pub head_or_empty : List Text → Text
head_or_empty [] = []
head_or_empty (arg ∷ args) = arg

unfoldable pub is_noarg : List Text → Bool
is_noarg [] = true
is_noarg (arg ∷ []) = same (strip is_unicode_space arg) (codes "void")
is_noarg (arg ∷ (other ∷ args)) = false

-- A constructor that can be called with one argument
unfoldable pub is_onearg : List Text → Bool
unfolding is_noarg
is_onearg args =
    not (is_noarg args)
    && (length args == 1 || (leb 1 (length args) && leb (length args - 1) (defaulted args)))

-- r'(const\s+)?%s(\s*<[^>]*>)?(\s+const)?\s*(?:<\w+>\s*)?&'
abbrev pub copy_re : Text → Re
copy_re name = all_of (
    maybe (group 1 (all_of (lit (codes "const") ∷ plus space ∷ [])))
    ∷ lit name
    ∷ maybe (group 1 (all_of (spaces ∷ char b'<' ∷ star (not_in (codes ">")) ∷ char b'>' ∷ [])))
    ∷ maybe (group 1 (all_of (plus space ∷ lit (codes "const") ∷ [])))
    ∷ spaces
    ∷ maybe (all_of (char b'<' ∷ plus word ∷ char b'>' ∷ spaces ∷ []))
    ∷ char b'&'
    ∷ [])

unfoldable pub is_initializer_list_or_copy : Text → List Text → Bool
is_initializer_list_or_copy name args =
    searches
      (all_of (
        boundary
        ∷ lit (codes "std")
        ∷ spaces
        ∷ lit (codes "::")
        ∷ spaces
        ∷ lit (codes "initializer_list")
        ∷ boundary
        ∷ []))
      (head_or_empty args)
    || matches (copy_re name) (strip is_unicode_space (head_or_empty args))

-- What is reported of a constructor
unfoldable pub constructor_events : Text → ℕ → Text → Bool → List Text → List Event
unfolding is_onearg is_initializer_list_or_copy
constructor_events filename linenum name is_marked_explicit args =
    let report = λ (confidence : ℕ) (message : Text).
      call filename linenum (codes "runtime/explicit") confidence message in
    if not is_marked_explicit
    then when (is_onearg args && not (is_initializer_list_or_copy name args)) (
        if leb 1 (defaulted args)
        then report 5
            (codes "Constructors callable with one argument " ++ codes "should be marked explicit.")
        else report 5 (codes "Single-parameter constructors should be marked explicit."))
    else when (not (is_onearg args)) (
        if is_noarg args
        then report 5 (codes "Zero-parameter constructors should not be marked explicit.")
        else report 0 (
            codes "Constructors that require multiple arguments "
            ++ codes "should not be marked explicit."))

-- What is reported of the match of a constructor; `none` is the IndexError of the collapsing.
unfoldable pub matched_constructor : Text → ℕ → Text → Option Hit → Option (List Event)
unfolding collapse constructor_events
matched_constructor filename linenum name none = some []
matched_constructor filename linenum name (some h) =
    Option.map (constructor_events filename linenum name (leb 1 (length (group_or_empty 1 h))))
      (collapse (constructor_args (group_or_empty 2 h)))

-- What is checked in the innermost class, whose head must be complete.
unfoldable pub class_constructs : Text → ℕ → Text → Option (Block × ClassInfo) → Option (List Event)
unfolding last_name matched_constructor
class_constructs filename linenum line none = some []
class_constructs filename linenum line (some (b, c)) =
    if not b.seen_open_brace
    then some []
    else let name = last_name [] c.name in
      matched_constructor filename linenum name (match_re (constructor_re name) line)

-- CheckForNonStandardConstructs; `none` is the IndexError of the collapsing.
unfoldable pub check_for_non_standard_constructs :
    Text → CleansedLines → ℕ → List Block → Option (List Event)
unfolding line_constructs innermost_class_block class_constructs
check_for_non_standard_constructs filename clean_lines linenum st =
    let line = line_at clean_lines.elided linenum in
    Option.map
      (λ others.
        line_constructs filename linenum (line_at clean_lines.lines linenum) line ++ others)
      (class_constructs filename linenum line (innermost_class_block st))
