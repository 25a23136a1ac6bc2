-- ===== src/Lint/Nesting/Samples.antt =====
-- Runs of NestingState.Update.
use ringfile.Prelude.{
  ℕ, ◌≡◌, refl, Option, none, some, List, [], ◌∷◌, Text, codes, All, length, same,
}
use ringfile.Prelude.Strings.{find, count, is_space}
use ringfile.Lint.Regex.{matches, match_re, searches, mem, group_or_empty}
use ringfile.Lint.Report.{Event}
use ringfile.Lint.FileChecks.{call, get_indent_level}
use ringfile.Lint.FileChecks.Guard.{line_at}
use ringfile.Lint.Cleanse.{CleansedLines}
use ringfile.Lint.Nesting as States
use ringfile.Lint.Nesting.{directive, no_directive, update_preprocessor}
use ringfile.Lint.Nesting.Block.{new_class, check_begin, last_line_from}
use ringfile.Lint.Nesting.Ends.{check_end}
use ringfile.Lint.Nesting.Stack.{Nesting, init, check_completed_blocks}
use ringfile.Lint.Nesting.Braces.{open_after}
use ringfile.Lint.Nesting.Declarations.{in_template_argument_list}
use ringfile.Lint.Nesting.Update.{begin_checks, update_access, update}
use ringfile.Lint.Nesting.Files.{IsCode, update_lines, open_after_lines, update_lines-completed}

abbrev lines_of : List Text → CleansedLines
lines_of lines = record {
  elided = lines;
  lines = lines;
  raw_lines = lines;
  num_lines = length lines;
  lines_without_raw_strings = lines;
}

abbrev main_cc : CleansedLines
main_cc =
    lines_of (
      codes "int main() {" ∷ codes "  if (f()) {" ∷ codes "    g();" ∷ codes "  }" ∷ codes "}" ∷ [])

main_cc-IsCode : All (λ l. IsCode (line_at main_cc.elided l)) (0 ∷ 1 ∷ 2 ∷ 3 ∷ 4 ∷ [])
unfolding line_at directive matches match_re is_space
main_cc-IsCode = (
  (refl, (refl, refl)),
  (
    (refl, (refl, refl)),
    ((refl, (refl, refl)), ((refl, (refl, refl)), ((refl, (refl, refl)), tt))),
  ),
)

main_cc-balanced : open_after_lines main_cc (0 ∷ 1 ∷ 2 ∷ 3 ∷ 4 ∷ []) 0 ≡ some 0
unfolding line_at open_after_lines open_after
main_cc-balanced = refl

update_lines-completed_example :
    (s' : Nesting) × (update_lines (codes "main.cc") main_cc (0 ∷ 1 ∷ 2 ∷ 3 ∷ 4 ∷ []) init
      ≡ some (s', []))
    × (length s'.braces.stack ≡ 0)
    × (check_completed_blocks (codes "main.cc") s'.braces.stack ≡ [])
update_lines-completed_example =
    update_lines-completed (codes "main.cc") main_cc (0 ∷ 1 ∷ 2 ∷ 3 ∷ 4 ∷ []) main_cc-IsCode
      main_cc-balanced

-- What is reported where the lines are read, and at the end of the file.
abbrev reports : List Text → List ℕ → Option (List Event × List Event)
reports lines ls = elim (update_lines (codes "a.h") (lines_of lines) ls init) [
  | none ↦ none
  | some (s, events) ↦ some (events, check_completed_blocks (codes "a.h") s.braces.stack)
]

-- a namespace that is not closed
namespace_test :
    reports (codes "namespace a {" ∷ []) (0 ∷ [])
    ≡ some (
      [],
      call
            (codes "a.h")
            0
            (codes "build/namespaces")
            5
            (codes "Failed to find complete declaration of namespace a")
          ∷ [],
    )
unfolding update_lines update match_re line_at is_space mem find group_or_empty
    check_completed_blocks directive matches update_preprocessor States.act init
namespace_test = refl

-- a structure whose closing brace is not aligned
struct_test :
    reports (codes "struct A {" ∷ codes " };" ∷ []) (0 ∷ 1 ∷ [])
    ≡ some (
      call
            (codes "a.h")
            1
            (codes "whitespace/indent")
            3
            (codes "Closing brace should be aligned with beginning of struct A")
          ∷ [],
      [],
    )
unfolding update_lines update match_re line_at is_space mem find group_or_empty
    check_completed_blocks directive matches update_preprocessor States.act init count
    in_template_argument_list new_class check_end get_indent_level last_line_from begin_checks
    check_begin searches update_access same
struct_test = refl
