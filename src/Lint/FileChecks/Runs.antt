-- ===== src/Lint/FileChecks/Runs.antt =====
-- Runs of the checks of files.
use ringfile.Prelude.{◌≡◌, refl, true, codes, [], ◌∷◌}
use ringfile.Prelude.Strings.{find, lower, is_space}
use ringfile.Lint.Regex.{match_re, group_or_empty}
use ringfile.Lint.FileChecks.{check_for_copyright, any_line, mentions_copyright, get_indent_level}
use ringfile.Prelude.{List, Text, some, ◌↔◌, ◌⊎◌, All}
use ringfile.Lint.FileChecks.{check_for_bad_characters, check_for_newline_at_eof}
use ringfile.Lint.FileChecks.Guard.{check_for_header_guard, any_guard_nolint, endif_comment}
use ringfile.Lint.FileChecks.Guard.Complete.{check_for_header_guard-nil, first_name, last_endif}
use ringfile.Lint.FileChecks.Lines.{
  check_for_bad_characters-nil, check_for_newline_at_eof-nil, IsClean, marked_lines, ends_line,
}

copyright_test :
    check_for_copyright (codes "a.cc") (codes "// marker" ∷ codes "// COPYRIGHT 2014" ∷ []) ≡ []
unfolding check_for_copyright any_line mentions_copyright find lower
copyright_test = refl

indent_test : get_indent_level (codes "  x") ≡ 2
unfolding get_indent_level match_re group_or_empty is_space
indent_test = refl

abbrev header_lines : List Text
header_lines =
    codes "//" ∷ codes "#ifndef A_H_" ∷ codes "#define A_H_" ∷ codes "#endif" ∷ codes "//" ∷ []

check_for_header_guard-nil_example :
    (check_for_header_guard (codes "A_H_") (codes "a.h") header_lines ≡ []) ↔ (
      (any_guard_nolint header_lines ≡ true)
      ⊎ ((first_name (codes "#ifndef") header_lines ≡ some (codes "A_H_"))
          × (first_name (codes "#define") header_lines ≡ some (codes "A_H_"))
          × (last_endif header_lines ≡ some (endif_comment (codes "A_H_")))))
check_for_header_guard-nil_example =
    check_for_header_guard-nil (codes "A_H_") (codes "a.h") header_lines

check_for_bad_characters-nil_test :
    (check_for_bad_characters (codes "a.h") header_lines ≡ []) ↔ All IsClean header_lines
check_for_bad_characters-nil_test = check_for_bad_characters-nil (codes "a.h") header_lines

check_for_newline_at_eof-nil_test :
    (check_for_newline_at_eof (codes "a.h") (marked_lines (codes "int x;\ny")) ≡ [])
    ↔ (ends_line (codes "int x;\ny") ≡ true)
check_for_newline_at_eof-nil_test = check_for_newline_at_eof-nil (codes "a.h") (codes "int x;\ny")
