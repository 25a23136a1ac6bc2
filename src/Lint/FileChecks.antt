-- ===== src/Lint/FileChecks.antt =====
-- The checks of tools/cpplint.py that look at the lines of a whole file, or at one line alone.
pub mod Guard
pub mod Sound
pub mod Lines
mod Runs
use ringfile.Prelude.{
  ℕ, zero, suc, ◌+◌, ◌-◌, ◌%◌, Bool, true, false, not, ◌&&◌, ◌||◌, ◌==◌, ltb, Option, none, some,
  List, [], ◌∷◌, ◌++◌, Text, if◌then◌else◌, codes, length, take, drop, same, starts_with, get_elem?,
}
use ringfile.Prelude.Strings.{count, replace, find, lower, upper, is_unicode_space}
use ringfile.Lint.Regex.{
  Re, Hit, match_re, searches, replace_all, group_or_empty, all_of, lit, char, not_in, non_space,
  spaces, bol, eol, group, star, in_class,
}
use ringfile.Lint.Report.{Event, report}
use ringfile.Lint.Nolint.{parse_nolint_suppressions}

-- A call of error.
abbrev pub call : Text → ℕ → Text → ℕ → Text → Event
call filename linenum category confidence message = report (record {
  filename = filename;
  linenum = linenum;
  category = category;
  confidence = confidence;
  message = message;
})

unfoldable pub is_some : Option ℕ → Bool
is_some none = false
is_some (some n) = true

-- re.search(r'Copyright', line, re.I)
unfoldable pub mentions_copyright : Text → Bool
unfolding is_some
mentions_copyright line = is_some (find (lower line) (codes "copyright"))

unfoldable pub any_line : (Text → Bool) → List Text → Bool
any_line p [] = false
any_line p (l ∷ ls) = p l || any_line p ls

-- The lines 1 to 10, if the file has them.
unfoldable pub check_for_copyright : Text → List Text → List Event
check_for_copyright filename lines =
    if any_line mentions_copyright (take 10 (drop 1 lines))
    then []
    else call filename 0 (codes "legal/copyright") 5 (
        codes
          "No copyright message found.  You should have a line: \"Copyright [year] <Copyright Owner>\"")
      ∷ []

-- r'^( *)\S'
abbrev pub indent_re : Re
indent_re = all_of (bol ∷ group 1 (star (char b' ')) ∷ non_space ∷ [])

unfoldable pub get_indent_level : Text → ℕ
get_indent_level line = elim (match_re indent_re line) [
  | none ↦ 0
  | some h ↦ length (group_or_empty 1 h)
]

unfoldable pub has_char : ℕ → Text → Bool
has_char c [] = false
has_char c (x ∷ s) = x == c || has_char c s

unfoldable pub utf8_events : Text → ℕ → Text → List Event
unfolding has_char
utf8_events filename linenum line =
    if has_char 0xfffd line
    then call filename linenum (codes "readability/utf8") 5
        (codes "Line contains invalid UTF-8 (or Unicode replacement character).")
      ∷ []
    else []

unfoldable pub nul_events : Text → ℕ → Text → List Event
unfolding has_char
nul_events filename linenum line =
    if has_char 0 line
    then call filename linenum (codes "readability/nul") 5 (codes "Line contains NUL byte.") ∷ []
    else []

-- The lines of a list whose first has the number i.
unfoldable pub bad_characters_from : Text → ℕ → List Text → List Event
bad_characters_from filename i [] = []
bad_characters_from filename i (l ∷ ls) =
    utf8_events filename i l ++ (nul_events filename i l ++ bad_characters_from filename (i + 1) ls)

unfoldable pub check_for_bad_characters : Text → List Text → List Event
unfolding bad_characters_from
check_for_bad_characters filename lines = bad_characters_from filename 0 lines

-- not lines[-2], for a list of two lines at least
unfoldable pub is_empty_at : Option Text → Bool
is_empty_at none = false
is_empty_at (some []) = true
is_empty_at (some (x ∷ s)) = false

unfoldable pub check_for_newline_at_eof : Text → List Text → List Event
unfolding is_empty_at
check_for_newline_at_eof filename lines =
    if ltb (length lines) 3 || not (is_empty_at (get_elem? lines (length lines - 2)))
    then call filename (length lines - 2) (codes "whitespace/ending_newline") 5
        (codes "Could not find a newline character at the end of the file.")
      ∷ []
    else []

-- Of the elided line with that number.
unfoldable pub check_for_multiline_comments_and_strings : Text → Text → ℕ → List Event
check_for_multiline_comments_and_strings filename elided linenum =
    let line = replace elided (codes "\\\\") [] in
    (if ltb (count line (codes "*/")) (count line (codes "/*"))
      then call filename linenum (codes "readability/multiline_comment") 5 (
          codes
            "Complex multi-line /*...*/-style comment found. Lint may give bogus warnings.  Consider replacing these with //-style comments, with #if 0...#endif, or with more clearly structured multi-line comments.")
        ∷ []
      else [])
    ++ (if (count line (codes "\"") + count line (codes "\\\"")) % 2 == 1
        then call filename linenum (codes "readability/multiline_string") 5 (
            codes
              "Multi-line string (\"...\") found.  This lint script doesn't do well with such strings, and may give bogus warnings.  Use C++11 raw strings or concatenation instead.")
          ∷ []
        else [])

-- not line or line.isspace()
unfoldable pub is_blank_line : Text → Bool
is_blank_line [] = true
is_blank_line (x ∷ s) = is_unicode_space x && is_blank_line s
