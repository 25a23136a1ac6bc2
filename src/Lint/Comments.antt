-- ===== src/Lint/Comments.antt =====
-- The removal of multi-line comments in tools/cpplint.py: FindNextMultiLineCommentStart,
-- FindNextMultiLineCommentEnd, RemoveMultiLineCommentsFromRange and RemoveMultiLineComments.
pub mod Removal
mod Runs
use ringfile.Prelude.{
  ℕ, zero, suc, ◌+◌, Bool, true, false, not, ◌&&◌, ltb, leb, Option, none, some, List, [], ◌∷◌,
  Text, if◌then◌else◌, codes, length, drop, starts_with,
}
use ringfile.Prelude.Strings.{strip, is_unicode_space, find_from, ends_with}
use ringfile.Lint.Report.{Event, report}

unfoldable pub is_none : Option ℕ → Bool
is_none none = true
is_none (some n) = false

-- line.strip().startswith('/*') and line.strip().find('*/', 2) < 0
unfoldable pub starts_comment : Text → Bool
unfolding is_none
starts_comment line =
    let t = strip is_unicode_space line in
    starts_with t (codes "/*") && is_none (find_from 2 t (codes "*/"))

-- line.strip().endswith('*/')
unfoldable pub ends_comment : Text → Bool
ends_comment line = ends_with (strip is_unicode_space line) (codes "*/")

-- The number of the first line with a property, if the first of the list has the number i.
unfoldable pub scan : (Text → Bool) → ℕ → List Text → ℕ
scan p i [] = i
scan p i (l ∷ ls) = if p l then i else scan p (i + 1) ls

unfoldable pub find_next : (Text → Bool) → List Text → ℕ → ℕ
unfolding scan
find_next p lines lineix =
    if ltb lineix (length lines) then scan p lineix (drop lineix lines) else length lines

unfoldable pub find_next_multi_line_comment_start : List Text → ℕ → ℕ
find_next_multi_line_comment_start lines lineix = find_next starts_comment lines lineix

unfoldable pub find_next_multi_line_comment_end : List Text → ℕ → ℕ
find_next_multi_line_comment_end lines lineix = find_next ends_comment lines lineix

abbrev pub dummy : Text
dummy = codes "// dummy"

-- The lines of a list whose first has the number i.
unfoldable pub clear_range : ℕ → ℕ → ℕ → List Text → List Text
clear_range i begin end [] = []
clear_range i begin end (l ∷ ls) =
    (if leb begin i && ltb i end then dummy else l) ∷ clear_range (i + 1) begin end ls

unfoldable pub remove_multi_line_comments_from_range : List Text → ℕ → ℕ → List Text
remove_multi_line_comments_from_range lines begin end = clear_range 0 begin end lines

unfoldable pub unterminated : Text → ℕ → Event
unterminated filename linenum = report (record {
  filename = filename;
  linenum = linenum;
  category = codes "readability/multiline_comment";
  confidence = 5;
  message = codes "Could not find end of multi-line comment";
})

-- The lines that result and the calls of error; `none` means that the fuel ran out.
unfoldable pub remove_loop : ℕ → Text → List Text → ℕ → Option (List Text × List Event)
remove_loop zero filename lines lineix = none
remove_loop (suc fuel) filename lines lineix =
    let begin = find_next_multi_line_comment_start lines lineix in
    let end = find_next_multi_line_comment_end lines begin in
    let rest =
      remove_loop fuel filename (remove_multi_line_comments_from_range lines begin (end + 1))
        (end + 1) in
    if not (ltb lineix (length lines))
    then some (lines, [])
    else if leb (length lines) begin
    then some (lines, [])
    else if leb (length lines) end
    then some (lines, unterminated filename (begin + 1) ∷ [])
    else rest

-- Each round takes up a line at least.
unfoldable pub remove_multi_line_comments : Text → List Text → Option (List Text × List Event)
remove_multi_line_comments filename lines = remove_loop (suc (length lines)) filename lines 0
