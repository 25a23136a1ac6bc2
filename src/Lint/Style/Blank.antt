-- ===== src/Lint/Style/Blank.antt =====
-- CheckSpacing, CheckSectionSpacing, CheckAccess and GetPreviousNonBlankLine of tools/cpplint.py.
use ringfile.Prelude.{
  ℕ, zero, suc, ◌+◌, ◌-◌, Bool, false, not, ◌&&◌, ◌||◌, ltb, leb, ◌==◌, none, some, List, [], ◌∷◌,
  ◌++◌, Text, if◌then◌else◌, codes, length, take, same,
}
use ringfile.Prelude.Strings.{find}
use ringfile.Lint.Regex.{
  any_word, Re, Hit, match_re, matches, searches, group_or_empty, all_of, any_of, lit, char, not_in,
  word, space, spaces, eol, boundary, star, plus, maybe, group, dot,
}
use ringfile.Lint.Report.{Event}
use ringfile.Lint.FileChecks.{call, is_blank_line}
use ringfile.Lint.FileChecks.Guard.{line_at}
use ringfile.Lint.Cleanse.{CleansedLines}
use ringfile.Lint.Conditions.{when, on}
use ringfile.Prelude.Strings.{is_unicode_space}
use ringfile.Lint.FileChecks.{is_some}
use ringfile.Lint.Paths.{split_last}
use ringfile.Lint.Nesting.Block.{
  Block, BlockKind, block_info, extern_c_info, class_info, namespace_info, ClassInfo,
}
use ringfile.Lint.Nesting.Stack.{Nesting, in_namespace_body, in_extern_c}
use ringfile.Lint.Style.Comments.{check_comment}

-- lines[linenum - 1], where -1 is the last line
abbrev pub line_before : List Text → ℕ → Text
line_before lines linenum = line_at lines (if linenum == 0 then length lines - 1 else linenum - 1)

-- GetPreviousNonBlankLine, without the number of the line, which no call asks for.
unfoldable pub get_previous_non_blank_line : List Text → ℕ → Text
get_previous_non_blank_line elided zero = []
get_previous_non_blank_line elided (suc prevlinenum) =
    let above = get_previous_non_blank_line elided prevlinenum in
    let prevline = line_at elided prevlinenum in
    if not (is_blank_line prevline) then prevline else above

-- r' {6}\w'
abbrev pub initializer_re : Re
initializer_re = all_of (lit (codes "      ") ∷ word ∷ [])

-- The line at which the search for the opening column of an initializer list ends, among the first so
-- many lines.
unfoldable pub initializers_begin : List Text → ℕ → Bool
initializers_begin elided zero = false
initializers_begin elided (suc search_position) =
    let above = initializers_begin elided search_position in
    let line = line_at elided search_position in
    if matches initializer_re line then above else same (take 5 line) (codes "    :")

-- Whether a blank line may follow: the head of a function or its initializer list ends there.
unfoldable pub is_exception : List Text → ℕ → Text → Bool
unfolding initializers_begin
is_exception elided linenum prev_line =
    if matches initializer_re prev_line
    then initializers_begin elided (linenum - 1)
    else matches
        (all_of (
          lit (codes "    ")
          ∷ (all_of (
              word
              ∷ star (not_in (codes "("))
              ∷ char b')'
              ∷ spaces
              ∷ maybe (group 1 (all_of (lit (codes "const") ∷ spaces ∷ [])))
              ∷ group 2 (any_of (all_of (char b'{' ∷ spaces ∷ eol ∷ []) ∷ char b':' ∷ []))
              ∷ []))
          ∷ []))
        prev_line
      || matches (lit (codes "    :")) prev_line

-- Whether the last opening brace of the line is still open at its end.
unfoldable pub ends_open : Text → Bool
unfolding split_last
ends_open line = elim (split_last b'{' line) [
  | none ↦ false
  | some (before, behind) ↦ not (is_some (find behind (codes "}")))
]

-- What is checked of a blank line
unfoldable pub blank_line_events : Text → CleansedLines → ℕ → List Event
unfolding is_exception ends_open
blank_line_events filename clean_lines linenum =
    let prev_line = line_before clean_lines.elided linenum in
    let next_line = line_at clean_lines.lines_without_raw_strings (linenum + 1) in
    when (ends_open prev_line && not (is_exception clean_lines.elided linenum prev_line)) (
      call filename linenum (codes "whitespace/blank_line") 2
        (codes "Redundant blank line at the start of a code block " ++ codes "should be deleted."))
    ++ when
        (ltb (linenum + 1) clean_lines.num_lines
          && not (same next_line [])
          && matches (all_of (spaces ∷ char b'}' ∷ [])) next_line
          && not (is_some (find next_line (codes "} else "))))
        (call filename linenum (codes "whitespace/blank_line") 3
          (codes "Redundant blank line at the end of a code block " ++ codes "should be deleted."))
    ++ on
        (match_re
          (all_of (
            spaces
            ∷ group 1 (all_of (char b'p' ∷ any_word ("ublic" ∷ "rotected" ∷ "rivate" ∷ []) ∷ []))
            ∷ char b':'
            ∷ []))
          prev_line)
        (λ h.
          call filename linenum (codes "whitespace/blank_line") 3
            (codes "Do not leave a blank line after \"" ++ group_or_empty 1 h ++ codes ":\"")
          ∷ [])

-- len(line) - len(line.lstrip())
unfoldable pub leading : Text → ℕ
leading [] = 0
leading (x ∷ s) = let rest = leading s in if is_unicode_space x then suc rest else 0

-- CheckSpacing
unfoldable pub check_spacing : Text → CleansedLines → ℕ → Nesting → List Event
unfolding blank_line_events leading
check_spacing filename clean_lines linenum s =
    let raw = clean_lines.lines_without_raw_strings in
    let line = line_at raw linenum in
    let elided = line_at clean_lines.elided linenum in
    let next_line_start =
      if ltb (linenum + 1) clean_lines.num_lines then leading (line_at raw (linenum + 1)) else 0 in
    (if is_blank_line line && not (in_namespace_body s) && not (in_extern_c s)
      then blank_line_events filename clean_lines linenum
      else [])
    ++ check_comment line filename linenum next_line_start
    ++ when
        (searches (all_of (word ∷ plus space ∷ char b'[' ∷ [])) elided
          && not (
              searches
                (all_of (
                  any_of (lit (codes "delete") ∷ lit (codes "return") ∷ [])
                  ∷ plus space
                  ∷ char b'['
                  ∷ []))
                elided))
        (call filename linenum (codes "whitespace/braces") 5 (codes "Extra space before ["))
    ++ when
        (searches
            (all_of (
              lit (codes "for")
              ∷ star (char b' ')
              ∷ char b'('
              ∷ star dot
              ∷ not_in (codes ":")
              ∷ char b':'
              ∷ not_in (codes ": ")
              ∷ []))
            elided
          || searches
              (all_of (
                lit (codes "for")
                ∷ star (char b' ')
                ∷ char b'('
                ∷ star dot
                ∷ not_in (codes ": ")
                ∷ char b':'
                ∷ not_in (codes ":")
                ∷ []))
              elided)
        (call filename linenum (codes "whitespace/forcolon") 2
          (codes "Missing space around colon in range-based for loop"))

-- The first of the lines from the one of the number on, and before another, that ends with a brace; the
-- number of the class head where there is none.
unfoldable pub end_of_class_head : List Text → ℕ → ℕ → ℕ → ℕ
end_of_class_head lines zero i starting_linenum = starting_linenum
end_of_class_head lines (suc n) i starting_linenum =
    let rest = end_of_class_head lines n (i + 1) starting_linenum in
    if searches (all_of (char b'{' ∷ spaces ∷ eol ∷ [])) (line_at lines i) then i else rest

-- CheckSectionSpacing
unfoldable pub check_section_spacing : Text → CleansedLines → ClassInfo → ℕ → List Event
unfolding end_of_class_head
check_section_spacing filename clean_lines c linenum =
    let prev_line = line_at clean_lines.lines (linenum - 1) in
    let end_class_head =
      end_of_class_head clean_lines.lines (linenum - c.starting_linenum) c.starting_linenum
        c.starting_linenum in
    if leb c.last_line (c.starting_linenum + 24) || leb linenum c.starting_linenum
    then []
    else on
        (match_re
          (all_of (
            spaces
            ∷ group 1 (all_of (char b'p' ∷ any_word ("ublic" ∷ "rotected" ∷ "rivate" ∷ []) ∷ []))
            ∷ char b':'
            ∷ []))
          (line_at clean_lines.lines linenum))
        (λ h.
          when
            (not (is_blank_line prev_line)
              && not (
                  searches
                    (all_of (
                      boundary
                      ∷ group 1 (any_of (lit (codes "class") ∷ lit (codes "struct") ∷ []))
                      ∷ boundary
                      ∷ []))
                    prev_line)
              && not (searches (all_of (char b'\\' ∷ eol ∷ [])) prev_line)
              && ltb end_class_head (linenum - 1))
            (call filename linenum (codes "whitespace/blank_line") 3
              (codes "\"" ++ group_or_empty 1 h ++ codes ":\" should be preceded by a blank line")))

-- A DISALLOW macro in a block
unfoldable pub disallow_events : Text → ℕ → Hit → BlockKind → List Event
disallow_events filename linenum h block_info = []
disallow_events filename linenum h extern_c_info = []
disallow_events filename linenum h (namespace_info n) = []
disallow_events filename linenum h (class_info c) = when (not (same c.access (codes "private"))) (
    call filename linenum (codes "readability/constructors") 3
      (group_or_empty 1 h ++ codes " must be in the private: section"))

-- CheckAccess
unfoldable pub check_access : Text → Text → ℕ → List Block → List Event
unfolding disallow_events
check_access filename line linenum [] = []
check_access filename line linenum (b ∷ st) =
    on
      (match_re
        (all_of (
          spaces
          ∷ group 1 (
              all_of (
                lit (codes "DISALLOW_")
                ∷ any_of (lit (codes "COPY_AND_ASSIGN") ∷ lit (codes "IMPLICIT_CONSTRUCTORS") ∷ [])
                ∷ []))
          ∷ []))
        line)
      (λ h. disallow_events filename linenum h b.kind)
