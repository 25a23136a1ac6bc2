-- ===== src/Lint/Style/All.antt =====
-- CheckStyle of tools/cpplint.py: the line itself, and all checks of its style. The normalization and the
-- character data of the module unicodedata, and the variable of the header guard, are parameters; the
-- lines are unicode strings.
use mathlib.Core.Option
use ringfile.Prelude.{
  ℕ, suc, ◌+◌, ◌*◌, ◌/◌, Bool, false, not, ◌&&◌, ◌||◌, ltb, leb, ◌==◌, List, [], ◌∷◌, ◌++◌, Text,
  if◌then◌else◌, codes, same, reverse, Option,
}
use ringfile.Prelude.Strings.{find, count, starts_with, decimal}
use ringfile.Lint.Regex.{
  matches, all_of, lit, char, sat, word, non_space, spaces, bol, eol, star, plus, maybe, group, dot,
}
use ringfile.Lint.Report.{Event}
use ringfile.Lint.FileChecks.{call}
use ringfile.Lint.FileChecks.Guard.{line_at}
use ringfile.Lint.Cleanse.{CleansedLines}
use ringfile.Lint.Conditions.{when, on}
use ringfile.Prelude.Strings.{is_unicode_space}
use ringfile.Lint.FileChecks.{is_some}
use ringfile.Lint.Nesting.Stack.{Nesting, innermost_class}
use ringfile.Lint.Style.Comments.{check_spacing_for_function_call}
use ringfile.Lint.Style.Blank.{
  get_previous_non_blank_line, check_spacing, check_section_spacing, check_access,
}
use ringfile.Lint.Style.Operators.{
  check_operator_spacing, check_parenthesis_spacing, check_comma_spacing, check_alt_tokens,
}
use ringfile.Lint.Style.Braces.{check_braces_spacing, check_braces}
use ringfile.Lint.Style.Semicolons.{check_trailing_semicolon, check_empty_block_body}
use ringfile.Lint.Style.Checks.{check_check}
use ringfile.Lint.Style.Rvalues.{check_rvalue_reference}

abbrev pub ends_in_space : Text → Bool
ends_in_space line = elim (reverse line) [ [] ↦ false | x ∷ s ↦ is_unicode_space x ]

-- The spaces at the beginning of the line
unfoldable pub initial_spaces : Text → ℕ
initial_spaces [] = 0
initial_spaces (x ∷ s) = let rest = initial_spaces s in if x == b' ' then suc rest else 0

-- The white space at the ends of the line
unfoldable pub edge_events : Text → CleansedLines → ℕ → List Event
unfolding initial_spaces
edge_events filename clean_lines linenum =
    let line = line_at clean_lines.lines_without_raw_strings linenum in
    let n = initial_spaces line in
    when (is_some (find line (codes "\t")))
      (call filename linenum (codes "whitespace/tab") 1 (codes "Tab found; better to use spaces"))
    ++ (if ends_in_space line
        then call filename linenum (codes "whitespace/end_of_line") 4
            (codes "Line ends in whitespace.  Consider deleting these extra spaces.")
          ∷ []
        else when
            ((n == 1 || n == 3)
              && not (
                  matches
                    (all_of (
                      spaces
                      ∷ plus word
                      ∷ spaces
                      ∷ char b':'
                      ∷ spaces
                      ∷ maybe (char b'\\')
                      ∷ eol
                      ∷ []))
                    (line_at clean_lines.elided linenum))
              && not (
                  not (same (line_at clean_lines.raw_lines linenum) line)
                  && matches (all_of (bol ∷ spaces ∷ lit (codes "\"\"") ∷ [])) line))
            (call filename linenum (codes "whitespace/indent") 3 (
              codes "Weird number of spaces at line-start.  "
              ++ codes "Are you using a 2-space indent?")))

-- Whether a line may be of any length.
unfoldable pub is_long_allowed : Text → Text → Text → Bool
is_long_allowed cppvar file_extension line =
    let is_header_guard =
      same file_extension (codes "h")
      && (starts_with line (codes "#ifndef " ++ cppvar)
          || starts_with line (codes "#define " ++ cppvar)
          || starts_with line (codes "#endif  // " ++ cppvar)) in
    starts_with line (codes "#include")
    || is_header_guard
    || matches
        (all_of (
          bol
          ∷ spaces
          ∷ lit (codes "//")
          ∷ star dot
          ∷ lit (codes "http")
          ∷ group 1 (maybe (char b's'))
          ∷ lit (codes "://")
          ∷ star non_space
          ∷ eol
          ∷ []))
        line
    || matches
        (all_of (
          bol
          ∷ lit (codes "// $Id:")
          ∷ star dot
          ∷ char b'#'
          ∷ plus (sat (λ x. (leb b'0' x && leb x b'9')))
          ∷ lit (codes " $")
          ∷ eol
          ∷ []))
        line

-- More than one command on a line
unfoldable pub command_events : Text → List Text → ℕ → List Event
command_events filename elided linenum =
    let line = line_at elided linenum in
    let prevline = get_previous_non_blank_line elided linenum in
    when
      (leb 2 (count line (codes ";"))
        && not (is_some (find line (codes "for")))
        && (not (is_some (find prevline (codes "for"))) || is_some (find prevline (codes ";")))
        && not (
            (is_some (find line (codes "case ")) || is_some (find line (codes "default:")))
            && is_some (find line (codes "break;"))))
      (call filename linenum (codes "whitespace/newline") 0
        (codes "More than one command on the same line"))

module _ (normalize : Text → Text) (is_wide is_combining : ℕ → Bool) (cppvar : Text) where
  abbrev pub width_of : ℕ → ℕ
  width_of x = if is_wide x then 2 else if is_combining x then 0 else 1

  abbrev pub width : Text → ℕ
  width [] = 0
  width (x ∷ s) = width_of x + width s

  -- GetLineWidth
  unfoldable pub get_line_width : Text → ℕ
  get_line_width line = width (normalize line)

  -- The length of the line, where `line_length` is the limit; a quarter more is int(1.25 * line_length).
  unfoldable pub length_events : Text → Text → Text → ℕ → ℕ → List Event
  unfolding get_line_width is_long_allowed
  length_events filename file_extension line line_length linenum =
      let extended_length = line_length * 5 / 4 in
      if is_long_allowed cppvar file_extension line
      then []
      else if ltb extended_length (get_line_width line)
      then call filename linenum (codes "whitespace/line_length") 4 (
          codes "Lines should very rarely be longer than "
          ++ decimal extended_length
          ++ codes " characters")
        ∷ []
      else when (ltb line_length (get_line_width line)) (
          call filename linenum (codes "whitespace/line_length") 2
            (codes "Lines should be <= " ++ decimal line_length ++ codes " characters long"))

  -- CheckStyle; `none` is the RuntimeError of IsRValueType.
  unfoldable pub check_style : Text → CleansedLines → ℕ → Text → Nesting → ℕ → Option (List Event)
  unfolding edge_events length_events command_events
  check_style filename clean_lines linenum file_extension s line_length =
      let elided = clean_lines.elided in
      let line = line_at elided linenum in
      let raw = line_at clean_lines.lines_without_raw_strings linenum in
      Option.map
        (λ rvalue_events.
          edge_events filename clean_lines linenum
          ++ length_events filename file_extension raw line_length linenum
          ++ command_events filename elided linenum
          ++ check_braces filename elided linenum
          ++ check_trailing_semicolon filename elided linenum
          ++ check_empty_block_body filename elided linenum
          ++ check_access filename line linenum s.braces.stack
          ++ check_spacing filename clean_lines linenum s
          ++ check_operator_spacing filename elided linenum
          ++ check_parenthesis_spacing filename line linenum
          ++ check_comma_spacing filename raw line linenum
          ++ check_braces_spacing filename elided linenum
          ++ check_spacing_for_function_call filename line linenum
          ++ rvalue_events
          ++ check_check filename elided linenum
          ++ check_alt_tokens filename line linenum
          ++ on (innermost_class s.braces.stack)
              (λ c. check_section_spacing filename clean_lines c linenum))
        (check_rvalue_reference filename elided linenum s)
