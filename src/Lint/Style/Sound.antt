-- ===== src/Lint/Style/Sound.antt =====
-- What the checks of the style of a line report.
use ringfile.Prelude.{ℕ, ◌+◌, Bool, Text, List, [], ◌∷◌, same, length, Option-cases, inl, inr}
use ringfile.Prelude.Strings.{one_of}
use ringfile.Lint.Categories.{error_categories}
use ringfile.Lint.Regex.{Hit, group_or_empty}
use ringfile.Lint.Nolint.{is_category}
use ringfile.Lint.Cleanse.{CleansedLines}
use ringfile.Lint.Conditions.{IsSound, is_sound, sound_rules}
use ringfile.Lint.Brackets.{Place}
use ringfile.Lint.Nesting.Block.{Block, BlockKind, class_info, ClassInfo}
use ringfile.Lint.Nesting.Stack.{Nesting}
use ringfile.Lint.Style.Comments.{check_comment, todo_events, check_spacing_for_function_call}
use ringfile.Lint.Style.Blank.{
  blank_line_events, check_spacing, check_section_spacing, check_access, disallow_events,
}
use ringfile.Lint.Style.Operators.{
  angle_events, check_operator_spacing, check_parenthesis_spacing, check_comma_spacing,
  check_alt_tokens, alt_token_events,
}
use ringfile.Lint.Style.Braces.{
  check_braces_spacing, check_braces, else_if_events, check_if_else, if_else_events, body_events,
}
use ringfile.Lint.Style.Semicolons.{check_trailing_semicolon, check_empty_block_body}
use ringfile.Lint.Style.Checks.{check_check}
use ringfile.Lint.Style.Rvalues.{check_rvalue_reference, and_match}
use ringfile.Lint.Style.RvalueTypes.{is_rvalue_type}
use ringfile.Lint.FileChecks.Guard.{line_at}
use ringfile.Lint.Outcomes.{IsSoundOption, IsSoundOption-some, map-IsSoundOption, option_rules}
use ringfile.Lint.Style.All.{edge_events, length_events, command_events, check_style}

module _ (filename : Text) where
  comment-IsSound :
      (line : Text) (linenum next : ℕ) → IsSound filename (check_comment line filename linenum next)
  unfolding check_comment todo_events is_sound is_category one_of error_categories same
  comment-IsSound line linenum next = search sound_rules depth 12

  function_call-IsSound :
      (line : Text) (linenum : ℕ)
      → IsSound filename (check_spacing_for_function_call filename line linenum)
  unfolding check_spacing_for_function_call is_sound is_category one_of error_categories same
  function_call-IsSound line linenum = search sound_rules depth 12

  blank-IsSound :
      (clean_lines : CleansedLines) (linenum : ℕ)
      → IsSound filename (blank_line_events filename clean_lines linenum)
  unfolding blank_line_events is_sound is_category one_of error_categories same
  blank-IsSound clean_lines linenum = search sound_rules depth 12

  spacing-IsSound :
      (clean_lines : CleansedLines) (linenum : ℕ) (s : Nesting)
      → IsSound filename (check_spacing filename clean_lines linenum s)
  unfolding check_spacing is_sound is_category one_of error_categories same
  spacing-IsSound clean_lines linenum s =
      search (sound_rules, blank-IsSound, comment-IsSound) depth 12

  section-IsSound :
      (clean_lines : CleansedLines) (c : ClassInfo) (linenum : ℕ)
      → IsSound filename (check_section_spacing filename clean_lines c linenum)
  unfolding check_section_spacing is_sound is_category one_of error_categories same
  section-IsSound clean_lines c linenum = search sound_rules depth 12

  disallow-IsSound :
      (linenum : ℕ) (h : Hit) (k : BlockKind)
      → IsSound filename (disallow_events filename linenum h k)
  unfolding disallow_events is_sound is_category one_of error_categories same
  disallow-IsSound linenum h (class_info c) = search sound_rules depth 12
  disallow-IsSound linenum h _ = search sound_rules

  access-IsSound :
      (line : Text) (linenum : ℕ) (st : List Block)
      → IsSound filename (check_access filename line linenum st)
  unfolding check_access
  access-IsSound line linenum [] = search sound_rules
  access-IsSound line linenum (b ∷ st) = search (sound_rules, disallow-IsSound)

  angle-IsSound :
      (elided : List Text) (line : Text) (linenum : ℕ)
      → IsSound filename (angle_events filename elided line linenum)
  unfolding angle_events is_sound is_category one_of error_categories same
  angle-IsSound elided line linenum = search sound_rules depth 12

  operators-IsSound :
      (elided : List Text) (linenum : ℕ)
      → IsSound filename (check_operator_spacing filename elided linenum)
  unfolding check_operator_spacing is_sound is_category one_of error_categories same
  operators-IsSound elided linenum = search (sound_rules, angle-IsSound) depth 12

  parentheses-IsSound :
      (line : Text) (linenum : ℕ)
      → IsSound filename (check_parenthesis_spacing filename line linenum)
  unfolding check_parenthesis_spacing is_sound is_category one_of error_categories same
  parentheses-IsSound line linenum = search sound_rules depth 12

  commas-IsSound :
      (raw line : Text) (linenum : ℕ)
      → IsSound filename (check_comma_spacing filename raw line linenum)
  unfolding check_comma_spacing is_sound is_category one_of error_categories same
  commas-IsSound raw line linenum = search sound_rules depth 12

  tokens-IsSound :
      (linenum : ℕ) (hs : List Hit) → IsSound filename (alt_token_events filename linenum hs)
  unfolding alt_token_events is_sound is_category one_of error_categories same
  tokens-IsSound linenum [] = search sound_rules
  tokens-IsSound linenum (h ∷ hs) = search (sound_rules, tokens-IsSound linenum hs)

  alt_tokens-IsSound :
      (line : Text) (linenum : ℕ) → IsSound filename (check_alt_tokens filename line linenum)
  unfolding check_alt_tokens
  alt_tokens-IsSound line linenum = search (sound_rules, tokens-IsSound)

  braces_spacing-IsSound :
      (elided : List Text) (linenum : ℕ)
      → IsSound filename (check_braces_spacing filename elided linenum)
  unfolding check_braces_spacing is_sound is_category one_of error_categories same
  braces_spacing-IsSound elided linenum = search sound_rules depth 12

  else_if-IsSound :
      (elided : List Text) (line : Text) (linenum : ℕ)
      → IsSound filename (else_if_events filename elided line linenum)
  unfolding else_if_events is_sound is_category one_of error_categories same
  else_if-IsSound elided line linenum = search sound_rules depth 12

  body-IsSound :
      (elided : List Text) (linenum if_indent : ℕ) (condition : Bool) (endlinenum : ℕ)
      (endline : Text)
      → IsSound filename
          (body_events filename elided linenum if_indent condition endlinenum endline)
  unfolding body_events is_sound is_category one_of error_categories same
  body-IsSound elided linenum if_indent condition endlinenum endline = search sound_rules depth 12

  if_else-IsSound :
      (elided : List Text) (linenum if_indent : ℕ) (condition : Bool) (place : Place)
      → IsSound filename (if_else_events filename elided linenum if_indent condition place)
  unfolding if_else_events
  if_else-IsSound elided linenum if_indent condition place =
      search (sound_rules, body-IsSound) depth 8

  check_if_else-IsSound :
      (elided : List Text) (line : Text) (linenum : ℕ)
      → IsSound filename (check_if_else filename elided line linenum)
  unfolding check_if_else
  check_if_else-IsSound elided line linenum = search (sound_rules, if_else-IsSound) depth 8

  braces-IsSound :
      (elided : List Text) (linenum : ℕ) → IsSound filename (check_braces filename elided linenum)
  unfolding check_braces is_sound is_category one_of error_categories same
  braces-IsSound elided linenum =
      search (sound_rules, else_if-IsSound, check_if_else-IsSound) depth 14

  semicolon-IsSound :
      (elided : List Text) (linenum : ℕ)
      → IsSound filename (check_trailing_semicolon filename elided linenum)
  unfolding check_trailing_semicolon is_sound is_category one_of error_categories same
  semicolon-IsSound elided linenum = search sound_rules depth 12

  body_end-IsSound :
      (elided : List Text) (linenum : ℕ)
      → IsSound filename (check_empty_block_body filename elided linenum)
  unfolding check_empty_block_body is_sound is_category one_of error_categories same
  body_end-IsSound elided linenum = search sound_rules depth 12

  check-IsSound :
      (elided : List Text) (linenum : ℕ) → IsSound filename (check_check filename elided linenum)
  unfolding check_check is_sound is_category one_of error_categories same
  check-IsSound elided linenum = search sound_rules depth 12

  rvalue-IsSound :
      (elided : List Text) (linenum : ℕ) (s : Nesting)
      → IsSoundOption filename (check_rvalue_reference filename elided linenum s)
  unfolding check_rvalue_reference is_sound is_category one_of error_categories same
  rvalue-IsSound elided linenum s = elim (Option-cases (and_match (line_at elided linenum))) [
    | inl e ↦ rw (check_rvalue_reference, e) (search (option_rules, sound_rules))
    | inr (h, e) ↦
        let asked =
          is_rvalue_type (length (line_at elided linenum) + 1) s.previous_stack_top elided linenum
            (length (group_or_empty 1 h)) in
        elim (Option-cases asked) [
          | inl n ↦ rw (check_rvalue_reference, e, n) (search (option_rules, sound_rules) depth 12)
          | inr (b, n) ↦
              rw (check_rvalue_reference, e, n) (search (option_rules, sound_rules) depth 12)
        ]
  ]

  edge-IsSound :
      (clean_lines : CleansedLines) (linenum : ℕ)
      → IsSound filename (edge_events filename clean_lines linenum)
  unfolding edge_events is_sound is_category one_of error_categories same
  edge-IsSound clean_lines linenum = search sound_rules depth 12

  command-IsSound :
      (elided : List Text) (linenum : ℕ) → IsSound filename (command_events filename elided linenum)
  unfolding command_events is_sound is_category one_of error_categories same
  command-IsSound elided linenum = search sound_rules depth 12

  module _ (normalize : Text → Text) (is_wide is_combining : ℕ → Bool) (cppvar : Text) where
    length-IsSound :
        (file_extension line : Text) (line_length linenum : ℕ)
        → IsSound filename (
            length_events normalize is_wide is_combining cppvar filename file_extension line
              line_length linenum)
    unfolding length_events is_sound is_category one_of error_categories same
    length-IsSound file_extension line line_length linenum = search sound_rules depth 12

    -- Where the checks of the style of a line give a result, what they report is about the file, under a category that a NOLINT
    -- comment can name and with a confidence of 5 at most.
    pub check_style-IsSound :
        (clean_lines : CleansedLines) (linenum : ℕ) (file_extension : Text) (s : Nesting)
        → (line_length : ℕ)
        → IsSoundOption filename (
            check_style normalize is_wide is_combining cppvar filename clean_lines linenum
              file_extension s line_length)
    unfolding check_style
    check_style-IsSound clean_lines linenum file_extension s line_length =
        map-IsSoundOption filename _ (check_rvalue_reference filename clean_lines.elided linenum s)
          λ es e.
            let others =
              IsSoundOption-some filename _ (rvalue-IsSound clean_lines.elided linenum s) e in
            search
              (
                sound_rules, edge-IsSound, length-IsSound, command-IsSound, braces-IsSound,
                semicolon-IsSound, body_end-IsSound, access-IsSound, spacing-IsSound,
                operators-IsSound, parentheses-IsSound, commas-IsSound, braces_spacing-IsSound,
                function_call-IsSound, others, check-IsSound, alt_tokens-IsSound, section-IsSound,
              )
              depth 24 fits 4000
