-- ===== src/Lint/Language/Results.antt =====
-- What CheckCasts, CheckIncludeLine, CheckLanguage and CheckForNonStandardConstructs report where they
-- give a result.
use ringfile.Prelude.{
  true, false, if◌then◌else◌, ℕ, Bool, Option, none, some, Text, List, [], ◌∷◌, same, inl, inr,
  Option-cases,
}
use ringfile.Prelude.Strings.{one_of}
use ringfile.Lint.Categories.{error_categories}
use ringfile.Lint.Regex.{Re, Hit, match_re}
use ringfile.Lint.Nolint.{is_category}
use ringfile.Lint.Report.{Event}
use ringfile.Lint.FileChecks.Guard.{line_at}
use ringfile.Lint.Cleanse.{CleansedLines, include_re}
use ringfile.Lint.Conditions.{
  IsSound, IsSoundReport, is_sound, sound_rules, on, on_or, none-IsSound, if-IsSound,
  append-IsSound,
}
use ringfile.Lint.Outcomes.{
  IsSoundOption, IsSoundOption-some, map-IsSoundOption, option_rules, IsSoundResult, result_rules,
  if-IsSoundOption,
}
use ringfile.Lint.Nesting.Block.{Block, ClassInfo}
use ringfile.Lint.Include.{IncludeState, find_header}
use ringfile.Lint.Constructs.{
  matched_constructor, class_constructs, check_for_non_standard_constructs, innermost_class_block,
}
use ringfile.Lint.Language.Casts.{
  check_c_style_cast, cast_event, address_event, brackets_events, taken_events, address_events,
  c_style_events, check_casts,
}
use ringfile.Lint.Language.Includes.{header_events, check_include_line}
use ringfile.Lint.Language.All.{check_language}
use ringfile.Lint.Language.Sound.{
  language_events-IsSound, stream-IsSound, order-IsSound, line-IsSound, constructor-IsSound,
}

-- No report, or one that is sound
unfoldable IsSoundCast : Text → Option Event → Type 0
IsSoundCast filename none = Unit
IsSoundCast filename (some event) = IsSoundReport filename event

module _ (filename : Text) where
  none-IsSoundCast : IsSoundCast filename none
  unfolding IsSoundCast
  none-IsSoundCast = tt

  some-IsSoundCast :
      (event : Event) → IsSoundReport filename event → IsSoundCast filename (some event)
  unfolding IsSoundCast
  some-IsSoundCast event h = h

  if-IsSoundCast :
      (b : Bool) (x y : Option Event)
      → IsSoundCast filename x
      → IsSoundCast filename y
      → IsSoundCast filename (if b then x else y)
  if-IsSoundCast true x y h k = h
  if-IsSoundCast false x y h k = k

ruleset cast_rules = (sound_rules, option_rules, none-IsSoundCast, some-IsSoundCast, if-IsSoundCast)

module _ (filename : Text) where
  event-IsSoundCast :
      (clean_lines : CleansedLines) (linenum : ℕ) (cast_type : Text) (o : Option Hit)
      → IsSoundCast filename (cast_event filename clean_lines linenum cast_type o)
  unfolding cast_event is_sound is_category one_of error_categories same
  event-IsSoundCast clean_lines linenum cast_type none = search cast_rules
  event-IsSoundCast clean_lines linenum cast_type (some h) = search cast_rules depth 10

  cast-IsSound :
      (clean_lines : CleansedLines) (linenum : ℕ) (cast_type : Text) (pattern : Re)
      → IsSoundCast filename (check_c_style_cast filename clean_lines linenum cast_type pattern)
  unfolding check_c_style_cast
  cast-IsSound clean_lines linenum cast_type pattern =
      event-IsSoundCast clean_lines linenum cast_type _

  only-IsSound : (o : Option Event) → IsSoundCast filename o → IsSound filename (on o (λ e. e ∷ []))
  unfolding IsSoundCast
  only-IsSound none h = search sound_rules
  only-IsSound (some e) h = search (sound_rules, h)

  or-IsSound :
      (o : Option Event) (events : List Event)
      → IsSoundCast filename o
      → IsSound filename events
      → IsSound filename (on_or o (λ e. e ∷ []) events)
  unfolding IsSoundCast
  or-IsSound none events h k = k
  or-IsSound (some e) events h k = search (sound_rules, h)

  c_style-IsSound :
      (clean_lines : CleansedLines) (linenum : ℕ)
      → IsSound filename (c_style_events filename clean_lines linenum)
  unfolding c_style_events
  c_style-IsSound clean_lines linenum =
      search (none-IsSound, if-IsSound, append-IsSound, only-IsSound, or-IsSound, cast-IsSound)
        depth 10

  address_event-IsSound :
      (linenum : ℕ) (b : Bool) → IsSoundReport filename (address_event filename linenum b)
  unfolding address_event is_sound is_category one_of error_categories same
  address_event-IsSound linenum b = search sound_rules

  brackets-IsSound :
      (elided : List Text) (linenum : ℕ) (o : Option Hit)
      → IsSoundOption filename (brackets_events filename elided linenum o)
  unfolding brackets_events
  brackets-IsSound elided linenum none = search (cast_rules, address_event-IsSound)
  brackets-IsSound elided linenum (some h) =
      map-IsSoundOption filename _ _ λ b e. search (sound_rules, address_event-IsSound)

  taken-IsSound :
      (elided : List Text) (linenum : ℕ) (o : Option Hit)
      → IsSoundOption filename (taken_events filename elided linenum o)
  unfolding taken_events
  taken-IsSound elided linenum none = search cast_rules
  taken-IsSound elided linenum (some h) = search (cast_rules, brackets-IsSound)

  -- What CheckCasts reports of a line
  pub casts-IsSound :
      (clean_lines : CleansedLines) (linenum : ℕ)
      → IsSoundOption filename (check_casts filename clean_lines linenum)
  unfolding check_casts address_events is_sound is_category one_of error_categories same
  casts-IsSound clean_lines linenum =
      let elided = clean_lines.elided in
      let taken = taken-IsSound elided linenum _ in
      if-IsSoundOption filename _ (some []) _ (search cast_rules) (
        map-IsSoundOption filename _ (address_events filename elided linenum) λ es e.
          let others = IsSoundOption-some filename _ taken e in
          search (sound_rules, c_style-IsSound, others) depth 10)

  header-IsSound :
      (repository_name : Option Text) (elided : List Text) (linenum : ℕ) (header : Text)
      (is_system : Bool)
      → (s : IncludeState)
      → IsSoundResult filename
          (header_events filename repository_name elided linenum header is_system s)
  unfolding header_events is_sound is_category one_of error_categories same
  header-IsSound repository_name elided linenum header is_system s =
      let fresh = order-IsSound filename repository_name elided linenum header is_system s in
      elim (Option-cases (find_header header s)) [
        | inl e ↦ rw (header_events, e) (search (result_rules, sound_rules, fresh))
        | inr (n, e) ↦ rw (header_events, e) (search (result_rules, sound_rules))
      ]

  -- What CheckIncludeLine reports
  pub include_line-IsSound :
      (repository_name : Option Text) (clean_lines : CleansedLines) (linenum : ℕ) (s : IncludeState)
      → IsSoundResult filename (check_include_line filename repository_name clean_lines linenum s)
  unfolding check_include_line is_sound is_category one_of error_categories same
  include_line-IsSound repository_name clean_lines linenum s =
      elim (Option-cases (match_re include_re (line_at clean_lines.lines linenum))) [
        | inl e ↦ rw (check_include_line, e) (search (result_rules, sound_rules) depth 10)
        | inr (h, e) ↦
            rw (check_include_line, e)
              (search (result_rules, sound_rules, header-IsSound, stream-IsSound filename) depth 10)
      ]

  -- What CheckLanguage reports
  pub language-IsSound :
      (repository_name : Option Text) (file_extension : Text) (clean_lines : CleansedLines)
      (linenum : ℕ)
      → (s : IncludeState)
      → IsSoundResult filename
          (check_language filename repository_name file_extension clean_lines linenum s)
  unfolding check_language
  language-IsSound repository_name file_extension clean_lines linenum s =
      search
        (result_rules, none-IsSound, include_line-IsSound, casts-IsSound, language_events-IsSound)
        depth 10

  matched-IsSound :
      (linenum : ℕ) (name : Text) (o : Option Hit)
      → IsSoundOption filename (matched_constructor filename linenum name o)
  unfolding matched_constructor
  matched-IsSound linenum name none = search (option_rules, none-IsSound)
  matched-IsSound linenum name (some h) =
      map-IsSoundOption filename _ _ λ args e. constructor-IsSound filename linenum name _ args

  class-IsSound :
      (linenum : ℕ) (line : Text) (o : Option (Block × ClassInfo))
      → IsSoundOption filename (class_constructs filename linenum line o)
  unfolding class_constructs
  class-IsSound linenum line none = search (option_rules, none-IsSound)
  class-IsSound linenum line (some (b, c)) =
      search (option_rules, none-IsSound, matched-IsSound) depth 8

  -- What CheckForNonStandardConstructs reports
  pub constructs-IsSound :
      (clean_lines : CleansedLines) (linenum : ℕ) (st : List Block)
      → IsSoundOption filename (check_for_non_standard_constructs filename clean_lines linenum st)
  unfolding check_for_non_standard_constructs
  constructs-IsSound clean_lines linenum st =
      let classes = class-IsSound linenum _ (innermost_class_block st) in
      map-IsSoundOption filename _ _ λ others e.
        append-IsSound filename _ _ (line-IsSound filename linenum _ _)
          (IsSoundOption-some filename _ classes e)
