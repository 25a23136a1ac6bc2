-- ===== src/Lint/RequiredIncludes/Sound.antt =====
-- What CheckForIncludeWhatYouUse reports.
use ringfile.Prelude.{Option, List, [], ◌∷◌, Text, same}
use ringfile.Prelude.Strings.{one_of}
use ringfile.Lint.Categories.{error_categories}
use ringfile.Lint.Nolint.{is_category}
use ringfile.Lint.Cleanse.{CleansedLines}
use ringfile.Lint.Include.{IncludeState, Entry}
use ringfile.Lint.Conditions.{IsSound, is_sound, sound_rules, none-IsSound, if-IsSound}
use ringfile.Lint.RequiredIncludes.{Required, missing_events, check_for_include_what_you_use}

module _ (abspath : Text → Text) (header_lines : Text → Option (List Text))
    (header_keys : List Entry → List Text) (items : Required → Required) where
  missing-IsSound :
      (filename : Text) (d : List Entry) (required : Required)
      → IsSound filename (missing_events abspath header_lines header_keys items filename d required)
  unfolding missing_events is_sound is_category one_of error_categories same
  missing-IsSound filename d [] = search sound_rules
  missing-IsSound filename d ((header, (linenum, template)) ∷ required) =
      let others = missing-IsSound filename d required in search (sound_rules, others)

  -- What CheckForIncludeWhatYouUse reports
  pub what_you_use-IsSound :
      (filename : Text) (clean_lines : CleansedLines) (s : IncludeState)
      → IsSound filename (
          check_for_include_what_you_use abspath header_lines header_keys items filename clean_lines
            s)
  unfolding check_for_include_what_you_use
  what_you_use-IsSound filename clean_lines s = search (none-IsSound, if-IsSound, missing-IsSound)
