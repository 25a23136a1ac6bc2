-- ===== src/Lint/Language/Sound.antt =====
-- What the checks of the use of the language and of non-standard constructs report.
use ringfile.Prelude.{ℕ, Bool, not, Option, Text, List, [], ◌∷◌, same, Option-cases, inl, inr}
use ringfile.Prelude.Strings.{one_of}
use ringfile.Lint.Categories.{error_categories}
use ringfile.Lint.Regex.{Hit}
use ringfile.Lint.Nolint.{is_category}
use ringfile.Lint.Conditions.{IsSound, is_sound, sound_rules}
use ringfile.Lint.Nesting.Block.{Block}
use ringfile.Lint.Include.{IncludeState, check_next_include_order, add_header}
use ringfile.Lint.FileName.{classify_include}
use ringfile.Lint.Outcomes.{IsSoundResult, result_rules}
use ringfile.Lint.Constructs.{line_constructs, constructor_events}
use ringfile.Lint.Language.References.{reference_events, check_for_non_const_reference}
use ringfile.Lint.Language.Includes.{order_events, if_asked, stream_events}
use ringfile.Lint.Language.Calls.{check_global_static, check_printf, format_events, memset_events}
use ringfile.Lint.Language.All.{array_events, integer_events, class_end_events, language_events}

module _ (filename : Text) where
  references-IsSound :
      (linenum : ℕ) (hs : List Hit) → IsSound filename (reference_events filename linenum hs)
  unfolding reference_events is_sound is_category one_of error_categories same
  references-IsSound linenum [] = search sound_rules
  references-IsSound linenum (h ∷ hs) =
      let others = references-IsSound linenum hs in search (sound_rules, others) depth 8

  pub reference-IsSound :
      (elided : List Text) (linenum : ℕ) (previous : Option Block)
      → IsSound filename (check_for_non_const_reference filename elided linenum previous)
  unfolding check_for_non_const_reference
  reference-IsSound elided linenum previous = search (sound_rules, references-IsSound)

  static-IsSound :
      (elided : List Text) (linenum : ℕ)
      → IsSound filename (check_global_static filename elided linenum)
  unfolding check_global_static is_sound is_category one_of error_categories same
  static-IsSound elided linenum = search sound_rules depth 10

  printf-IsSound :
      (line : Text) (linenum : ℕ) → IsSound filename (check_printf filename line linenum)
  unfolding check_printf is_sound is_category one_of error_categories same
  printf-IsSound line linenum = search sound_rules depth 10

  format-IsSound :
      (linenum : ℕ) (line : Text) → IsSound filename (format_events filename linenum line)
  unfolding format_events is_sound is_category one_of error_categories same
  format-IsSound linenum line = search sound_rules depth 10

  memset-IsSound :
      (linenum : ℕ) (line : Text) → IsSound filename (memset_events filename linenum line)
  unfolding memset_events is_sound is_category one_of error_categories same
  memset-IsSound linenum line = search sound_rules depth 10

  array-IsSound :
      (linenum : ℕ) (line : Text) → IsSound filename (array_events filename linenum line)
  unfolding array_events is_sound is_category one_of error_categories same
  array-IsSound linenum line = search sound_rules depth 10

  integer-IsSound :
      (linenum : ℕ) (line : Text) → IsSound filename (integer_events filename linenum line)
  unfolding integer_events is_sound is_category one_of error_categories same
  integer-IsSound linenum line = search sound_rules depth 10

  class_end-IsSound :
      (elided : List Text) (linenum : ℕ)
      → IsSound filename (class_end_events filename elided linenum)
  unfolding class_end_events is_sound is_category one_of error_categories same
  class_end-IsSound elided linenum = search sound_rules depth 10

  -- What CheckLanguage reports of a line, the casts left out, is about the file, under a category that a
  -- NOLINT comment can name and with a confidence of 5 at most.
  pub language_events-IsSound :
      (file_extension : Text) (elided : List Text) (linenum : ℕ)
      → IsSound filename (language_events filename file_extension elided linenum)
  unfolding language_events is_sound is_category one_of error_categories same
  language_events-IsSound file_extension elided linenum =
      search
        (
          sound_rules, static-IsSound, printf-IsSound, format-IsSound, memset-IsSound,
          array-IsSound, integer-IsSound, class_end-IsSound,
        )
        depth 18 fits 3000

  pub stream-IsSound :
      (linenum : ℕ) (header : Text) → IsSound filename (stream_events filename linenum header)
  unfolding stream_events is_sound is_category one_of error_categories same
  stream-IsSound linenum header = search sound_rules depth 10

  pub order-IsSound :
      (repository_name : Option Text) (elided : List Text) (linenum : ℕ) (header : Text)
      (is_system : Bool)
      → (s : IncludeState)
      → IsSoundResult filename
          (order_events filename repository_name elided linenum header is_system s)
  unfolding order_events IsSoundResult is_sound is_category one_of error_categories same
  order-IsSound repository_name elided linenum header is_system s =
      elim (Option-cases (if_asked (not is_system) repository_name)) [
        | inl e ↦ rw (order_events, e) tt
        | inr (own, e) ↦
            let r =
              check_next_include_order (classify_include own header is_system)
                (add_header header linenum s) in
            elim (Option-cases (if_asked (not (same r.1 [])) repository_name)) [
              | inl n ↦ rw (order_events, e, n) tt
              | inr (name, n) ↦
                  rw (order_events, e, n) (search (result_rules, sound_rules) depth 12)
            ]
      ]

  pub line-IsSound :
      (linenum : ℕ) (line elided : Text)
      → IsSound filename (line_constructs filename linenum line elided)
  unfolding line_constructs is_sound is_category one_of error_categories same
  line-IsSound linenum line elided = search sound_rules depth 14

  pub constructor-IsSound :
      (linenum : ℕ) (name : Text) (is_marked_explicit : Bool) (args : List Text)
      → IsSound filename (constructor_events filename linenum name is_marked_explicit args)
  unfolding constructor_events is_sound is_category one_of error_categories same
  constructor-IsSound linenum name is_marked_explicit args = search sound_rules depth 10
