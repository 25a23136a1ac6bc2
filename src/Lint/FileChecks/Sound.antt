-- ===== src/Lint/FileChecks/Sound.antt =====
-- What the checks of whole files report.
use ringfile.Prelude.{
  ℕ, zero, suc, Bool, true, false, ◌≡◌, if◌then◌else◌, codes, length, ◌+◌, List, [], ◌∷◌, Text,
  same, refl, inl, inr, Option-cases,
}
use ringfile.Prelude.Strings.{one_of}
use ringfile.Lint.Categories.{error_categories}
use ringfile.Lint.Nolint.{is_category}
use ringfile.Lint.FileChecks.{
  check_for_multiline_comments_and_strings, check_for_copyright, check_for_bad_characters,
  check_for_newline_at_eof, bad_characters_from, utf8_events, nul_events,
}
use ringfile.Lint.FileChecks.Guard.{
  Guard, guard_call, ifndef_events, endif_events, guard_events, check_for_header_guard,
}
use ringfile.Lint.Nolint.Sound.{nolint-IsSound}
use ringfile.Lint.Outcomes.{IsSoundResult, result_rules}
use ringfile.Lint.Comments.{unterminated, remove_loop, remove_multi_line_comments}
use ringfile.Lint.Conditions.{
  IsSound, IsSoundReport, none-IsSound, call-IsSound, if-IsSound, is_sound, sound_rules,
}

module _ (filename : Text) where
  pub multiline-IsSound :
      (elided : Text) (linenum : ℕ)
      → IsSound filename (check_for_multiline_comments_and_strings filename elided linenum)
  unfolding check_for_multiline_comments_and_strings is_sound is_category one_of error_categories
      same
  multiline-IsSound elided linenum = search sound_rules depth 10

  pub copyright-IsSound :
      (lines : List Text) → IsSound filename (check_for_copyright filename lines)
  unfolding check_for_copyright is_sound is_category one_of error_categories same
  copyright-IsSound lines = search sound_rules depth 10

  pub newline-IsSound :
      (lines : List Text) → IsSound filename (check_for_newline_at_eof filename lines)
  unfolding check_for_newline_at_eof is_sound is_category one_of error_categories same
  newline-IsSound lines = search sound_rules depth 10

  bad_from-IsSound :
      (i : ℕ) (lines : List Text) → IsSound filename (bad_characters_from filename i lines)
  unfolding bad_characters_from utf8_events nul_events is_sound is_category one_of error_categories
      same
  bad_from-IsSound i [] = search sound_rules
  bad_from-IsSound i (l ∷ ls) =
      let others = bad_from-IsSound (i + 1) ls in search (sound_rules, others) depth 10

  pub bad_characters-IsSound :
      (lines : List Text) → IsSound filename (check_for_bad_characters filename lines)
  unfolding check_for_bad_characters
  bad_characters-IsSound lines = bad_from-IsSound 0 lines

  guard_level : (b : Bool) → is_sound (codes "build/header_guard") (if b then 0 else 5) ≡ true
  unfolding is_sound is_category one_of error_categories same
  guard_level true = refl
  guard_level false = refl

  guard_call-IsSound :
      (linenum confidence : ℕ) (message : Text)
      → is_sound (codes "build/header_guard") confidence ≡ true
      → IsSoundReport filename (guard_call filename linenum confidence message)
  unfolding guard_call
  guard_call-IsSound linenum confidence message h = call-IsSound filename linenum confidence _ _ h

  ifndef-IsSound :
      (lines : List Text) (cppvar : Text) (g : Guard) (ifndef : Text)
      → IsSound filename (ifndef_events filename lines cppvar g ifndef)
  unfolding ifndef_events
  ifndef-IsSound lines cppvar g ifndef =
      search (sound_rules, guard_call-IsSound, guard_level, nolint-IsSound) depth 10

  endif-IsSound :
      (lines : List Text) (cppvar : Text) (g : Guard)
      → IsSound filename (endif_events filename lines cppvar g)
  unfolding endif_events
  endif-IsSound lines cppvar g =
      search (sound_rules, guard_call-IsSound, guard_level, nolint-IsSound) depth 10

  guard_events-IsSound :
      (lines : List Text) (cppvar : Text) (g : Guard)
      → IsSound filename (guard_events filename lines cppvar g)
  unfolding guard_events is_sound is_category one_of error_categories same
  guard_events-IsSound lines cppvar g = elim (Option-cases g.ifndef) [
    | inl e ↦ rw (guard_events, e) (search (sound_rules, guard_call-IsSound))
    | inr (ifndef, e) ↦ elim (Option-cases g.define) [
      | inl e' ↦ rw (guard_events, e, e') (search (sound_rules, guard_call-IsSound))
      | inr (define, e') ↦
          rw (guard_events, e, e')
            (search (sound_rules, guard_call-IsSound, ifndef-IsSound, endif-IsSound) depth 10)
    ]
  ]

  pub guard-IsSound :
      (variable : Text) (lines : List Text)
      → IsSound filename (check_for_header_guard variable filename lines)
  unfolding check_for_header_guard
  guard-IsSound variable lines = search (none-IsSound, if-IsSound, guard_events-IsSound)

  unterminated-IsSound : (linenum : ℕ) → IsSoundReport filename (unterminated filename linenum)
  unfolding unterminated is_sound is_category one_of error_categories same
  unterminated-IsSound linenum = call-IsSound filename linenum 5 _ _ refl

  remove_loop-IsSound :
      (fuel : ℕ) (lines : List Text) (lineix : ℕ)
      → IsSoundResult filename (remove_loop fuel filename lines lineix)
  unfolding remove_loop IsSoundResult
  remove_loop-IsSound zero lines lineix = tt
  remove_loop-IsSound (suc fuel) lines lineix =
      let rest = λ (ls : List Text) (i : ℕ). remove_loop-IsSound fuel ls i in
      search (result_rules, sound_rules, unterminated-IsSound, rest) depth 10

  pub comments-IsSound :
      (lines : List Text) → IsSoundResult filename (remove_multi_line_comments filename lines)
  unfolding remove_multi_line_comments
  comments-IsSound lines = remove_loop-IsSound (suc (length lines)) lines 0
