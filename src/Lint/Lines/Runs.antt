-- ===== src/Lint/Lines/Runs.antt =====
-- Runs of the checks of the lines of a file.
use ringfile.Prelude.{false, some, [], ◌∷◌, codes}
use ringfile.Lint.Cleanse.{CleansedLines, cleanse}
use ringfile.Lint.Outcomes.{IsSoundResult}
use ringfile.Lint.Lines.{process_all, Limits}
use ringfile.Lint.Lines.Sound.{process_all-IsSound}

abbrev code : CleansedLines
code = cleanse (codes "//" ∷ codes "void f() { g( x); }" ∷ codes "class A {" ∷ codes "//" ∷ [])

abbrev limits : Limits
limits = record { verbose_level = 0; line_length = 80 }

process_all-IsSound_example : IsSoundResult (codes "a.cc") (
    process_all
      (λ s. s)
      (λ x. false)
      (λ x. false)
      (codes "A_H_")
      some
      limits
      (codes "a.cc")
      (codes "cc")
      code)
process_all-IsSound_example =
    process_all-IsSound (λ s. s) (λ x. false) (λ x. false) (codes "A_H_") some limits (codes "a.cc")
      (codes "cc") code
