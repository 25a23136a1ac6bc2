-- ===== src/Lint/Nesting/Runs.antt =====
-- Runs of the nesting state.
use ringfile.Prelude.{◌≡◌, refl, codes, ℕ, [], ◌∷◌}
use ringfile.Prelude.Strings.{is_space}
use ringfile.Lint.Regex.{matches}
use ringfile.Lint.Nesting.{directive, begin_if, begin_else, end_if, no_directive}
use ringfile.Lint.Nesting.Branches.{
  Source, end, code, conditional, branch, no_more, run, run-first, first_branches,
}

ifdef_test : directive (codes " # ifdef SWIG") ≡ begin_if
unfolding directive matches is_space
ifdef_test = refl

elif_test : directive (codes "#elif 0") ≡ begin_else
unfolding directive matches is_space
elif_test = refl

endif_test : directive (codes "#endif") ≡ end_if
unfolding directive matches is_space
endif_test = refl

include_test : directive (codes "#include <ifdef>") ≡ no_directive
unfolding directive matches is_space
include_test = refl

else_test : directive (codes "#else  // SWIG") ≡ begin_else
unfolding directive matches is_space
else_test = refl

-- a brace opened in either branch of an #ifdef
abbrev either_branch : Source ℕ
either_branch =
    conditional (codes " # ifdef SWIG") ifdef_test (code (λ st. 1 ∷ st) end)
      (branch (codes "#else  // SWIG") else_test (code (λ st. 2 ∷ st) end) no_more) (codes "#endif")
      endif_test (code (λ st. 3 ∷ st) end)

run-first_example :
    run ℕ either_branch (record { stack = 0 ∷ []; pp_stack = [] })
    ≡ record { stack = first_branches ℕ either_branch (0 ∷ []); pp_stack = [] }
run-first_example = run-first ℕ either_branch (0 ∷ []) []
