-- ===== src/Lint/Nolint/Runs.antt =====
-- Runs of ParseNolintSuppressions.
use ringfile.Prelude.{◌≡◌, refl, codes, some, none, [], ◌∷◌, starts_with, same}
use ringfile.Prelude.Strings.{ends_with, one_of}
use ringfile.Lint.Regex.{search_re, mem, group_of}
use ringfile.Lint.Report.{suppress}
use ringfile.Lint.Categories.{error_categories}
use ringfile.Lint.Nolint.{parse_nolint_suppressions, is_category}
use ringfile.Prelude.{All}
use ringfile.Lint.Nolint.Known.{parse_nolint_suppressions-IsSound, IsSound}

all_test :
    parse_nolint_suppressions (codes "a.cc") (codes "int x;  // NOLINT") 7 ≡ suppress none 7 ∷ []
unfolding parse_nolint_suppressions search_re mem group_of
all_test = refl

next_test :
    parse_nolint_suppressions (codes "a.cc") (codes "// NOLINTNEXTLINE(runtime/int)") 7
    ≡ suppress (some (codes "runtime/int")) 8 ∷ []
unfolding parse_nolint_suppressions search_re mem group_of ends_with same is_category one_of
    error_categories starts_with
next_test = refl

parse_nolint_suppressions-IsSound_test :
    All
      (IsSound 7)
      (parse_nolint_suppressions (codes "a.cc") (codes "// NOLINTNEXTLINE(runtime/int)") 7)
parse_nolint_suppressions-IsSound_test =
    parse_nolint_suppressions-IsSound (codes "a.cc") (codes "// NOLINTNEXTLINE(runtime/int)") 7
