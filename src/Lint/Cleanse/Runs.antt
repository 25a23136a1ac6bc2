-- ===== src/Lint/Cleanse/Runs.antt =====
-- Runs of the cleaning.
use ringfile.Prelude.{◌≡◌, refl, codes, [], ◌∷◌, same}
use ringfile.Prelude.Strings.{count, replace, find, rstrip, is_unicode_space}
use ringfile.Lint.Regex.{match_re, matches, searches, replace_all, group_or_empty, mem}
use ringfile.Lint.Cleanse.{
  cleanse, cleanse_raw_strings, raw_line, cleanse_comments, is_cpp_string, collapse_strings,
}
use ringfile.Prelude.{length, List, Text}
use ringfile.Lint.Cleanse.Lengths.{length-cleanse}

collapse_test : collapse_strings (codes "f(\"a'b\", 'c', 1'000);") ≡ codes "f(\"\", '', 1000);"
unfolding collapse_strings match_re matches searches replace_all group_or_empty mem same find
    replace is_unicode_space
collapse_test = refl

comments_test : cleanse_comments (codes "x = 1; /* a */ y; // b") ≡ codes "x = 1; y;"
unfolding cleanse_comments match_re replace_all find is_cpp_string count replace rstrip
    is_unicode_space mem
comments_test = refl

raw_test :
    cleanse_raw_strings (codes "k = R\"(a" ∷ codes "  b)\";" ∷ [])
    ≡ codes "k = \"\"" ∷ codes "  \"\";" ∷ []
unfolding cleanse_raw_strings raw_line match_re group_or_empty find mem is_unicode_space
raw_test = refl

abbrev raw : List Text
raw = codes "x = R\"(a" ∷ codes "b)\"; // c" ∷ []

length-cleanse_test :
    (length (cleanse raw).elided ≡ (cleanse raw).num_lines)
    × (length (cleanse raw).lines ≡ (cleanse raw).num_lines)
    × (length (cleanse raw).raw_lines ≡ (cleanse raw).num_lines)
    × (length (cleanse raw).lines_without_raw_strings ≡ (cleanse raw).num_lines)
length-cleanse_test = length-cleanse raw
