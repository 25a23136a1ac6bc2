-- ===== src/Lint/Regex/Runs.antt =====
-- Runs of the matcher.
use ringfile.Prelude.{◌≡◌, refl, [], ◌∷◌, codes, true}
use ringfile.Prelude.Strings.{is_space}
use ringfile.Lint.Regex.{searches, replace_all, lit, all_of, plus, space, spaces, boundary}

search_test :
    searches (all_of (boundary ∷ lit (codes "operator") ∷ spaces ∷ [])) (codes "x operator ") ≡ true
unfolding searches is_space
search_test = refl

sub_test : replace_all (plus space) (λ _. codes "_") (codes "a  b c") ≡ codes "a_b_c"
unfolding replace_all is_space
sub_test = refl
