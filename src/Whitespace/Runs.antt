-- ===== src/Whitespace/Runs.antt =====
-- Runs of the whitespace tool.
use ringfile.Prelude.{◌≡◌, refl, codes, [], ◌∷◌, List, Text, map, same}
use ringfile.Prelude.Strings.{is_space, rstrip, drop_while}
use ringfile.Whitespace.{fix_whitespace, fix_from, fix_line, trailing_whitespace, take_while}
use ringfile.Whitespace.Twice.{fix_whitespace-twice, clean_line}

abbrev file_lines : List Text
file_lines = codes "a b \t\n" ∷ codes "c\n" ∷ codes "d" ∷ []

fixed_test :
    (fix_whitespace (λ s. s) (codes "f") file_lines).0
    ≡ codes "a b\n" ∷ codes "c\n" ∷ codes "d\n" ∷ []
unfolding fix_whitespace fix_from fix_line trailing_whitespace take_while same rstrip drop_while
    is_space
fixed_test = refl

fix_whitespace-twice_example :
    ((fix_whitespace (λ s. s) (codes "f") file_lines).0 ≡ map clean_line file_lines)
    × (fix_whitespace (λ s. s) (codes "f") (fix_whitespace (λ s. s) (codes "f") file_lines).0
        ≡ (map clean_line file_lines, []))
fix_whitespace-twice_example = fix_whitespace-twice (λ s. s) (codes "f") file_lines
