-- ===== src/Lint/Cleanse/Lengths.antt =====
-- The cleansed lines stand for the raw ones, number by number.
use ringfile.Prelude.{suc, ◌≡◌, refl, ap, ◌∙◌, Option, List, [], ◌∷◌, Text, length, map}
use ringfile.Lint.Cleanse.{cleanse, cleanse_raw_strings, cleanse_lines_from, raw_line}

length-cleanse_from :
    (o : Option Text) (ls : List Text) → length (cleanse_lines_from o ls) ≡ length ls
unfolding cleanse_lines_from
length-cleanse_from o [] = refl
length-cleanse_from o (l ∷ ls) = ap suc (length-cleanse_from (raw_line o l).1 ls)

length-map : (f : Text → Text) (ls : List Text) → length (map f ls) ≡ length ls
length-map f [] = refl
length-map f (l ∷ ls) = ap suc (length-map f ls)

-- The three copies of the lines that CleansedLines holds, and the one without raw strings, all have
-- the length NumLines gives.
pub length-cleanse :
    (raw : List Text)
    → (length (cleanse raw).elided ≡ (cleanse raw).num_lines)
      × (length (cleanse raw).lines ≡ (cleanse raw).num_lines)
      × (length (cleanse raw).raw_lines ≡ (cleanse raw).num_lines)
      × (length (cleanse raw).lines_without_raw_strings ≡ (cleanse raw).num_lines)
unfolding cleanse cleanse_raw_strings
length-cleanse raw =
    let e = length-cleanse_from Option.none raw in
    (
      length-map _ (cleanse_raw_strings raw) ∙ e,
      length-map _ (cleanse_raw_strings raw) ∙ e,
      refl,
      e,
    )
