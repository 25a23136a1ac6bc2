-- ===== src/Lint/Comments/Runs.antt =====
-- A run of the removal.
use ringfile.Prelude.{◌≡◌, refl, codes, some, [], ◌∷◌, starts_with}
use ringfile.Prelude.Strings.{strip, find_from, ends_with, is_unicode_space}
use ringfile.Lint.Comments.{
  remove_multi_line_comments, remove_loop, find_next, find_next_multi_line_comment_start,
  find_next_multi_line_comment_end, starts_comment, ends_comment,
  remove_multi_line_comments_from_range, clear_range, dummy,
}
use ringfile.Prelude.{List, Text}
use ringfile.Lint.Report.{Event}
use ringfile.Lint.Comments.Removal.{remove_multi_line_comments_lem, IsRemoval}

remove_test :
    remove_multi_line_comments
      (codes "a.cc")
      (codes "x" ∷ codes " /* a" ∷ codes "b */" ∷ codes "y" ∷ [])
    ≡ some (codes "x" ∷ dummy ∷ dummy ∷ codes "y" ∷ [], [])
unfolding remove_multi_line_comments remove_loop find_next find_next_multi_line_comment_start
    find_next_multi_line_comment_end starts_comment ends_comment
    remove_multi_line_comments_from_range clear_range strip find_from ends_with is_unicode_space
    starts_with
remove_test = refl

abbrev commented : List Text
commented = codes "x" ∷ codes " /* a" ∷ codes "b */" ∷ codes "y /* z" ∷ codes "/* w" ∷ []

remove_multi_line_comments_lem_example :
    (r : List Text × List Event) × (remove_multi_line_comments (codes "a.cc") commented ≡ some r)
    × IsRemoval commented r
remove_multi_line_comments_lem_example = remove_multi_line_comments_lem (codes "a.cc") commented
