-- ===== src/Lint/Comments/Removal.antt =====
-- RemoveMultiLineComments ends, keeps the number of lines, and leaves no multi-line comment.
use ringfile.Prelude.{
  ℕ, zero, suc, ◌+◌, ◌-◌, ◌<◌, ◌≤◌, ◌≡◌, ◌⊎◌, inl, inr, refl, sym, ap, ◌∙◌, Bool, false, ltb, leb,
  some, List, [], ◌∷◌, Text, arith, length, drop, get_elem?, length-drop, get_elem?-drop,
  get_elem?-lt, Bool-cases, ltb→lt, ltb_false→le, leb_false→lt, leb→le, starts_with,
}
use ringfile.Prelude.Strings.{strip, is_unicode_space}
use ringfile.Lint.Report.{Event}
use ringfile.Lint.Comments.{
  starts_comment, ends_comment, scan, find_next, find_next_multi_line_comment_start,
  find_next_multi_line_comment_end, dummy, clear_range, remove_multi_line_comments_from_range,
  remove_loop, remove_multi_line_comments, unterminated,
}

scan-bounds :
    (p : Text → Bool) (i : ℕ) (ls : List Text) → (i ≤ scan p i ls) × (scan p i ls ≤ i + length ls)
unfolding scan
scan-bounds p i [] = omega arith
scan-bounds p i (l ∷ ls) = ground (arith, scan-bounds p (i + 1) ls)

scan-before :
    (p : Text → Bool) (i : ℕ) (ls : List Text) (j : ℕ) (l : Text)
    → get_elem? ls j ≡ some l
    → i + j < scan p i ls
    → p l ≡ false
unfolding scan
scan-before p i [] j l e h = cc
scan-before p i (x ∷ ls) zero l e h = ground arith
scan-before p i (x ∷ ls) (suc j) l e h = ground (arith, scan-before p (i + 1) ls j l e)

find_next-bounds :
    (p : Text → Bool) (ls : List Text) (n : ℕ)
    → n ≤ length ls
    → (n ≤ find_next p ls n) × (find_next p ls n ≤ length ls)
unfolding find_next
find_next-bounds p ls n h = ground (arith, scan-bounds p n (drop n ls), length-drop n ls)

length-clear_range : (i b e : ℕ) (ls : List Text) → length (clear_range i b e ls) ≡ length ls
unfolding clear_range
length-clear_range i b e [] = refl
length-clear_range i b e (l ∷ ls) = ap suc (length-clear_range (i + 1) b e ls)

-- A line of the result is a line that was there, outside the range, or the dummy in the range.
get_elem?-clear_range :
    (i b e : ℕ) (ls : List Text) (j : ℕ) (l : Text)
    → get_elem? (clear_range i b e ls) j ≡ some l
    → ((get_elem? ls j ≡ some l) × ((i + j < b) ⊎ (e ≤ i + j)))
      ⊎ ((l ≡ dummy) × (b ≤ i + j) × (i + j < e))
unfolding clear_range
get_elem?-clear_range i b e [] j l h = cc
get_elem?-clear_range i b e (x ∷ ls) zero l h = ground arith
get_elem?-clear_range i b e (x ∷ ls) (suc j) l h =
    ground (arith, get_elem?-clear_range (i + 1) b e ls j l h)

dummy-clean : starts_comment dummy ≡ false
unfolding starts_comment strip is_unicode_space starts_with
dummy-clean = refl

-- no comment begins before the line n
abbrev IsCleanTo : ℕ → List Text → Type 0
IsCleanTo n lines =
    (j : ℕ) (l : Text) → j < n → get_elem? lines j ≡ some l → starts_comment l ≡ false

before_scan :
    (n j : ℕ) (lines : List Text)
    → n ≤ j
    → j < find_next_multi_line_comment_start lines n
    → n + (j - n) < scan starts_comment n (drop n lines)
unfolding find_next_multi_line_comment_start find_next
before_scan n j lines h k = ground arith

IsCleanTo-start :
    (n : ℕ) (lines : List Text)
    → n ≤ length lines
    → IsCleanTo n lines
    → IsCleanTo (find_next_multi_line_comment_start lines n) lines
unfolding find_next_multi_line_comment_start find_next
IsCleanTo-start n lines b clean j l h e = elim (Bool-cases (ltb j n)) [
  | inl lt ↦ clean j l (ltb→lt j n lt) e
  | inr ge ↦
      let le : n ≤ j = ltb_false→le j n ge in
      let sub_back : j ≡ n + (j - n) = omega arith in
      let in_scan : n + (j - n) < scan starts_comment n (drop n lines) =
        before_scan n j lines le h in
      let at_drop : get_elem? (drop n lines) (j - n) ≡ some l =
        get_elem?-drop n lines (j - n) ∙ (ap (get_elem? lines) (sym sub_back) ∙ e) in
      scan-before starts_comment n (drop n lines) (j - n) l at_drop in_scan
]

-- What the removal gives: as many lines; each is the line that was there or the dummy; and if no
-- error was reported, no line begins a comment that it does not end.
pub record IsRemoval (lines : List Text) (r : List Text × List Event) : Type 0 where
  pub same_length : length r.0 ≡ length lines
  pub kept :
      (j : ℕ) (l : Text) → get_elem? r.0 j ≡ some l → (get_elem? lines j ≡ some l) ⊎ (l ≡ dummy)
  pub clean : r.1 ≡ [] → (j : ℕ) (l : Text) → get_elem? r.0 j ≡ some l → starts_comment l ≡ false

done_clean :
    (n : ℕ) (lines : List Text) → length lines ≤ n → IsCleanTo n lines → IsRemoval lines (lines, [])
done_clean n lines h clean = record {
  same_length = refl;
  kept = λ j l e. inl e;
  clean = λ _ j l e. clean j l (omega (arith, get_elem?-lt lines j l e)) e;
}

clean_after_clear :
    (begin end : ℕ) (lines : List Text)
    → IsCleanTo begin lines
    → IsCleanTo (end + 1) (remove_multi_line_comments_from_range lines begin (end + 1))
unfolding remove_multi_line_comments_from_range
clean_after_clear begin end lines clean j l h e =
    elim (get_elem?-clear_range 0 begin (end + 1) lines j l e) [
      | inl (k, inl lt) ↦ clean j l (omega arith) k
      | inl (k, inr ge) ↦ absurd (omega arith)
      | inr (d, b, _) ↦ rw d dummy-clean
    ]

after_clear :
    (begin end : ℕ) (lines : List Text) (r : List Text × List Event)
    → IsRemoval (remove_multi_line_comments_from_range lines begin end) r
    → IsRemoval lines r
unfolding remove_multi_line_comments_from_range
after_clear begin end lines r v = record {
  same_length = v.same_length ∙ length-clear_range 0 begin end lines;
  kept = λ j l e. elim (v.kept j l e) [
    | inr d ↦ inr d
    | inl k ↦ elim (get_elem?-clear_range 0 begin end lines j l k) [
      | inl (m, _) ↦ inl m
      | inr (d, _, _) ↦ inr d
    ]
  ];
  clean = v.clean;
}

start_bounds :
    (lines : List Text) (n : ℕ)
    → n ≤ length lines
    → (n ≤ find_next_multi_line_comment_start lines n)
      × (find_next_multi_line_comment_start lines n ≤ length lines)
unfolding find_next_multi_line_comment_start
start_bounds lines n h = find_next-bounds starts_comment lines n h

end_bounds :
    (lines : List Text) (n : ℕ)
    → n ≤ length lines
    → (n ≤ find_next_multi_line_comment_end lines n)
      × (find_next_multi_line_comment_end lines n ≤ length lines)
unfolding find_next_multi_line_comment_end
end_bounds lines n h = find_next-bounds ends_comment lines n h

length_removed :
    (lines : List Text) (b e : ℕ)
    → length (remove_multi_line_comments_from_range lines b e) ≡ length lines
unfolding remove_multi_line_comments_from_range
length_removed lines b e = length-clear_range 0 b e lines

unterminated-IsRemoval :
    (filename : Text) (begin : ℕ) (lines : List Text)
    → IsRemoval lines (lines, unterminated filename (begin + 1) ∷ [])
unterminated-IsRemoval filename begin lines = record {
  same_length = refl;
  kept = λ j l e. inl e;
  clean = λ h. cc;
}

remove_loop_lem :
    (fuel : ℕ) (filename : Text) (lines : List Text) (n : ℕ)
    → length lines < fuel + n
    → n ≤ length lines
    → IsCleanTo n lines
    → (r : List Text × List Event) × (remove_loop fuel filename lines n ≡ some r)
      × IsRemoval lines r
unfolding remove_loop
remove_loop_lem zero filename lines n h b clean = absurd (omega arith)
remove_loop_lem (suc fuel) filename lines n h b clean =
    let begin = find_next_multi_line_comment_start lines n in
    let end = find_next_multi_line_comment_end lines begin in
    let clean' = IsCleanTo-start n lines b clean in
    let at_begin = start_bounds lines n b in
    let at_end = end_bounds lines begin at_begin.1 in
    elim (Bool-cases (ltb n (length lines))) [
      | inr e ↦ ((lines, []), rw e refl, done_clean n lines (ltb_false→le n (length lines) e) clean)
      | inl e ↦ elim (Bool-cases (leb (length lines) begin)) [
        | inl f ↦ (
          (lines, []),
          rw (e, f) refl,
          done_clean begin lines (leb→le (length lines) begin f) clean',
        )
        | inr f ↦ elim (Bool-cases (leb (length lines) end)) [
          | inl g ↦ (
            (lines, unterminated filename (begin + 1) ∷ []),
            rw (e, f, g) refl,
            unterminated-IsRemoval filename begin lines,
          )
          | inr g ↦
              let lt = leb_false→lt (length lines) end g in
              let lines' = remove_multi_line_comments_from_range lines begin (end + 1) in
              let len = length_removed lines begin (end + 1) in
              let (r, p, v) =
                remove_loop_lem fuel filename lines' (end + 1) (omega arith) (omega arith)
                  (clean_after_clear begin end lines clean') in
              (r, rw (e, f, g) p, after_clear begin (end + 1) lines r v)
        ]
      ]
    ]

-- RemoveMultiLineComments comes to its end on every file, whatever its lines. The result has as many
-- lines; each is the line that was there or the dummy; and if no error was reported, no line begins a
-- comment that it does not end.
pub remove_multi_line_comments_lem :
    (filename : Text) (lines : List Text)
    → (r : List Text × List Event) × (remove_multi_line_comments filename lines ≡ some r)
      × IsRemoval lines r
unfolding remove_multi_line_comments
remove_multi_line_comments_lem filename lines =
    remove_loop_lem (suc (length lines)) filename lines 0 (omega arith) (omega arith)
      (λ j l h e. absurd (omega arith))
