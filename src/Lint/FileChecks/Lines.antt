-- ===== src/Lint/FileChecks/Lines.antt =====
-- What the checks of whole files accept.
use ringfile.Prelude.{
  ℕ, suc, ◌+◌, ◌-◌, ◌≡◌, ◌≢◌, ◌↔◌, refl, sym, ap, ◌∙◌, Bool, true, false, ◌==◌, ltb, some, List, [],
  ◌∷◌, ◌++◌, Text, arith, codes, All, length, get_elem?, if◌then◌else◌,
}
use ringfile.Prelude.Strings.{split, split_first}
use ringfile.Lint.FileChecks.{
  has_char, utf8_events, nul_events, bad_characters_from, check_for_bad_characters,
  check_for_newline_at_eof, is_empty_at,
}

-- no replacement character and no NUL
abbrev pub IsClean : Text → Type 0
IsClean line = (has_char 0xfffd line ≡ false) × (has_char 0 line ≡ false)

append-nil-both {ℓ} : {A : Type ℓ} (xs ys : List A) → xs ++ ys ≡ [] → (xs ≡ []) × (ys ≡ [])
append-nil-both [] ys h = (refl, h)
append-nil-both (x ∷ xs) ys h = cc

line_events-nil :
    (filename : Text) (i : ℕ) (l : Text)
    → ((utf8_events filename i l ≡ []) × (nul_events filename i l ≡ [])) ↔ IsClean l
unfolding utf8_events nul_events
line_events-nil filename i l = ground arith

bad_characters_from-nil :
    (filename : Text) (i : ℕ) (ls : List Text)
    → (bad_characters_from filename i ls ≡ []) ↔ All IsClean ls
unfolding bad_characters_from
bad_characters_from-nil filename i [] = (λ _. tt, λ _. refl)
bad_characters_from-nil filename i (l ∷ ls) =
    let e = line_events-nil filename i l in
    let ih = bad_characters_from-nil filename (i + 1) ls in
    (
      λ h.
          let (a, r) = append-nil-both (utf8_events filename i l) _ h in
          let (b, c) = append-nil-both (nul_events filename i l) _ r in (e.0 (a, b), ih.0 c),
      λ h. let (a, b) = e.1 h.0 in rw (a, b) (ih.1 h.1),
    )

-- CheckForBadCharacters reports nothing exactly when every line is clean.
pub check_for_bad_characters-nil :
    (filename : Text) (lines : List Text)
    → (check_for_bad_characters filename lines ≡ []) ↔ All IsClean lines
unfolding check_for_bad_characters
check_for_bad_characters-nil filename lines = bad_characters_from-nil filename 0 lines

-- the last character of a text is the end of a line, or there is none
abbrev pub ends_line : Text → Bool
ends_line [] = true
ends_line (x ∷ []) = x == 10
ends_line (x ∷ y ∷ s) = ends_line (y ∷ s)

-- The lines of ProcessFileData: those of the text between two markers.
abbrev pub marked_lines : Text → List Text
marked_lines t =
    codes "// marker so line numbers and indices both start at 1"
    ∷ (split 10 t ++ codes "// marker so line numbers end in a known way" ∷ [])

last_of : Text → List Text → Text
last_of w [] = w
last_of w (v ∷ vs) = last_of v vs

get_elem?-last :
    (w : Text) (ws : List Text) (m : Text)
    → get_elem? (w ∷ (ws ++ m ∷ [])) (length ws) ≡ some (last_of w ws)
unfolding last_of
get_elem?-last w [] m = refl
get_elem?-last w (v ∷ vs) m = get_elem?-last v vs m

split_first-nil : (t : Text) → (split_first 10 t).0 ≡ [] → (split_first 10 t).1 ≡ [] → t ≡ []
unfolding split_first
split_first-nil [] a b = refl
split_first-nil (x ∷ s) a b = ground arith

split_step : Bool → ℕ → Text → List Text → Text × List Text
split_step t x w ws = if t then ([], w ∷ ws) else (x ∷ w, ws)

last_step :
    (t : Bool) (x : ℕ) (w : Text) (ws : List Text)
    → (w ≡ [] → ws ≢ [])
    → is_empty_at (some (last_of (split_step t x w ws).0 (split_step t x w ws).1))
      ≡ is_empty_at (some (last_of w ws))
unfolding is_empty_at last_of split_step
last_step true x w ws h = refl
last_step false x [] [] h = elim (h refl refl) [ ]
last_step false x (y ∷ w) [] h = refl
last_step false x w (v ∷ vs) h = refl

last_split :
    (t : Text)
    → is_empty_at (some (last_of (split_first 10 t).0 (split_first 10 t).1)) ≡ ends_line t
unfolding split_first is_empty_at last_of split_step
last_split [] = refl
last_split (x ∷ []) = ground arith
last_split (x ∷ y ∷ s) =
    last_step (x == 10) x (split_first 10 (y ∷ s)).0 (split_first 10 (y ∷ s)).1
      (λ a b. let e = split_first-nil (y ∷ s) a b in cc)
    ∙ last_split (y ∷ s)

length-snoc : (w : Text) (ws : List Text) (m : Text) → length (w ∷ (ws ++ m ∷ [])) ≡ length ws + 2
length-snoc w [] m = refl
length-snoc w (v ∷ vs) m = let e = length-snoc v vs m in omega arith

last_line :
    (m w : Text) (ws : List Text) (m' : Text)
    → let lines = m ∷ w ∷ (ws ++ m' ∷ []) in
      get_elem? lines (length lines - 2) ≡ some (last_of w ws)
last_line m w ws m' =
    let e : suc (length (w ∷ (ws ++ m' ∷ []))) - 2 ≡ suc (length ws) =
      let e' = length-snoc w ws m' in omega arith in
    ap (get_elem? (m ∷ w ∷ (ws ++ m' ∷ []))) e ∙ get_elem?-last w ws m'

newline_at_eof_of :
    (filename : Text) (lines : List Text) (l : Text)
    → ltb (length lines) 3 ≡ false
    → get_elem? lines (length lines - 2) ≡ some l
    → (check_for_newline_at_eof filename lines ≡ []) ↔ (is_empty_at (some l) ≡ true)
unfolding check_for_newline_at_eof
newline_at_eof_of filename lines l h e = rw (h, e) (ground arith)

-- CheckForNewlineAtEOF, on the lines of a text between two marker lines, reports nothing exactly when
-- the text is empty or its last character is a newline.
pub check_for_newline_at_eof-nil :
    (filename t : Text)
    → (check_for_newline_at_eof filename (marked_lines t) ≡ []) ↔ (ends_line t ≡ true)
unfolding check_for_newline_at_eof split
check_for_newline_at_eof-nil filename t =
    let m' = codes "// marker so line numbers end in a known way" in
    let w = (split_first 10 t).0 in
    let ws = (split_first 10 t).1 in
    let e = last_line (codes "// marker so line numbers and indices both start at 1") w ws m' in
    let n = length-snoc w ws m' in
    let k : ltb (suc (length (w ∷ (ws ++ m' ∷ [])))) 3 ≡ false = ground arith in
    let r = newline_at_eof_of filename (marked_lines t) (last_of w ws) k e in
    (λ a. sym (last_split t) ∙ r.0 a, λ b. r.1 (last_split t ∙ b))
