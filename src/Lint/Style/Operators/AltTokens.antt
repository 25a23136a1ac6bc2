-- ===== src/Lint/Style/Operators/AltTokens.antt =====
-- CheckAltTokens of tools/cpplint.py.
use ringfile.Prelude.{
  ℕ, zero, suc, ◌||◌, none, some, List, [], ◌∷◌, ◌++◌, Text, if◌then◌else◌, codes, same, map,
}
use ringfile.Prelude.Strings.{find}
use ringfile.Lint.Regex.{
  Re, Hit, matches, group_or_empty, all_of, any_of, lit, char, in_class, ahead, spaces, bol, eol,
  group,
}
use ringfile.Lint.Report.{Event}
use ringfile.Lint.FileChecks.{call}
use ringfile.Lint.FileChecks.{is_some}
use ringfile.Lint.Regex.{match_at, skip_of}

-- _ALT_TOKEN_REPLACEMENT
abbrev pub alt_tokens : List (Text × Text)
alt_tokens =
    (codes "and", codes "&&")
    ∷ (codes "bitor", codes "|")
    ∷ (codes "or", codes "||")
    ∷ (codes "xor", codes "^")
    ∷ (codes "compl", codes "~")
    ∷ (codes "bitand", codes "&")
    ∷ (codes "and_eq", codes "&=")
    ∷ (codes "or_eq", codes "|=")
    ∷ (codes "xor_eq", codes "^=")
    ∷ (codes "not", codes "!")
    ∷ (codes "not_eq", codes "!=")
    ∷ []

unfoldable pub lookup : Text → List (Text × Text) → Text
lookup key [] = []
lookup key ((k, v) ∷ ps) = if same k key then v else lookup key ps

-- _ALT_TOKEN_REPLACEMENT_PATTERN. One token at most can stand at a place, so that their order is of no
-- account.
abbrev pub alt_token_re : Re
alt_token_re = all_of (
    in_class (codes " =()")
    ∷ group 1 (any_of (map (λ (p : Text × Text). lit p.0) alt_tokens))
    ∷ ahead (any_of (in_class (codes " (") ∷ eol ∷ []))
    ∷ [])

-- The matches that finditer gives of a pattern that matches no empty text; the number is what is left
-- of the last match.
unfoldable pub find_iter : Re → ℕ → Text → Text → List Hit
unfolding match_at skip_of
find_iter r n before [] = []
find_iter r (suc n) before (x ∷ s) = find_iter r n (x ∷ before) s
find_iter r zero before (x ∷ s) =
    let h = match_at r before (x ∷ s) in
    let rest = find_iter r (skip_of h) (x ∷ before) s in elim h [ none ↦ rest | some k ↦ k ∷ rest ]

unfoldable pub alt_token_events : Text → ℕ → List Hit → List Event
unfolding lookup
alt_token_events filename linenum [] = []
alt_token_events filename linenum (h ∷ hs) =
    call filename linenum (codes "readability/alt_tokens") 2 (
      codes "Use operator "
      ++ lookup (group_or_empty 1 h) alt_tokens
      ++ codes " instead of "
      ++ group_or_empty 1 h)
    ∷ alt_token_events filename linenum hs

-- CheckAltTokens
unfoldable pub check_alt_tokens : Text → Text → ℕ → List Event
unfolding find_iter alt_token_events
check_alt_tokens filename line linenum =
    if matches (all_of (bol ∷ spaces ∷ char b'#' ∷ [])) line
      || is_some (find line (codes "/*"))
      || is_some (find line (codes "*/"))
    then []
    else alt_token_events filename linenum (find_iter alt_token_re 0 [] line)
