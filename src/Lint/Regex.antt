-- ===== src/Lint/Regex.antt =====
-- Python's `re` as far as tools/cpplint.py uses it: a backtracking matcher over parsed patterns, and
-- the functions Match, Search and ReplaceAll. A pattern is a value, so the cache of compiled
-- patterns, which only saves time, has no counterpart.
mod Runs
use Prim.Native.String.{String}
use ringfile.Prelude.{
  ℕ, zero, suc, ◌-◌, Bool, true, false, not, ◌&&◌, ◌||◌, Option, none, some, List, [], ◌∷◌, ◌++◌,
  reverse, Text, length, take, drop, ◌==◌, leb, if◌then◌else◌, codes, ◌≡◌, refl,
}
use ringfile.Prelude.Strings.{is_space}

-- `group n r` is the n-th pair of parentheses, `maybe` is `?`, `star_lazy` is `*?`.
pub data Re : Type 0 where
  eps bol eol boundary : Re
  sat : (ℕ → Bool) → Re
  seq alt : Re → Re → Re
  star star_lazy maybe ahead not_ahead : Re → Re
  group : ℕ → Re → Re

-- A position in a line: what stands before it, the nearest first, and what stands after it.
pub record Cursor : Type 0 where
  pub before : Text
  pub after : Text
  pub groups : List (ℕ × Text)

abbrev pub Matcher : Type 0
Matcher = Cursor → (Cursor → Option Cursor) → Option Cursor

unfoldable pub is_word : ℕ → Bool
is_word c =
    (leb b'a' c && leb c b'z')
    || (leb b'A' c && leb c b'Z')
    || (leb b'0' c && leb c b'9')
    || c == b'_'

unfoldable pub head_is : (ℕ → Bool) → Text → Bool
head_is p [] = false
head_is p (x ∷ s) = p x

unfoldable pub at_boundary : Cursor → Bool
unfolding is_word head_is
at_boundary c =
    let l = head_is is_word c.before in
    let r = head_is is_word c.after in (l && not r) || (not l && r)

unfoldable pub at_end : Text → Bool
at_end [] = true
at_end (x ∷ []) = x == 10
at_end _ = false

unfoldable pub step : (ℕ → Bool) → Text → Cursor → (Cursor → Option Cursor) → Option Cursor
step p [] c k = none
step p (x ∷ s) c k = if p x then k (record c { before = x ∷ c.before; after = s }) else none

-- A round that consumes nothing ends the loop, so as many rounds are enough as there is text.
unfoldable pub star_loop : Matcher → ℕ → Cursor → (Cursor → Option Cursor) → Option Cursor
star_loop m zero c k = k c
star_loop m (suc n) c k =
    elim (m c
      (λ d. elim (length d.after == length c.after) [ true ↦ none | false ↦ star_loop m n d k ])) [
        | some d ↦ some d
        | none ↦ k c
      ]

unfoldable pub lazy_loop : Matcher → ℕ → Cursor → (Cursor → Option Cursor) → Option Cursor
lazy_loop m zero c k = k c
lazy_loop m (suc n) c k = elim (k c) [
  | some d ↦ some d
  | none ↦
      m c (λ d. elim (length d.after == length c.after) [ true ↦ none | false ↦ lazy_loop m n d k ])
]

unfoldable pub matcher : Re → Matcher
unfolding at_boundary at_end step star_loop lazy_loop
matcher eps c k = k c
matcher bol c k = elim c.before [ [] ↦ k c | _ ↦ none ]
matcher eol c k = elim (at_end c.after) [ true ↦ k c | false ↦ none ]
matcher boundary c k = elim (at_boundary c) [ true ↦ k c | false ↦ none ]
matcher (sat p) c k = step p c.after c k
matcher (seq r s) c k = matcher r c (λ d. matcher s d k)
matcher (alt r s) c k = elim (matcher r c k) [ some d ↦ some d | none ↦ matcher s c k ]
matcher (star r) c k = star_loop (matcher r) (length c.after) c k
matcher (star_lazy r) c k = lazy_loop (matcher r) (length c.after) c k
matcher (maybe r) c k = elim (matcher r c k) [ some d ↦ some d | none ↦ k c ]
matcher (ahead r) c k = elim (matcher r c some) [ some d ↦ k c | none ↦ none ]
matcher (not_ahead r) c k = elim (matcher r c some) [ some d ↦ none | none ↦ k c ]
matcher (group n r) c k = matcher r c (λ d. k (record d {
  groups = (n, reverse (take (length d.before - length c.before) d.before)) ∷ d.groups;
}))

-- A match object: the text before the match, the match, its groups and the text after it.
pub record Hit : Type 0 where
  pub prefix : Text
  pub whole : Text
  pub suffix : Text
  pub groups : List (ℕ × Text)

unfoldable pub hit_of : Text → Option Cursor → Option Hit
hit_of before none = none
hit_of before (some d) = some (record {
  prefix = reverse before;
  whole = reverse (take (length d.before - length before) d.before);
  suffix = d.after;
  groups = d.groups;
})

unfoldable pub match_at : Re → Text → Text → Option Hit
unfolding matcher hit_of
match_at r before s =
    hit_of before (matcher r (record { before = before; after = s; groups = [] }) some)

-- Match(pattern, s)
unfoldable pub match_re : Re → Text → Option Hit
unfolding match_at
match_re r s = match_at r [] s

unfoldable pub search_at : Re → Text → Text → Option Hit
unfolding match_at
search_at r before [] = match_at r before []
search_at r before (x ∷ s) = elim (match_at r before (x ∷ s)) [
  | some h ↦ some h
  | none ↦ search_at r (x ∷ before) s
]

-- Search(pattern, s)
unfoldable pub search_re : Re → Text → Option Hit
unfolding search_at
search_re r s = search_at r [] s

unfoldable pub skip_of : Option Hit → ℕ
skip_of none = 0
skip_of (some h) = length h.whole - 1

-- The text that stands for the character x: the replacement, if a match begins there that is not
-- empty.
unfoldable pub piece : ℕ → (Hit → Text) → Option Hit → Text
piece x f none = x ∷ []
piece x f (some h) = elim h.whole [ [] ↦ x ∷ [] | _ ↦ f h ]

unfoldable pub sub_at : Re → (Hit → Text) → ℕ → Text → Text → Text
unfolding match_at skip_of piece
sub_at r f n before [] = []
sub_at r f (suc n) before (x ∷ s) = sub_at r f n (x ∷ before) s
sub_at r f zero before (x ∷ s) =
    let h = match_at r before (x ∷ s) in piece x f h ++ sub_at r f (skip_of h) (x ∷ before) s

-- ReplaceAll(pattern, rep, s), and the method sub, for a pattern that matches no empty text. The
-- replacement is computed from the match, for a template that names groups.
unfoldable pub replace_all : Re → (Hit → Text) → Text → Text
unfolding sub_at
replace_all r f s = sub_at r f 0 [] s

-- match.group(n)
unfoldable pub group_of : ℕ → List (ℕ × Text) → Option Text
group_of n [] = none
group_of n ((m, t) ∷ gs) = if m == n then some t else group_of n gs

unfoldable pub group_or_empty : ℕ → Hit → Text
unfolding group_of
group_or_empty n h = elim (group_of n h.groups) [ some t ↦ t | none ↦ [] ]

unfoldable pub matches : Re → Text → Bool
unfolding match_re
matches r s = elim (match_re r s) [ some h ↦ true | none ↦ false ]

unfoldable pub searches : Re → Text → Bool
unfolding search_re
searches r s = elim (search_re r s) [ some h ↦ true | none ↦ false ]

-- Notation for patterns.
abbrev pub char : ℕ → Re
char x = sat (λ y. y == x)

abbrev pub lit : Text → Re
lit [] = eps
lit (x ∷ []) = char x
lit (x ∷ s) = seq (char x) (lit s)

abbrev pub all_of : List Re → Re
all_of [] = eps
all_of (r ∷ []) = r
all_of (r ∷ rs) = seq r (all_of rs)

-- No alternative at all is a class that no character is in.
abbrev pub any_of : List Re → Re
any_of [] = sat (λ _. false)
any_of (r ∷ []) = r
any_of (r ∷ rs) = alt r (any_of rs)

-- One of several words
abbrev pub any_word : List String → Re
any_word [] = sat (λ _. false)
any_word (w ∷ []) = lit (codes w)
any_word (w ∷ ws) = alt (lit (codes w)) (any_word ws)

abbrev pub plus : Re → Re
plus r = seq r (star r)

abbrev pub plus_lazy : Re → Re
plus_lazy r = seq r (star_lazy r)

unfoldable pub mem : ℕ → Text → Bool
mem x [] = false
mem x (y ∷ s) = x == y || mem x s

-- [abc] and [^abc]
abbrev pub in_class : Text → Re
in_class s = sat (λ x. mem x s)

abbrev pub not_in : Text → Re
not_in s = sat (λ x. not (mem x s))

abbrev pub dot : Re
dot = sat (λ x. not (x == 10))

abbrev pub space : Re
space = sat is_space

abbrev pub non_space : Re
non_space = sat (λ x. not (is_space x))

abbrev pub word : Re
word = sat is_word

abbrev pub non_word : Re
non_word = sat (λ x. not (is_word x))

abbrev pub digit : Re
digit = sat (λ x. leb b'0' x && leb x b'9')

abbrev pub spaces : Re
spaces = star space
