-- ===== src/Lint/Paths.antt =====
-- The functions of Python's `os.path`, for POSIX, that tools/cpplint.py uses on file names.
pub mod Laws
use ringfile.Prelude.{
  ℕ, zero, suc, ◌+◌, Bool, true, false, not, ◌&&◌, ◌||◌, ◌==◌, Option, none, some, List, [], ◌∷◌,
  ◌++◌, Text, if◌then◌else◌, codes, reverse, starts_with,
}
use ringfile.Prelude.Strings.{split, rstrip, ends_with, same}

-- The text up to and without the last c, and the text behind it.
unfoldable pub split_last : ℕ → Text → Option (Text × Text)
split_last c [] = none
split_last c (x ∷ s) = elim (split_last c s) [
  | some (h, t) ↦ some (x ∷ h, t)
  | none ↦ if x == c then some ([], s) else none
]

unfoldable pub all_are : ℕ → Text → Bool
all_are c [] = true
all_are c (x ∷ s) = x == c && all_are c s

-- `head.rstrip('/')`, unless head is slashes only
unfoldable pub trim_head : Text → Text
unfolding all_are
trim_head h = if all_are b'/' h then h else rstrip (λ c. c == b'/') h

-- os.path.split
unfoldable pub path_split : Text → Text × Text
unfolding split_last trim_head
path_split p = elim (split_last b'/' p) [
  | none ↦ ([], p)
  | some (h, t) ↦ (trim_head (h ++ b'/' ∷ []), t)
]

-- os.path.dirname
abbrev pub dirname : Text → Text
dirname p = (path_split p).0

-- os.path.splitext of a name without slashes: dots at its start begin no extension.
unfoldable pub name_splitext : Text → Text × Text
unfolding split_last all_are
name_splitext p = elim (split_last b'.' p) [
  | none ↦ (p, [])
  | some (h, e) ↦ if all_are b'.' h then (p, []) else (h, b'.' ∷ e)
]

-- os.path.splitext
unfoldable pub splitext : Text → Text × Text
unfolding name_splitext
splitext p = elim (split_last b'/' p) [
  | none ↦ name_splitext p
  | some (d, n) ↦ let (r, e) = name_splitext n in (d ++ b'/' ∷ r, e)
]

-- os.path.join
unfoldable pub path_join : Text → Text → Text
path_join a b =
    if starts_with b (codes "/")
    then b
    else if same a [] || ends_with a (codes "/")
    then a ++ b
    else a ++ b'/' ∷ b

-- os.path.commonprefix of two
unfoldable pub common_prefix : Text → Text → Text
common_prefix (x ∷ s) (y ∷ t) = let rest = common_prefix s t in if x == y then x ∷ rest else []
common_prefix _ _ = []

-- One component in os.path.normpath, with those before it, the nearest first.
unfoldable pub norm_step : Bool → List Text → Text → List Text
norm_step rooted done comp =
    if same comp [] || same comp (codes ".")
    then done
    else if not (same comp (codes ".."))
    then comp ∷ done
    else elim done [
      | [] ↦ if rooted then [] else comp ∷ []
      | last ∷ before ↦ if same last (codes "..") then comp ∷ last ∷ before else before
    ]

unfoldable pub norm_loop : Bool → List Text → List Text → List Text
unfolding norm_step
norm_loop rooted done [] = done
norm_loop rooted done (c ∷ cs) = norm_loop rooted (norm_step rooted done c) cs

unfoldable pub join_slash : List Text → Text
join_slash [] = []
join_slash (t ∷ []) = t
join_slash (t ∷ u ∷ ts) = t ++ b'/' ∷ join_slash (u ∷ ts)

-- the slashes that os.path.normpath keeps at the start: two stay two, three or more become one
unfoldable pub root_of : Text → Text
root_of p =
    if starts_with p (codes "//") && not (starts_with p (codes "///"))
    then codes "//"
    else if starts_with p (codes "/")
    then codes "/"
    else []

-- os.path.normpath
unfoldable pub normpath : Text → Text
unfolding norm_loop join_slash root_of split
normpath p =
    let root = root_of p in
    let path = root ++ join_slash (reverse (norm_loop (not (same root [])) [] (split b'/' p))) in
    if same path [] then codes "." else path
