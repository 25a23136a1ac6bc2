-- ===== src/Prelude/Strings.antt =====
-- Python's `str` and `unicode` methods over lists of code points.
use Prim.Native.Nat.{ℕ, zero, suc, ◌+◌, ◌-◌, ◌/◌, ◌%◌}
use Prim.Native.Char.{code}
use Prim.Native.String.{String}
use mathlib.Core.Path.{◌≡◌, refl, ap, sym, ◌∙◌, ap₂}
use mathlib.Core.Logic.{◌↔◌}
use mathlib.Core.Bool.{Bool, true, false, ◌&&◌, ◌||◌}
use mathlib.Core.Option
use mathlib.Core.Option.{Option, none, some}
use mathlib.Core.List.{List, [], ◌∷◌, ◌++◌, reverse, map}
use native.Mathlib.Omega.{arith}
use ringfile.Prelude.Tests.{◌==◌, leb, if◌then◌else◌}
use ringfile.Prelude.Lists.{length, drop}

abbrev pub Text : Type 0
Text = List ℕ

-- The code points of a literal.
abbrev pub codes : String → Text
codes String.[] = []
codes (String.◌∷◌ c s) = code c ∷ codes s

-- s == t
unfoldable pub same : Text → Text → Bool
same [] [] = true
same (x ∷ s) (y ∷ t) = x == y && same s t
same _ _ = false

pub same_refl : (s : Text) → same s s ≡ true
unfolding same
same_refl [] = refl
same_refl (x ∷ s) = ground (arith, same_refl s)

pub same→eq : (s t : Text) → same s t ≡ true → s ≡ t
unfolding same
same→eq [] [] h = refl
same→eq (x ∷ s) (y ∷ t) h = ap₂ (λ a b. a ∷ b) (ground arith) (same→eq s t (ground arith))
same→eq [] (y ∷ t) h = ground arith
same→eq (x ∷ s) [] h = ground arith

pub same_iff : (s t : Text) → (same s t ≡ true) ↔ (s ≡ t)
same_iff s t = (same→eq s t, λ e. ap (same s) (sym e) ∙ same_refl s)

-- x in xs
unfoldable pub one_of : Text → List Text → Bool
one_of x [] = false
one_of x (y ∷ ys) = same x y || one_of x ys

-- s.startswith(p)
unfoldable pub starts_with : Text → Text → Bool
starts_with s [] = true
starts_with [] (y ∷ p) = false
starts_with (x ∷ s) (y ∷ p) = x == y && starts_with s p

-- s.endswith(p)
unfoldable pub ends_with : Text → Text → Bool
unfolding starts_with
ends_with s p = starts_with (reverse s) (reverse p)

-- s.find(p); `none` is the -1 of Python.
unfoldable pub find : Text → Text → Option ℕ
unfolding starts_with
find [] p = if starts_with [] p then some 0 else none
find (x ∷ s) p =
    let rest = find s p in if starts_with (x ∷ s) p then some 0 else Option.map suc rest

-- s.find(p, i) at an i that is not past the end
unfoldable pub find_from : ℕ → Text → Text → Option ℕ
unfolding find
find_from i s p = Option.map (λ k. i + k) (find (drop i s) p)

-- The occurrences of p from the left that do not overlap; the number is what is left of the last.
unfoldable pub count_skip : ℕ → Text → Text → ℕ
unfolding starts_with
count_skip n [] p = 0
count_skip (suc n) (x ∷ s) p = count_skip n s p
count_skip zero (x ∷ s) p =
    let hit = starts_with (x ∷ s) p in
    (if hit then 1 else 0) + count_skip (if hit then length p - 1 else 0) s p

-- s.count(p) for a p that is not empty
unfoldable pub count : Text → Text → ℕ
unfolding count_skip
count s p = count_skip 0 s p

unfoldable pub replace_skip : ℕ → Text → Text → Text → Text
unfolding starts_with
replace_skip n [] old new = []
replace_skip (suc n) (x ∷ s) old new = replace_skip n s old new
replace_skip zero (x ∷ s) old new =
    let hit = starts_with (x ∷ s) old in
    (if hit then new else x ∷ []) ++ replace_skip (if hit then length old - 1 else 0) s old new

-- s.replace(old, new) for an old that is not empty
unfoldable pub replace : Text → Text → Text → Text
unfolding replace_skip
replace s old new = replace_skip 0 s old new

-- The white space of a byte string, and of `\s` in a pattern with no flags.
unfoldable pub is_space : ℕ → Bool
is_space c = c == b' ' || (leb 9 c && leb c 13)

-- The white space of a unicode string.
unfoldable pub is_unicode_space : ℕ → Bool
unfolding is_space
is_unicode_space c =
    is_space c
    || (leb 0x1c c && leb c 0x1f)
    || c == 0x85
    || c == 0xa0
    || c == 0x1680
    || (leb 0x2000 c && leb c 0x200a)
    || c == 0x2028
    || c == 0x2029
    || c == 0x202f
    || c == 0x205f
    || c == 0x3000

unfoldable pub drop_while : (ℕ → Bool) → Text → Text
drop_while p [] = []
drop_while p (x ∷ s) = if p x then drop_while p s else x ∷ s

-- s.rstrip() and s.strip(), for the white space that is given
unfoldable pub rstrip : (ℕ → Bool) → Text → Text
unfolding drop_while
rstrip p s = reverse (drop_while p (reverse s))

unfoldable pub strip : (ℕ → Bool) → Text → Text
unfolding rstrip drop_while
strip p s = rstrip p (drop_while p s)

-- s.split(c) for one character c: the parts, of which there is always one.
unfoldable pub split_first : ℕ → Text → Text × List Text
split_first c [] = ([], [])
split_first c (x ∷ s) =
    let (w, ws) = split_first c s in if x == c then ([], w ∷ ws) else (x ∷ w, ws)

unfoldable pub split : ℕ → Text → List Text
unfolding split_first
split c s = let (w, ws) = split_first c s in w ∷ ws

-- s.lower() and s.upper(), over ASCII
unfoldable pub lower_char : ℕ → ℕ
lower_char c = if leb b'A' c && leb c b'Z' then c + 32 else c

unfoldable pub lower : Text → Text
unfolding lower_char
lower s = map lower_char s

unfoldable pub upper_char : ℕ → ℕ
upper_char c = if leb b'a' c && leb c b'z' then c - 32 else c

unfoldable pub upper : Text → Text
unfolding upper_char
upper s = map upper_char s

split_test : split b',' (codes "+a,,-b") ≡ codes "+a" ∷ [] ∷ codes "-b" ∷ []
unfolding split
split_test = refl

replace_test : replace (codes "a-inl.h-inl.h") (codes "-inl.h") (codes ".h") ≡ codes "a.h.h"
unfolding replace
replace_test = refl

count_test : count (codes "a\"b\"\"") (codes "\"") ≡ 3
unfolding count
count_test = refl

-- '%d' % n: the digits in front of those that are done; a number has at most as many as its value.
decimal_loop : ℕ → ℕ → Text → Text
decimal_loop zero n done = done
decimal_loop (suc fuel) n done =
    let done' = (b'0' + n % 10) ∷ done in
    elim (leb 10 n) [ true ↦ decimal_loop fuel (n / 10) done' | false ↦ done' ]

unfoldable pub decimal : ℕ → Text
unfolding decimal_loop
decimal n = decimal_loop (suc n) n []

decimal_test : decimal 2040 ≡ codes "2040"
unfolding decimal
decimal_test = refl
