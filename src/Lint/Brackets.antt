-- ===== src/Lint/Brackets.antt =====
-- The search for the other end of a parenthesised expression in tools/cpplint.py:
-- FindEndOfExpressionInLine, CloseExpression, FindStartOfExpressionInLine, ReverseCloseExpression.
pub mod Code
pub mod Drive
pub mod Forward
pub mod Lines
pub mod Backward
pub mod Ends
mod Runs
use ringfile.Prelude.{
  ℕ, zero, suc, ◌+◌, ◌-◌, Bool, true, false, not, ◌&&◌, ◌||◌, ◌==◌, ltb, leb, Option, none, some,
  List, [], ◌∷◌, ◌++◌, Text, same, if◌then◌else◌, codes, reverse, length, take, drop, get_elem?,
}
use ringfile.Lint.Regex.{
  Re, searches, matches, all_of, lit, char, in_class, space, spaces, eol, boundary,
}

-- What one line of a search gives: a position, the (-1, None) of a search that ends, or the stack at
-- the line's end. The last element of the source's stack is the first here.
pub data Scan : Type 0 where
  found : ℕ → Scan
  failed : Scan
  unclosed : List ℕ → Scan

-- What one character does: `closed` and `dead` end the search, `go` has the new stack, and `hop` also
-- passes over the next character.
pub data Next : Type 0 where
  closed dead : Next
  go hop : List ℕ → Next

-- r'\boperator\s*$'
abbrev operator_re : Re
operator_re = all_of (boundary ∷ lit (codes "operator") ∷ spaces ∷ eol ∷ [])

-- Search(r'\boperator\s*$', s), for the reversed s
unfoldable pub after_operator : Text → Bool
after_operator before = searches operator_re (reverse before)

unfoldable pub is_open : ℕ → Bool
is_open c = c == b'(' || c == b'[' || c == b'{'

unfoldable pub is_close : ℕ → Bool
is_close c = c == b')' || c == b']' || c == b'}'

unfoldable pub is_pair : ℕ → ℕ → Bool
is_pair o c = (o == b'(' && c == b')') || (o == b'[' && c == b']') || (o == b'{' && c == b'}')

-- `stack and stack[-1] == c`, or the same of the character before a position
unfoldable pub head_eq : ℕ → List ℕ → Bool
head_eq c [] = false
head_eq c (x ∷ s) = x == c

-- stack.pop(), and what follows if that empties it
unfoldable pub pop_or : Next → List ℕ → Next
pop_or e [] = e
pop_or e (x ∷ []) = e
pop_or e (x ∷ y ∷ s) = go (y ∷ s)

-- while stack and stack[-1] == c: stack.pop()
unfoldable pub pop_all : ℕ → List ℕ → List ℕ
pop_all c [] = []
pop_all c (x ∷ s) = if x == c then pop_all c s else x ∷ s

unfoldable pub unless_empty : List ℕ → Next
unless_empty [] = dead
unless_empty (x ∷ s) = go (x ∷ s)

unfoldable pub close_with : ℕ → List ℕ → Next
close_with c [] = dead
close_with c (x ∷ s) = if is_pair x c then pop_or closed (x ∷ s) else dead

-- One round of FindEndOfExpressionInLine, at the character c behind `before`, the nearest first.
unfoldable pub end_step : Text → ℕ → List ℕ → Next
unfolding is_open is_close head_eq pop_or pop_all unless_empty close_with is_pair
end_step before c stack =
    if is_open c
    then go (c ∷ stack)
    else if c == b'<'
    then (if head_eq b'<' before
        then (if head_eq b'<' stack then pop_or dead stack else go stack)
        else if after_operator before
        then go stack
        else go (b'<' ∷ stack))
    else if is_close c
    then close_with c (pop_all b'<' stack)
    else if c == b'>'
    then (if head_eq b'-' before || after_operator (drop 1 before)
        then go stack
        else if head_eq b'<' stack
        then pop_or closed stack
        else go stack)
    else if c == b';'
    then unless_empty (pop_all b'<' stack)
    else go stack

unfoldable pub end_loop : Text → ℕ → Text → List ℕ → Scan
end_loop before i [] stack = unclosed stack
end_loop before i (c ∷ s) stack = elim (end_step before c stack) [
  | closed ↦ found (i + 1)
  | dead ↦ failed
  | go st ↦ end_loop (c ∷ before) (i + 1) s st
  | hop st ↦ end_loop (c ∷ before) (i + 1) s st
]

unfoldable pub find_end_of_expression_in_line : Text → ℕ → List ℕ → Scan
unfolding end_loop
find_end_of_expression_in_line line startpos stack =
    end_loop (reverse (take startpos line)) startpos (drop startpos line) stack

-- (line, linenum, pos); the -1 of Python is `none`.
pub record Place : Type 0 where
  pub line : Text
  pub linenum : ℕ
  pub pos : Option ℕ

abbrev pub nowhere : Text → ℕ → Place
nowhere line linenum = record { line = line; linenum = linenum; pos = none }

abbrev pub somewhere : Text → ℕ → ℕ → Place
somewhere line linenum pos = record { line = line; linenum = linenum; pos = some pos }

-- The loop over the lines that follow, with what the scan of `line` gave; `total` is NumLines().
unfoldable pub close_loop : ℕ → ℕ → Text → List Text → Scan → Place
close_loop total linenum line rest (found p) = somewhere line linenum p
close_loop total linenum line rest failed = nowhere line total
close_loop total linenum line rest (unclosed []) = nowhere line total
close_loop total linenum line [] (unclosed (x ∷ st)) = nowhere line total
close_loop total linenum line (l ∷ ls) (unclosed (x ∷ st)) =
    close_loop total (linenum + 1) l ls (find_end_of_expression_in_line l 0 (x ∷ st))

-- r'<[<=]'
abbrev pub less_re : Re
less_re = all_of (char b'<' ∷ in_class (codes "<=") ∷ [])

-- line[pos] not in '({[<' or Match(r'<[<=]', line[pos:])
unfoldable pub no_expression : ℕ → Text → Bool
no_expression c rest = not (is_open c || c == b'<') || matches less_re rest

-- CloseExpression over the elided lines; `none` is an IndexError.
unfoldable pub close_expression : List Text → ℕ → ℕ → Option Place
unfolding close_loop no_expression
close_expression lines linenum pos = elim (get_elem? lines linenum) [
  | none ↦ none
  | some line ↦ elim (get_elem? line pos) [
    | none ↦ none
    | some c ↦
        if no_expression c (drop pos line)
        then some (nowhere line (length lines))
        else some (
            close_loop (length lines) linenum line (drop (linenum + 1) lines)
              (find_end_of_expression_in_line line pos []))
  ]
]

-- Match(r'\s>=\s', line[i - 1:]) at the character c between `left` and `right`
unfoldable pub ge_at : Text → ℕ → Text → Bool
ge_at [] c right = false
ge_at (x ∷ left) c right = matches (all_of (space ∷ lit (codes ">=") ∷ space ∷ [])) (x ∷ c ∷ right)

unfoldable pub open_with : ℕ → List ℕ → Next
open_with c [] = dead
open_with c (x ∷ s) = if is_pair c x then pop_or closed (x ∷ s) else dead

-- One round of FindStartOfExpressionInLine, at c between `left`, the nearest first, and `right`.
unfoldable pub start_step : Text → ℕ → Text → List ℕ → Next
unfolding is_open is_close head_eq pop_or pop_all unless_empty is_pair open_with
start_step left c right stack =
    if is_close c
    then go (c ∷ stack)
    else if c == b'>'
    then (if head_eq b'-' left || ge_at left c right || after_operator left
        then hop stack
        else go (b'>' ∷ stack))
    else if c == b'<'
    then (if head_eq b'<' left
        then hop stack
        else if head_eq b'>' stack
        then pop_or closed stack
        else go stack)
    else if is_open c
    then open_with c (pop_all b'>' stack)
    else if c == b';'
    then unless_empty (pop_all b'>' stack)
    else go stack

-- `hopping` is the second decrement of a round: the character is passed over.
unfoldable pub start_loop : Bool → Text → Text → List ℕ → Scan
start_loop hopping [] right stack = unclosed stack
start_loop true (c ∷ left) right stack = start_loop false left (c ∷ right) stack
start_loop false (c ∷ left) right stack = elim (start_step left c right stack) [
  | closed ↦ found (length left)
  | dead ↦ failed
  | go st ↦ start_loop false left (c ∷ right) st
  | hop st ↦ start_loop true left (c ∷ right) st
]

-- `stop` is endpos + 1, the number of characters up to endpos.
unfoldable pub find_start_of_expression_in_line : Text → ℕ → List ℕ → Scan
unfolding start_loop
find_start_of_expression_in_line line stop stack =
    start_loop false (reverse (take stop line)) (drop stop line) stack

-- The loop over the lines above, the nearest first.
unfoldable pub reverse_loop : ℕ → Text → List Text → Scan → Place
reverse_loop linenum line above (found p) = somewhere line linenum p
reverse_loop linenum line above failed = nowhere line 0
reverse_loop linenum line above (unclosed []) = nowhere line 0
reverse_loop linenum line [] (unclosed (x ∷ st)) = nowhere line 0
reverse_loop linenum line (l ∷ ls) (unclosed (x ∷ st)) =
    reverse_loop (linenum - 1) l ls (find_start_of_expression_in_line l (length l) (x ∷ st))

-- ReverseCloseExpression over the elided lines; `none` is an IndexError.
unfoldable pub reverse_close_expression : List Text → ℕ → ℕ → Option Place
unfolding reverse_loop
reverse_close_expression lines linenum pos = elim (get_elem? lines linenum) [
  | none ↦ none
  | some line ↦ elim (get_elem? line pos) [
    | none ↦ none
    | some c ↦
        if not (is_close c || c == b'>')
        then some (nowhere line 0)
        else some (
            reverse_loop linenum line (reverse (take linenum lines))
              (find_start_of_expression_in_line line (pos + 1) []))
  ]
]
