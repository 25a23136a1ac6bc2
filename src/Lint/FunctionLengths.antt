-- ===== src/Lint/FunctionLengths.antt =====
-- CheckForFunctionLengths of tools/cpplint.py: which lines begin, fill and end a function.
pub mod Bodies
mod Runs
pub mod Sound
use ringfile.Prelude.{
  ℕ, ◌+◌, Bool, true, false, not, ◌||◌, Option, none, some, List, [], ◌∷◌, ◌++◌, Text,
  if◌then◌else◌, codes, same, drop, get_elem?,
}
use ringfile.Prelude.Strings.{drop_while, is_unicode_space}
use ringfile.Lint.Regex.{
  Re, match_re, search_re, matches, searches, group_or_empty, all_of, any_of, lit, char, in_class,
  sat, word, space, spaces, bol, eol, star, plus, group, dot, is_word, mem,
}
use ringfile.Lint.Report.{Event}
use ringfile.Lint.FileChecks.{call}
use ringfile.Lint.FileChecks.Guard.{words_from, line_at}
use ringfile.Lint.Function.{FunctionState, begin, count, check, finish}

-- r'(\w(\w|::|\*|\&|\s)*)\('
abbrev pub head_re : Re
head_re = all_of (
    group 1 (
      all_of (
        word
        ∷ star (group 2 (any_of (word ∷ lit (codes "::") ∷ char b'*' ∷ char b'&' ∷ space ∷ [])))
        ∷ []))
    ∷ char b'('
    ∷ [])

-- r'[A-Z_]+$'
abbrev pub macro_re : Re
macro_re = all_of (plus (in_class (codes "ABCDEFGHIJKLMNOPQRSTUVWXYZ_")) ∷ eol ∷ [])

-- r'((\w|:)*)\('
abbrev pub name_re : Re
name_re = all_of (group 1 (star (group 2 (any_of (word ∷ char b':' ∷ [])))) ∷ char b'(' ∷ [])

-- r'(\(.*\))'
abbrev pub parameter_re : Re
parameter_re = group 1 (all_of (char b'(' ∷ star dot ∷ char b')' ∷ []))

unfoldable pub last_word : Text → List Text → Text
last_word w [] = w
last_word w (v ∷ vs) = last_word v vs

-- starting_func
unfoldable pub is_starting : Text → Bool
unfolding last_word
is_starting line = elim (match_re head_re line) [
  | none ↦ false
  | some h ↦
      let name = last_word [] (words_from [] (group_or_empty 1 h)) in
      same name (codes "TEST") || same name (codes "TEST_F") || not (matches macro_re name)
]

-- What is said of a line: it opens a body for a function of that name, declares a function or has a
-- trivial one, has no body to be found, ends a function, is counted, or is blank.
pub data Kind : Type 0 where
  opens : Text → Kind
  declares unfound ends counted blank : Kind

-- The name in a line that opens a body, with the parameters of a TEST macro from the joined lines.
unfoldable pub function_name : Text → Text → Text
function_name line joined =
    let name : Text = elim (search_re name_re line) [ none ↦ [] | some h ↦ group_or_empty 1 h ] in
    if matches (lit (codes "TEST")) name
    then elim (search_re parameter_re joined) [ none ↦ name | some h ↦ name ++ group_or_empty 1 h ]
    else name ++ codes "()"

-- The search for the body in the lines from the first on, which is `line`.
unfoldable pub find_body : Text → Text → List Text → Kind
find_body line joined [] = unfound
find_body line joined (l ∷ ls) =
    let joined' = joined ++ codes " " ++ drop_while is_unicode_space l in
    let rest = find_body line joined' ls in
    if searches (in_class (codes ";}")) l
    then declares
    else if searches (char b'{') l
    then opens (function_name line joined')
    else rest

unfoldable pub kind : List Text → ℕ → Kind
unfolding find_body is_starting function_name
kind lines linenum =
    let line = line_at lines linenum in
    if is_starting line
    then find_body line [] (drop linenum lines)
    else if matches (all_of (bol ∷ char b'}' ∷ spaces ∷ eol ∷ [])) line
    then ends
    else if matches (all_of (bol ∷ spaces ∷ eol ∷ [])) line
    then blank
    else counted

-- What the check does for a line of a kind, at that verbosity.
unfoldable pub act : ℕ → Text → ℕ → Kind → FunctionState → FunctionState × List Event
act verbose filename linenum (opens name) s = (begin name s, [])
act verbose filename linenum declares s = (s, [])
act verbose filename linenum unfound s = (
  s,
  call filename linenum (codes "readability/fn_size") 5
        (codes "Lint failed to find start of function body.")
      ∷ [],
)
act verbose filename linenum ends s = (finish s, check verbose filename linenum s)
act verbose filename linenum counted s = (count s, [])
act verbose filename linenum blank s = (s, [])

unfoldable pub check_for_function_lengths :
    ℕ → Text → List Text → ℕ → FunctionState → FunctionState × List Event
unfolding kind act
check_for_function_lengths verbose filename lines linenum s =
    act verbose filename linenum (kind lines linenum) s
