-- ===== src/Lint/Include.antt =====
-- class _IncludeState of tools/cpplint.py: the headers included so far, and the order in which the
-- kinds of headers follow one another.
pub mod Order
pub mod Find
mod Runs
use ringfile.Prelude.{
  ℕ, zero, suc, ◌+◌, Bool, true, false, not, ◌&&◌, ◌||◌, ◌==◌, ltb, leb, Option, none, some, List,
  [], ◌∷◌, ◌++◌, Text, same, if◌then◌else◌, codes, reverse,
}
use ringfile.Prelude.Strings.{one_of, replace, lower, is_space}
use ringfile.Lint.Regex.{matches, all_of, bol, spaces, eol}

-- _C_SYS_HEADER and the other types of headers; each value has its own name in the source.
pub data HeaderType : Type 0 where
  c_sys_header cpp_sys_header likely_my_header possible_my_header other_header : HeaderType

-- _INITIAL_SECTION and the others are the numbers 0 to 4.
abbrev pub initial_section : ℕ
initial_section = 0

abbrev pub my_h_section : ℕ
my_h_section = 1

abbrev pub c_section : ℕ
c_section = 2

abbrev pub cpp_section : ℕ
cpp_section = 3

abbrev pub other_h_section : ℕ
other_h_section = 4

-- _TYPE_NAMES
unfoldable pub type_name : HeaderType → Text
type_name c_sys_header = codes "C system header"
type_name cpp_sys_header = codes "C++ system header"
type_name likely_my_header = codes "header this file implements"
type_name possible_my_header = codes "header this file may implement"
type_name other_header = codes "other header"

-- _SECTION_NAMES; no other number is a section.
unfoldable pub section_name : ℕ → Text
section_name n =
    if n == 0
    then codes "... nothing. (This can't be an error.)"
    else if n == 1
    then codes "a header this file implements"
    else if n == 2
    then codes "C system header"
    else if n == 3
    then codes "C++ system header"
    else codes "other header"

-- A header and the line that it is on.
abbrev pub Entry : Type 0
Entry = Text × ℕ

-- `include_list` is held as its last element and the elements before it, the nearest first: the list
-- has an element at all times, and only the last is ever replaced.
pub record IncludeState : Type 0 where
  pub last_list : List Entry
  pub earlier : List (List Entry)
  pub section : ℕ
  pub last_header : Text

-- include_list, in the order of the source
unfoldable pub include_list : IncludeState → List (List Entry)
include_list s = reverse (s.last_list ∷ s.earlier)

unfoldable pub find_in : Text → List Entry → Option ℕ
find_in header [] = none
find_in header ((h, line) ∷ es) = if same h header then some line else find_in header es

unfoldable pub find_in_lists : Text → List (List Entry) → Option ℕ
find_in_lists header [] = none
find_in_lists header (l ∷ ls) = elim (find_in header l) [
  | some line ↦ some line
  | none ↦ find_in_lists header ls
]

-- FindHeader; `none` is -1.
unfoldable pub find_header : Text → IncludeState → Option ℕ
find_header header s = find_in_lists header (include_list s)

unfoldable pub reset_section : Text → IncludeState → IncludeState
reset_section directive s =
    let r = record s { section = initial_section; last_header = [] } in
    if one_of directive (codes "if" ∷ codes "ifdef" ∷ codes "ifndef" ∷ [])
    then record r { earlier = s.last_list ∷ s.earlier; last_list = [] }
    else if one_of directive (codes "else" ∷ codes "elif" ∷ [])
    then record r { last_list = [] }
    else r

-- __init__: include_list is [[]], then ResetSection('').
unfoldable pub init : IncludeState
init = record { last_list = []; earlier = []; section = initial_section; last_header = [] }

-- include_list[-1].append((header, linenum)), as CheckIncludeLine does
unfoldable pub add_header : Text → ℕ → IncludeState → IncludeState
add_header header line s = record s { last_list = s.last_list ++ (header, line) ∷ [] }

unfoldable pub set_last_header : Text → IncludeState → IncludeState
set_last_header path s = record s { last_header = path }

unfoldable pub canonicalize_alphabetical_order : Text → Text
canonicalize_alphabetical_order path =
    lower (replace (replace path (codes "-inl.h") (codes ".h")) (codes "-") (codes "_"))

-- s > t, by code points
unfoldable pub text_gt : Text → Text → Bool
text_gt [] t = false
text_gt (x ∷ s) [] = true
text_gt (x ∷ s) (y ∷ t) = ltb y x || (x == y && text_gt s t)

-- The line is the elided line above the header's.
unfoldable pub is_in_alphabetical_order : Text → Text → IncludeState → Bool
unfolding text_gt
is_in_alphabetical_order line_above path s =
    not (text_gt s.last_header path && not (matches (all_of (bol ∷ spaces ∷ eol ∷ [])) line_above))

-- The section after a header of a type, or `none` if the header is out of order.
unfoldable pub next_section : HeaderType → ℕ → Option ℕ
next_section c_sys_header n = if leb n c_section then some c_section else none
next_section cpp_sys_header n = if leb n cpp_section then some cpp_section else none
next_section likely_my_header n =
    some (if leb n my_h_section then my_h_section else other_h_section)
next_section possible_my_header n =
    some (if leb n my_h_section then my_h_section else other_h_section)
next_section other_header n = some other_h_section

unfoldable pub error_message : HeaderType → ℕ → Text
unfolding type_name section_name
error_message t n = codes "Found " ++ type_name t ++ codes " after " ++ section_name n

-- CheckNextIncludeOrder: the new state and the message, empty if the order is right.
unfoldable pub check_next_include_order : HeaderType → IncludeState → IncludeState × Text
unfolding next_section
check_next_include_order t s = elim (next_section t s.section) [
  | none ↦ (record s { last_header = [] }, error_message t s.section)
  | some n ↦
      (record s { section = n; last_header = if n == s.section then s.last_header else [] }, [])
]
