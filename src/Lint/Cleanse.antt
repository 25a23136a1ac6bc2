-- ===== src/Lint/Cleanse.antt =====
-- The cleaning of lines in tools/cpplint.py: IsCppString, CleanseRawStrings, CleanseComments and the
-- class CleansedLines with _CollapseStrings. A line holds no line end.
--
-- Two loops run over one line, and each round leaves less of it, so they have as many rounds as the
-- line has characters, and one for the end.
pub mod Lengths
mod Runs
use ringfile.Prelude.{
  ℕ, zero, suc, ◌+◌, ◌-◌, ◌%◌, Bool, true, false, not, ◌&&◌, ◌==◌, Option, none, some, List, [],
  ◌∷◌, ◌++◌, ◌||◌, Text, if◌then◌else◌, codes, length, take, drop, map, same,
}
use ringfile.Prelude.Strings.{count, replace, find, rstrip, is_unicode_space, is_space}
use ringfile.Lint.Regex.{
  any_word, Re, Hit, match_re, matches, searches, replace_all, group_or_empty, all_of, any_of, lit,
  char, in_class, not_in, dot, space, non_space, non_word, word, digit, spaces, bol, eol, boundary,
  star, plus, maybe, group, ahead, not_ahead, sat, mem, is_word,
}

-- The three counts may make the sum negative, so its parity is taken without the sign.
unfoldable pub is_cpp_string : Text → Bool
is_cpp_string line =
    let l = replace line (codes "\\\\") (codes "XX") in
    (count l (codes "\"") + count l (codes "\\\"") + count l (codes "'\"'")) % 2 == 1

-- r'^(\s*)\S'
abbrev leading_re : Re
leading_re = all_of (bol ∷ group 1 spaces ∷ non_space ∷ [])

-- r'^(.*)\b(?:R|u8R|uR|UR|LR)"([^\s\\()]*)\((.*)$'
abbrev raw_re : Re
raw_re = all_of (
    bol
    ∷ group 1 (star dot)
    ∷ boundary
    ∷ any_word ("R" ∷ "u8R" ∷ "uR" ∷ "UR" ∷ "LR" ∷ [])
    ∷ char b'"'
    ∷ group 2 (star (sat (λ c. not (is_space c || mem c (codes "\\()")))))
    ∷ char b'('
    ∷ group 3 (star dot)
    ∷ eol
    ∷ [])

-- The line after the search for raw strings that begin on it, and the delimiter of one that does not
-- end on it.
unfoldable pub raw_loop : ℕ → Text → Text × Option Text
raw_loop zero line = (line, none)
raw_loop (suc fuel) line = elim (match_re raw_re line) [
  | none ↦ (line, none)
  | some h ↦
      let delimiter = b')' ∷ (group_or_empty 2 h ++ codes "\"") in
      elim (find (group_or_empty 3 h) delimiter) [
        | some end ↦ raw_loop fuel (
            group_or_empty 1 h
            ++ codes "\"\""
            ++ drop (end + length delimiter) (group_or_empty 3 h))
        | none ↦ (group_or_empty 1 h ++ codes "\"\"", some delimiter)
      ]
]

-- The white space that the line begins with; a line with the delimiter has more than that.
unfoldable pub leading_space : Text → Text
leading_space line = elim (match_re leading_re line) [ some h ↦ group_or_empty 1 h | none ↦ [] ]

-- One line, with the delimiter of the raw string that it begins in.
unfoldable pub raw_line : Option Text → Text → Text × Option Text
unfolding raw_loop leading_space
raw_line none line = raw_loop (suc (length line)) line
raw_line (some delimiter) line = elim (find line delimiter) [
  | none ↦ (codes "\"\"", some delimiter)
  | some end ↦
      let leading = leading_space line in
      let line' = leading ++ codes "\"\"" ++ drop (end + length delimiter) line in
      raw_loop (suc (length line')) line'
]

unfoldable pub cleanse_lines_from : Option Text → List Text → List Text
cleanse_lines_from delimiter [] = []
cleanse_lines_from delimiter (l ∷ ls) =
    let (line, next) = raw_line delimiter l in line ∷ cleanse_lines_from next ls

unfoldable pub cleanse_raw_strings : List Text → List Text
unfolding cleanse_lines_from
cleanse_raw_strings raw_lines = cleanse_lines_from none raw_lines

-- r'/\*(?:[^*]|\*(?!/))*\*/'
abbrev c_comment : Re
c_comment = all_of (
    lit (codes "/*")
    ∷ star (any_of (not_in (codes "*") ∷ all_of (char b'*' ∷ not_ahead (char b'/') ∷ []) ∷ []))
    ∷ lit (codes "*/")
    ∷ [])

-- _RE_PATTERN_CLEANSE_LINE_C_COMMENTS
abbrev c_comments_re : Re
c_comments_re = any_of (
    all_of (spaces ∷ c_comment ∷ spaces ∷ eol ∷ [])
    ∷ all_of (c_comment ∷ plus space ∷ [])
    ∷ all_of (plus space ∷ c_comment ∷ ahead non_word ∷ [])
    ∷ c_comment
    ∷ [])

unfoldable pub cut_comment : Text → Text
cut_comment line = elim (find line (codes "//")) [
  | none ↦ line
  | some pos ↦
      if is_cpp_string (take pos line) then line else rstrip is_unicode_space (take pos line)
]

unfoldable pub cleanse_comments : Text → Text
unfolding cut_comment
cleanse_comments line = replace_all c_comments_re (λ _. []) (cut_comment line)

-- _RE_PATTERN_INCLUDE
abbrev pub include_re : Re
include_re = all_of (
    bol
    ∷ spaces
    ∷ char b'#'
    ∷ spaces
    ∷ lit (codes "include")
    ∷ spaces
    ∷ group 1 (in_class (codes "<\""))
    ∷ group 2 (star (not_in (codes ">\"")))
    ∷ in_class (codes ">\"")
    ∷ star dot
    ∷ eol
    ∷ [])

abbrev hex_digit : Re
hex_digit = in_class (codes "0123456789abcdefABCDEF")

-- _RE_PATTERN_CLEANSE_LINE_ESCAPES
abbrev escapes_re : Re
escapes_re = all_of (
    char b'\\'
    ∷ any_of (
        in_class (codes "abfnrtv?\"\\'")
        ∷ plus digit
        ∷ all_of (char b'x' ∷ plus hex_digit ∷ [])
        ∷ [])
    ∷ [])

-- r'^([^\'"]*)([\'"])(.*)$'
abbrev quote_re : Re
quote_re = all_of (
    bol
    ∷ group 1 (star (not_in (codes "'\"")))
    ∷ group 2 (in_class (codes "'\""))
    ∷ group 3 (star dot)
    ∷ eol
    ∷ [])

-- r'\b(?:0[bBxX]?|[1-9])[0-9a-fA-F]*$'
abbrev number_re : Re
number_re = all_of (
    boundary
    ∷ any_of (
        all_of (char b'0' ∷ maybe (in_class (codes "bBxX")) ∷ [])
        ∷ in_class (codes "123456789")
        ∷ [])
    ∷ star hex_digit
    ∷ eol
    ∷ [])

-- r'^((?:\'?[0-9a-zA-Z_])*)(.*)$'
abbrev literal_re : Re
literal_re =
    all_of (
      bol
      ∷ group 1 (star (all_of (maybe (char b'\'') ∷ word ∷ [])))
      ∷ group 2 (star dot)
      ∷ eol
      ∷ [])

-- The loop of _CollapseStrings: what is collapsed so far, and what is left of the line.
unfoldable pub collapse_loop : ℕ → Text → Text → Text
collapse_loop zero collapsed elided = collapsed ++ elided
collapse_loop (suc fuel) collapsed elided = elim (match_re quote_re elided) [
  | none ↦ collapsed ++ elided
  | some h ↦
      let head = group_or_empty 1 h in
      let tail = group_or_empty 3 h in
      elim (same (group_or_empty 2 h) (codes "\"")) [
        | true ↦ elim (find tail (codes "\"")) [
          | some second ↦
              collapse_loop fuel (collapsed ++ head ++ codes "\"\"") (drop (second + 1) tail)
          | none ↦ collapsed ++ elided
        ]
        | false ↦ elim (searches number_re head) [
          | true ↦ elim (match_re literal_re (b'\'' ∷ tail)) [
            | none ↦ collapsed ++ elided
            | some m ↦
                collapse_loop fuel
                  (collapsed ++ head ++ replace (group_or_empty 1 m) (codes "'") [])
                  (group_or_empty 2 m)
          ]
          | false ↦ elim (find tail (codes "'")) [
            | some second ↦
                collapse_loop fuel (collapsed ++ head ++ codes "''") (drop (second + 1) tail)
            | none ↦ collapsed ++ elided
          ]
        ]
      ]
]

unfoldable pub collapse_strings : Text → Text
unfolding collapse_loop
collapse_strings elided =
    if matches include_re elided
    then elided
    else let e = replace_all escapes_re (λ _. []) elided in collapse_loop (suc (length e)) [] e

-- The fields of the class, which its constructor computes from the lines.
pub record CleansedLines : Type 0 where
  pub elided : List Text
  pub lines : List Text
  pub raw_lines : List Text
  pub num_lines : ℕ
  pub lines_without_raw_strings : List Text

unfoldable pub cleanse : List Text → CleansedLines
cleanse raw =
    let without = cleanse_raw_strings raw in
    record {
      elided = map (λ l. cleanse_comments (collapse_strings l)) without;
      lines = map cleanse_comments without;
      raw_lines = raw;
      num_lines = length raw;
      lines_without_raw_strings = without;
    }
