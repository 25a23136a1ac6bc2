-- ===== src/Lint/LineChecks.antt =====
-- The checks of tools/cpplint.py that look at one line of code: CheckPosixThreading,
-- CheckVlogArguments, CheckInvalidIncrement, CheckMakePairUsesDeduction, CheckDefaultLambdaCaptures,
-- IsMacroDefinition and IsForwardClassDeclaration.
pub mod Specifiers
pub mod Sound
pub mod Listed
mod Runs
use ringfile.Prelude.{
  ℕ, suc, ◌-◌, Bool, true, false, not, ◌&&◌, ◌||◌, ltb, Option, none, some, List, [], ◌∷◌, ◌++◌,
  Text, if◌then◌else◌, codes, length, drop,
}
use ringfile.Lint.Regex.{
  any_word, Re, match_re, matches, searches, group_or_empty, all_of, any_of, lit, char, in_class,
  not_in, sat, word, non_word, space, spaces, bol, eol, boundary, star, plus, group, dot, is_word,
}
use ringfile.Lint.Report.{Event}
use ringfile.Lint.FileChecks.{call}
use ringfile.Lint.FileChecks.Guard.{line_at}
use ringfile.Lint.Brackets.{Place, close_expression}

-- _UNSAFE_FUNC_PREFIX
abbrev pub unsafe_func_prefix : Re
unsafe_func_prefix = any_of (
    all_of (in_class (codes "-+*/=%^&|(<") ∷ spaces ∷ [])
    ∷ all_of (char b'>' ∷ plus space ∷ [])
    ∷ [])

-- What stands in the parentheses of a call: something, or nothing.
abbrev pub some_argument : Re
some_argument = all_of (char b'(' ∷ plus (not_in (codes ")")) ∷ char b')' ∷ [])

abbrev pub no_argument : Re
no_argument = lit (codes "()")

-- One element of _THREADING_LIST, by the name of the function and its arguments.
pub record Threading : Type 0 where
  pub function : Text
  pub arguments : Re

abbrev pub threading : Text → Re → Threading
threading function arguments = record { function = function; arguments = arguments }

abbrev pub threading_list : List Threading
threading_list =
    threading (codes "asctime") some_argument
    ∷ threading (codes "ctime") some_argument
    ∷ threading (codes "getgrgid") some_argument
    ∷ threading (codes "getgrnam") some_argument
    ∷ threading (codes "getlogin") no_argument
    ∷ threading (codes "getpwnam") some_argument
    ∷ threading (codes "getpwuid") some_argument
    ∷ threading (codes "gmtime") some_argument
    ∷ threading (codes "localtime") some_argument
    ∷ threading (codes "rand") no_argument
    ∷ threading (codes "strtok") some_argument
    ∷ threading (codes "ttyname") some_argument
    ∷ []

abbrev pub threading_re : Threading → Re
threading_re t = all_of (unsafe_func_prefix ∷ lit t.function ∷ t.arguments ∷ [])

unfoldable pub threading_events : Text → Text → ℕ → List Threading → List Event
threading_events filename line linenum [] = []
threading_events filename line linenum (t ∷ ts) =
    (if searches (threading_re t) line
      then call filename linenum (codes "runtime/threadsafe_fn") 2 (
          codes "Consider using "
          ++ (t.function ++ codes "_r(")
          ++ codes "...) instead of "
          ++ (t.function ++ codes "(")
          ++ codes "...) for improved thread safety.")
        ∷ []
      else [])
    ++ threading_events filename line linenum ts

-- The checks get the elided line and its number.
unfoldable pub check_posix_threading : Text → Text → ℕ → List Event
unfolding threading_events
check_posix_threading filename line linenum = threading_events filename line linenum threading_list

-- r'\bVLOG\((INFO|ERROR|WARNING|DFATAL|FATAL)\)'
abbrev pub vlog_re : Re
vlog_re = all_of (
    boundary
    ∷ lit (codes "VLOG(")
    ∷ group 1 (any_word ("INFO" ∷ "ERROR" ∷ "WARNING" ∷ "DFATAL" ∷ "FATAL" ∷ []))
    ∷ char b')'
    ∷ [])

unfoldable pub check_vlog_arguments : Text → Text → ℕ → List Event
check_vlog_arguments filename line linenum =
    if searches vlog_re line
    then call filename linenum (codes "runtime/vlog") 5 (
        codes
          "VLOG() should be used with numeric verbosity level.  Use LOG() if you want symbolic severity levels.")
      ∷ []
    else []

-- _RE_PATTERN_INVALID_INCREMENT
abbrev pub invalid_increment_re : Re
invalid_increment_re = all_of (
    bol
    ∷ spaces
    ∷ char b'*'
    ∷ plus word
    ∷ group 1 (any_of (lit (codes "++") ∷ lit (codes "--") ∷ []))
    ∷ char b';'
    ∷ [])

unfoldable pub check_invalid_increment : Text → Text → ℕ → List Event
check_invalid_increment filename line linenum =
    if matches invalid_increment_re line
    then call filename linenum (codes "runtime/invalid_increment") 5
        (codes "Changing pointer instead of value (or unused value of operator*).")
      ∷ []
    else []

-- IsMacroDefinition, on a list of lines
unfoldable pub is_macro_definition : List Text → ℕ → Bool
is_macro_definition lines linenum =
    searches (all_of (bol ∷ lit (codes "#define") ∷ [])) (line_at lines linenum)
    || (ltb 0 linenum && searches (all_of (char b'\\' ∷ eol ∷ [])) (line_at lines (linenum - 1)))

-- r'^\s*(\btemplate\b)*.*class\s+\w+;\s*$'
abbrev pub forward_class_re : Re
forward_class_re = all_of (
    bol
    ∷ spaces
    ∷ star (group 1 (all_of (boundary ∷ lit (codes "template") ∷ boundary ∷ [])))
    ∷ star dot
    ∷ lit (codes "class")
    ∷ plus space
    ∷ plus word
    ∷ char b';'
    ∷ spaces
    ∷ eol
    ∷ [])

unfoldable pub is_forward_class_declaration : List Text → ℕ → Bool
is_forward_class_declaration lines linenum = matches forward_class_re (line_at lines linenum)

-- _RE_PATTERN_EXPLICIT_MAKEPAIR
abbrev pub make_pair_re : Re
make_pair_re = all_of (boundary ∷ lit (codes "make_pair") ∷ spaces ∷ char b'<' ∷ [])

unfoldable pub check_make_pair_uses_deduction : Text → Text → ℕ → List Event
check_make_pair_uses_deduction filename line linenum =
    if searches make_pair_re line
    then call filename linenum (codes "build/explicit_make_pair") 4 (
        codes
          "For C++11-compatibility, omit template arguments from make_pair OR use pair directly OR if appropriate, construct a pair directly")
      ∷ []
    else []

-- r'^(.*)\[\s*(?:=|&[^\w])'
abbrev pub capture_re : Re
capture_re = all_of (
    bol
    ∷ group 1 (star dot)
    ∷ char b'['
    ∷ spaces
    ∷ any_of (char b'=' ∷ all_of (char b'&' ∷ non_word ∷ []) ∷ [])
    ∷ [])

-- Whether `pos >= 0` and a parenthesis or a brace follows there.
unfoldable pub is_lambda : Place → Bool
is_lambda place = elim place.pos [
  | none ↦ false
  | some pos ↦ matches (all_of (bol ∷ spaces ∷ in_class (codes "{(") ∷ [])) (drop pos place.line)
]

-- This check gets all elided lines. `none` is a line number that no line has.
unfoldable pub check_default_lambda_captures : Text → List Text → ℕ → List Event
unfolding is_lambda
check_default_lambda_captures filename elided linenum =
    elim (match_re capture_re (line_at elided linenum)) [
      | none ↦ []
      | some h ↦ elim (close_expression elided linenum (length (group_or_empty 1 h))) [
        | none ↦ []
        | some place ↦
            if is_lambda place
            then call filename linenum (codes "build/c++11") 4
                (codes "Default lambda captures are an unapproved C++ feature.")
              ∷ []
            else []
      ]
    ]
