-- ===== src/Lint/FileChecks/Guard.antt =====
-- GetHeaderGuardCPPVariable and CheckForHeaderGuard of tools/cpplint.py.
pub mod Complete
use mathlib.Core.Option
use ringfile.Prelude.{
  ℕ, zero, suc, ◌+◌, Bool, true, false, not, ◌&&◌, ◌||◌, Option, none, some, List, [], ◌∷◌, ◌++◌,
  Text, if◌then◌else◌, codes, same, starts_with, get_elem?,
}
use ringfile.Prelude.Strings.{upper, is_unicode_space}
use ringfile.Lint.Regex.{
  Re, Hit, searches, replace_all, group_or_empty, all_of, lit, char, not_in, spaces, eol, group,
  star, sat, mem,
}
use ringfile.Prelude.Strings.{is_space}
use ringfile.Lint.Report.{Event, report}
use ringfile.Lint.Nolint.{parse_nolint_suppressions}

-- r'_flymake\.h$'
abbrev flymake_end : Re
flymake_end = all_of (lit (codes "_flymake.h") ∷ eol ∷ [])

-- r'/\.flymake/([^/]*)$'
abbrev flymake_dir : Re
flymake_dir = all_of (lit (codes "/.flymake/") ∷ group 1 (star (not_in (codes "/"))) ∷ eol ∷ [])

-- r'[-./\s]'
abbrev separator : Re
separator = sat (λ c. mem c (codes "-./") || is_space c)

-- The file name that FileInfo gets.
unfoldable pub guard_filename : Text → Text
guard_filename filename =
    replace_all flymake_dir (λ h. b'/' ∷ group_or_empty 1 h)
      (replace_all flymake_end (λ _. codes ".h") filename)

-- GetHeaderGuardCPPVariable. `repository_name` is that of FileInfo, and `strip_root` the substitution
-- for the flag --root, which does nothing without the flag; `none` is a loop of RepositoryName that does
-- not end.
unfoldable pub get_header_guard_cpp_variable :
    (Text → Option Text) → (Text → Text) → Text → Option Text
unfolding guard_filename
get_header_guard_cpp_variable repository_name strip_root filename =
    Option.map
      (λ name. upper (replace_all separator (λ _. codes "_") (strip_root name)) ++ codes "_")
      (repository_name (guard_filename filename))

-- the word that ends at a space, if there is one
unfoldable pub flush : Text → List Text → List Text
flush [] ws = ws
flush (x ∷ w) ws = (x ∷ w) ∷ ws

-- line.split(): the words of a line, with the word that is begun
unfoldable pub words_from : Text → Text → List Text
unfolding flush
words_from word [] = flush word []
words_from word (c ∷ s) =
    let b = is_unicode_space c in
    let next = words_from (if b then [] else word ++ c ∷ []) s in
    if b then flush word next else next

-- What the loop over the lines has found: an empty text is no name.
pub record Guard : Type 0 where
  pub ifndef : Option Text
  pub ifndef_linenum : ℕ
  pub define : Option Text
  pub endif : Option Text
  pub endif_linenum : ℕ

abbrev pub no_guard : Guard
no_guard = record {
  ifndef = none;
  ifndef_linenum = 0;
  define = none;
  endif = none;
  endif_linenum = 0;
}

unfoldable pub is_none : Option Text → Bool
is_none none = true
is_none (some t) = false

-- the first two words of a line, if it has two
unfoldable pub first_two : List Text → Option (Text × Text)
first_two (a ∷ b ∷ ws) = some (a, b)
first_two _ = none

unfoldable pub see_words : ℕ → Option (Text × Text) → Guard → Guard
see_words linenum none g = g
see_words linenum (some (a, b)) g =
    let g' =
      if is_none g.ifndef && same a (codes "#ifndef")
      then record g { ifndef = some b; ifndef_linenum = linenum }
      else g in
    if is_none g'.define && same a (codes "#define") then record g' { define = some b } else g'

unfoldable pub see_line : ℕ → Text → Guard → Guard
see_line linenum line g =
    let g' = see_words linenum (first_two (words_from [] line)) g in
    if starts_with line (codes "#endif")
    then record g' { endif = some line; endif_linenum = linenum }
    else g'

unfoldable pub find_guard : ℕ → List Text → Guard → Guard
unfolding see_line see_words is_none first_two
find_guard linenum [] g = g
find_guard linenum (l ∷ ls) g = find_guard (linenum + 1) ls (see_line linenum l g)

-- the guard's category
unfoldable pub guard_call : Text → ℕ → ℕ → Text → Event
guard_call filename linenum confidence message = report (record {
  filename = filename;
  linenum = linenum;
  category = codes "build/header_guard";
  confidence = confidence;
  message = message;
})

-- lines[n]
unfoldable pub line_at : List Text → ℕ → Text
line_at lines n = elim (get_elem? lines n) [ some l ↦ l | none ↦ [] ]

-- The events where the #ifndef has another name than the guard should have.
unfoldable pub ifndef_events : Text → List Text → Text → Guard → Text → List Event
ifndef_events filename lines cppvar g ifndef =
    if same ifndef cppvar
    then []
    else parse_nolint_suppressions filename (line_at lines g.ifndef_linenum) g.ifndef_linenum
      ++ guard_call filename g.ifndef_linenum (if same ifndef (cppvar ++ codes "_") then 0 else 5)
          (codes "#ifndef header guard has wrong style, please use: " ++ cppvar)
        ∷ []

abbrev pub endif_comment : Text → Text
endif_comment cppvar = codes "#endif  // " ++ cppvar

unfoldable pub is_text : Option Text → Text → Bool
is_text none t = false
is_text (some s) t = same s t

unfoldable pub endif_events : Text → List Text → Text → Guard → List Event
unfolding is_text
endif_events filename lines cppvar g =
    if is_text g.endif (endif_comment cppvar)
    then []
    else parse_nolint_suppressions filename (line_at lines g.endif_linenum) g.endif_linenum
      ++ guard_call filename g.endif_linenum
          (if is_text g.endif (endif_comment (cppvar ++ codes "_")) then 0 else 5)
          (codes "#endif line should be \"#endif  // " ++ cppvar ++ codes "\"")
        ∷ []

-- The part of CheckForHeaderGuard behind the loop.
unfoldable pub guard_events : Text → List Text → Text → Guard → List Event
guard_events filename lines cppvar g = elim g.ifndef [
  | none ↦
      guard_call filename 0 5
        (codes "No #ifndef header guard found, suggested CPP variable is: " ++ cppvar)
      ∷ []
  | some ifndef ↦ elim g.define [
    | none ↦
        guard_call filename 0 5
          (codes "No #define header guard found, suggested CPP variable is: " ++ cppvar)
        ∷ []
    | some define ↦
        ifndef_events filename lines cppvar g ifndef
        ++ (if same define ifndef
            then endif_events filename lines cppvar g
            else guard_call filename 0 5
                (codes "#ifndef and #define don't match, suggested CPP variable is: " ++ cppvar)
              ∷ [])
  ]
]

-- r'//\s*NOLINT\(build/header_guard\)'
abbrev pub no_guard_re : Re
no_guard_re = all_of (lit (codes "//") ∷ spaces ∷ lit (codes "NOLINT(build/header_guard)") ∷ [])

unfoldable pub any_guard_nolint : List Text → Bool
any_guard_nolint [] = false
any_guard_nolint (l ∷ ls) = searches no_guard_re l || any_guard_nolint ls

-- CheckForHeaderGuard, with the name that GetHeaderGuardCPPVariable gives.
unfoldable pub check_for_header_guard : Text → Text → List Text → List Event
unfolding guard_events find_guard any_guard_nolint ifndef_events endif_events
check_for_header_guard cppvar filename lines =
    if any_guard_nolint lines
    then []
    else guard_events filename lines cppvar (find_guard 0 lines no_guard)
