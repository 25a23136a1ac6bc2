-- ===== src/Lint/Language/Includes.antt =====
-- CheckIncludeLine of tools/cpplint.py, with what RepositoryName gives for the file.
use ringfile.Prelude.{
  ℕ, Bool, not, ◌&&◌, leb, Option, none, some, List, [], ◌∷◌, ◌++◌, Text, if◌then◌else◌, codes,
  same,
}
use ringfile.Prelude.Strings.{decimal}
use ringfile.Lint.Regex.{
  Re, match_re, matches, group_or_empty, all_of, any_of, lit, char, not_in, sat, spaces, bol, eol,
  star, plus, maybe, group, eps,
}
use ringfile.Lint.Report.{Event}
use ringfile.Lint.Outcomes.{after, and_then}
use ringfile.Lint.FileChecks.{call}
use ringfile.Lint.FileChecks.Guard.{line_at}
use ringfile.Lint.Cleanse.{CleansedLines}
use ringfile.Lint.Conditions.{when, on}
use ringfile.Lint.FileName.{base_name, classify_include, is_test_filename}
use ringfile.Lint.Cleanse.{include_re}
use ringfile.Lint.Include.{
  IncludeState, find_header, add_header, check_next_include_order, canonicalize_alphabetical_order,
  is_in_alphabetical_order, set_last_header,
}
use ringfile.Lint.Style.Blank.{line_before}

-- _THIRD_PARTY_HEADERS_PATTERN
abbrev pub third_party_re : Re
third_party_re = all_of (
    bol
    ∷ any_of (
        all_of (
          star (not_in (codes "/"))
          ∷ sat (λ x. (leb b'A' x && leb x b'Z'))
          ∷ star (not_in (codes "/"))
          ∷ lit (codes ".h")
          ∷ [])
        ∷ lit (codes "lua.h")
        ∷ lit (codes "lauxlib.h")
        ∷ lit (codes "lualib.h")
        ∷ [])
    ∷ eol
    ∷ [])

-- The name that RepositoryName gives, where it is asked for
abbrev pub if_asked : Bool → Option Text → Option Text
if_asked b name = if b then name else some []

-- A header that was not included before: its place in the order. RepositoryName is asked for a header
-- that is not of the system and for a message; `none` is a loop of it that does not end.
unfoldable pub order_events :
    Text
    → Option Text
    → List Text
    → ℕ
    → Text
    → Bool
    → IncludeState
    → Option (IncludeState × List Event)
order_events filename repository_name elided linenum header is_system s =
    elim (if_asked (not is_system) repository_name) [
      | none ↦ none
      | some own_name ↦
          let (s', error_message) =
            check_next_include_order (classify_include own_name header is_system)
              (add_header header linenum s) in
          let canonical_include = canonicalize_alphabetical_order header in
          elim (if_asked (not (same error_message [])) repository_name) [
            | none ↦ none
            | some name ↦ some (
              set_last_header canonical_include s',
              when (not (same error_message [])) (
                    call filename linenum (codes "build/include_order") 4 (
                      error_message
                      ++ codes ". Should be: "
                      ++ base_name name
                      ++ codes ".h, c system, c++ system, other."))
                  ++ when
                      (not (
                        is_in_alphabetical_order (line_before elided linenum) canonical_include s'))
                      (call filename linenum (codes "build/include_alpha") 4
                        (codes "Include \"" ++ header ++ codes "\" not in alphabetical order")),
            )
          ]
    ]

-- An include, in the state of the headers that were included.
unfoldable pub header_events :
    Text
    → Option Text
    → List Text
    → ℕ
    → Text
    → Bool
    → IncludeState
    → Option (IncludeState × List Event)
unfolding order_events
header_events filename repository_name elided linenum header is_system s =
    let fresh = order_events filename repository_name elided linenum header is_system s in
    elim (find_header header s) [
      | some duplicate_line ↦ some (
        s,
        call filename linenum (codes "build/include") 4 (
              codes "\""
              ++ header
              ++ codes "\" already included at "
              ++ filename
              ++ codes ":"
              ++ decimal duplicate_line)
            ∷ [],
      )
      | none ↦ if matches third_party_re header then some (s, []) else fresh
    ]

-- The headers of streams
unfoldable pub stream_events : Text → ℕ → Text → List Event
stream_events filename linenum header =
    when
      (matches
          (all_of (
            maybe (
              group 1 (
                any_of (
                  char b'f'
                  ∷ lit (codes "ind")
                  ∷ lit (codes "io")
                  ∷ char b'i'
                  ∷ char b'o'
                  ∷ lit (codes "parse")
                  ∷ lit (codes "pf")
                  ∷ lit (codes "stdio")
                  ∷ lit (codes "str")
                  ∷ eps
                  ∷ [])))
            ∷ lit (codes "stream")
            ∷ eol
            ∷ []))
          header
        && not (is_test_filename filename))
      (if same header (codes "ostream")
        then call filename linenum (codes "readability/streams") 3
            (codes "For logging, include \"base/logging.h\" instead of <ostream>.")
        else call filename linenum (codes "readability/streams") 3
            (codes "Streams are highly discouraged."))

-- CheckIncludeLine; `none` is a loop of RepositoryName that does not end. The expression begins at the beginning of the line, so that search and match find
-- the same.
unfoldable pub check_include_line :
    Text → Option Text → CleansedLines → ℕ → IncludeState → Option (IncludeState × List Event)
unfolding header_events stream_events
check_include_line filename repository_name clean_lines linenum s =
    let line = line_at clean_lines.lines linenum in
    let directory_events =
      on
        (match_re
          (all_of (
            lit (codes "#include")
            ∷ spaces
            ∷ char b'"'
            ∷ group 1 (all_of (plus (not_in (codes "/")) ∷ lit (codes ".h") ∷ []))
            ∷ char b'"'
            ∷ []))
          line)
        (λ h. when (not (matches third_party_re (group_or_empty 1 h))) (
          call filename linenum (codes "build/include") 4
            (codes "Include the directory when naming .h files"))) in
    elim (match_re include_re line) [
      | none ↦ some (s, directory_events)
      | some h ↦
          let header = group_or_empty 2 h in
          after directory_events (
            and_then
              (header_events filename repository_name clean_lines.elided linenum header
                (same (group_or_empty 1 h) (codes "<")) s)
              λ s'. some (s', stream_events filename linenum header))
    ]
