-- ===== src/Lint/RequiredIncludes/Runs.antt =====
-- Runs of the check for missing includes.
use ringfile.Prelude.{◌≡◌, refl, false, none, [], ◌∷◌, codes, same}
use ringfile.Prelude.Strings.{strip, ends_with}
use ringfile.Lint.Regex.{searches, search_re, mem}
use ringfile.Lint.FileChecks.{call, is_some}
use ringfile.Lint.Include.{find_in}
use ringfile.Prelude.{List, Text, some, Option, ◌++◌, All, map, if◌then◌else◌}
use ringfile.Lint.Cleanse.{CleansedLines}
use ringfile.Lint.Include.{Entry, include_list, add_header, init}
use ringfile.Lint.RequiredIncludes.Missing.{IsMissing, what_you_use-IsMissing}
use ringfile.Lint.RequiredIncludes.{
  Required, check_for_include_what_you_use, require_lines, flatten, is_std_string, require,
  require_all, algorithm_needs, missing_events,
}

-- a later line takes the place of an earlier one
require_test :
    require_all
      (codes " x = max(a, b) + std::min(a, b);")
      4
      algorithm_needs
      ((codes "<algorithm>", (2, codes "sort")) ∷ [])
    ≡ (codes "<algorithm>", (4, codes "min")) ∷ []
unfolding require_all require same searches mem
require_test = refl

-- strings of other namespaces are not those of std
string_test : is_std_string (codes "my::string s;") ≡ false
unfolding is_std_string search_re ends_with
string_test = refl

missing_test :
    missing_events
      (λ p. p)
      (λ h. none)
      (λ d. [])
      (λ r. r)
      (codes "a.h")
      ((codes "vector", 1) ∷ [])
      ((codes "<vector>", (1, codes "vector<>")) ∷ (codes "<string>", (2, codes "string")) ∷ [])
    ≡ call
        (codes "a.h")
        2
        (codes "build/include_what_you_use")
        4
        (codes "Add #include <string> for string")
      ∷ []
unfolding missing_events find_in strip same is_some mem
missing_test = refl

abbrev code : CleansedLines
code = record {
  elided = codes "//" ∷ codes "vector<int> v; string s;" ∷ [];
  lines = [];
  raw_lines = [];
  num_lines = 2;
  lines_without_raw_strings = [];
}

abbrev items : Required → Required
items required = required

abbrev header_keys : List Entry → List Text
header_keys d = map (λ (header, linenum). header) d

-- the header of the file includes nothing
abbrev header_lines : Text → Option (List Text)
header_lines p = if same p (codes "/r/a.h") then some (codes "#pragma once\n" ∷ []) else none

abbrev abspath : Text → Text
abspath p = codes "/r/" ++ p

what_you_use-IsMissing_example :
    All
      (IsMissing
        (codes "a.cc")
        (flatten (include_list (add_header (codes "a.h") 1 init)))
        (items (require_lines code.elided 0 [])))
      (check_for_include_what_you_use abspath header_lines header_keys items
        (codes "a.cc")
        code
        (add_header (codes "a.h") 1 init))
what_you_use-IsMissing_example =
    what_you_use-IsMissing abspath header_lines header_keys items (codes "a.cc") code
      (add_header (codes "a.h") 1 init)
