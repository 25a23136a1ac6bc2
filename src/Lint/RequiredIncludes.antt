-- ===== src/Lint/RequiredIncludes.antt =====
-- CheckForIncludeWhatYouUse and UpdateIncludeState of tools/cpplint.py.
--
-- A dict is an association list. The order in which Python 2 goes over one is unspecified, so it is a
-- parameter, and so are os.path.abspath and the lines of a header that is read.
pub mod Sound
pub mod Missing
mod Runs
use Prim.Native.String.{String}
use ringfile.Prelude.{
  ℕ, ◌+◌, Bool, true, false, not, ◌&&◌, ◌||◌, ◌==◌, Option, none, some, List, [], ◌∷◌, ◌++◌, Text,
  if◌then◌else◌, codes, same, map,
}
use ringfile.Prelude.Strings.{strip, ends_with, starts_with}
use ringfile.Lint.Regex.{
  Re, Hit, search_re, searches, replace_all, group_or_empty, all_of, any_of, lit, char, not_in,
  spaces, boundary, eol, star_lazy, maybe, group, dot, mem,
}
use ringfile.Lint.Report.{Event}
use ringfile.Lint.FileChecks.{call, is_some}
use ringfile.Lint.Cleanse.{CleansedLines, cleanse_comments, include_re}
use ringfile.Lint.Include.{IncludeState, Entry, include_list, find_in}
use ringfile.Lint.FileName.{full_name, files_belong_to_same_module}
use ringfile.Lint.Conditions.{when}

-- _HEADERS_CONTAINING_TEMPLATES
abbrev pub headers_containing_templates : List (String × List String)
headers_containing_templates =
    ("<deque>", "deque" ∷ [])
    ∷ (
      "<functional>",
      "unary_function" ∷ "binary_function" ∷ "plus" ∷ "minus" ∷ "multiplies" ∷ "divides" ∷ "modulus"
          ∷ "negate" ∷ "equal_to" ∷ "not_equal_to" ∷ "greater" ∷ "less" ∷ "greater_equal"
          ∷ "less_equal" ∷ "logical_and" ∷ "logical_or" ∷ "logical_not" ∷ "unary_negate" ∷ "not1"
          ∷ "binary_negate" ∷ "not2" ∷ "bind1st" ∷ "bind2nd" ∷ "pointer_to_unary_function"
          ∷ "pointer_to_binary_function" ∷ "ptr_fun" ∷ "mem_fun_t" ∷ "mem_fun" ∷ "mem_fun1_t"
          ∷ "mem_fun1_ref_t" ∷ "mem_fun_ref_t" ∷ "const_mem_fun_t" ∷ "const_mem_fun1_t"
          ∷ "const_mem_fun_ref_t" ∷ "const_mem_fun1_ref_t" ∷ "mem_fun_ref" ∷ [],
    )
    ∷ ("<limits>", "numeric_limits" ∷ [])
    ∷ ("<list>", "list" ∷ [])
    ∷ ("<map>", "map" ∷ "multimap" ∷ [])
    ∷ ("<memory>", "allocator" ∷ [])
    ∷ ("<queue>", "queue" ∷ "priority_queue" ∷ [])
    ∷ ("<set>", "set" ∷ "multiset" ∷ [])
    ∷ ("<stack>", "stack" ∷ [])
    ∷ ("<string>", "char_traits" ∷ "basic_string" ∷ [])
    ∷ ("<utility>", "pair" ∷ [])
    ∷ ("<vector>", "vector" ∷ [])
    ∷ ("<hash_map>", "hash_map" ∷ "hash_multimap" ∷ [])
    ∷ ("<hash_set>", "hash_set" ∷ "hash_multiset" ∷ [])
    ∷ ("<slist>", "slist" ∷ [])
    ∷ []

-- An expression, what it finds, and the header that this needs.
pub record Need : Type 0 where
  pub pattern : Re
  pub template : Text
  pub header : Text

-- r'[^>.]\b' + template + r'(<.*?>)?\([^\)]'
abbrev algorithm_need : String → Need
algorithm_need template = record {
  pattern = all_of (
      not_in (codes ">.")
      ∷ boundary
      ∷ lit (codes template)
      ∷ maybe (group 1 (all_of (char b'<' ∷ star_lazy dot ∷ char b'>' ∷ [])))
      ∷ char b'('
      ∷ not_in (codes ")")
      ∷ []);
  template = codes template;
  header = codes "<algorithm>";
}

-- _re_pattern_algorithm_header
abbrev pub algorithm_needs : List Need
algorithm_needs =
    map algorithm_need ("copy" ∷ "max" ∷ "min" ∷ "min_element" ∷ "sort" ∷ "swap" ∷ "transform" ∷ [])

-- r'(\<|\b)' + template + r'\s*\<'
abbrev template_need : String → String → Need
template_need header template = record {
  pattern = all_of (
      group 1 (any_of (char b'<' ∷ boundary ∷ []))
      ∷ lit (codes template)
      ∷ spaces
      ∷ char b'<'
      ∷ []);
  template = codes template ++ codes "<>";
  header = codes header;
}

-- _re_pattern_templates
unfoldable pub template_needs : List (String × List String) → List Need
template_needs [] = []
template_needs ((header, templates) ∷ others) =
    map (template_need header) templates ++ template_needs others

-- A header, with the last line that needs it and what is found there.
abbrev pub Required : Type 0
Required = List (Text × (ℕ × Text))

-- required[header] = (linenum, template)
unfoldable pub require : Text → ℕ → Text → Required → Required
require header linenum template [] = (header, (linenum, template)) ∷ []
require header linenum template ((h, place) ∷ rest) =
    let others = require header linenum template rest in
    if same h header then (h, (linenum, template)) ∷ rest else (h, place) ∷ others

-- The loop over the expressions, for a line
unfoldable pub require_all : Text → ℕ → List Need → Required → Required
unfolding require
require_all line linenum [] required = required
require_all line linenum (n ∷ needs) required =
    require_all line linenum needs
      (if searches n.pattern line then require n.header linenum n.template required else required)

-- _RE_PATTERN_STRING
abbrev string_re : Re
string_re = all_of (boundary ∷ lit (codes "string") ∷ boundary ∷ [])

-- A string that is not in a namespace other than std
unfoldable pub is_std_string : Text → Bool
is_std_string line = elim (search_re string_re line) [
  | none ↦ false
  | some h ↦ ends_with h.prefix (codes "std::") || not (ends_with h.prefix (codes "::"))
]

-- What a line needs.
unfoldable pub require_line : Text → ℕ → Required → Required
unfolding require_all is_std_string template_needs
require_line line linenum required =
    if same line [] || starts_with line (codes "#")
    then required
    else let with_string =
        if is_std_string line
        then require (codes "<string>") linenum (codes "string") required
        else required in
      let with_algorithm = require_all line linenum algorithm_needs with_string in
      if not (mem b'<' line)
      then with_algorithm
      else require_all line linenum (template_needs headers_containing_templates) with_algorithm

-- What the lines from that number on need.
unfoldable pub require_lines : List Text → ℕ → Required → Required
unfolding require_line
require_lines [] linenum required = required
require_lines (line ∷ lines) linenum required =
    require_lines lines (linenum + 1) (require_line line linenum required)

-- include_dict.setdefault(include, linenum)
unfoldable pub setdefault : Text → ℕ → List Entry → List Entry
setdefault include linenum d =
    if is_some (find_in include d) then d else d ++ (include, linenum) ∷ []

-- The loop of UpdateIncludeState, over the lines behind that number.
unfoldable pub update_from : List Text → ℕ → List Entry → List Entry
unfolding setdefault
update_from [] linenum d = d
update_from (line ∷ lines) linenum d =
    update_from lines (linenum + 1) (elim (search_re include_re (cleanse_comments line)) [
      | none ↦ d
      | some h ↦ setdefault (group_or_empty 2 h) (linenum + 1) d
    ])

-- [item for sublist in include_list for item in sublist]
unfoldable pub flatten : List (List Entry) → List Entry
flatten [] = []
flatten (l ∷ ls) = l ++ flatten ls

-- The file name without what flymake adds
abbrev pub without_flymake : Text → Text
without_flymake name =
    replace_all (all_of (lit (codes "_flymake.cc") ∷ eol ∷ [])) (λ _. codes ".cc") name

module _ (abspath : Text → Text) (header_lines : Text → Option (List Text))
    (header_keys : List Entry → List Text) (items : Required → Required) where
  -- UpdateIncludeState
  unfoldable pub update_include_state : Text → List Entry → List Entry × Bool
  unfolding update_from
  update_include_state filename d = elim (header_lines filename) [
    | none ↦ (d, false)
    | some lines ↦ (update_from lines 0 d, true)
  ]

  -- The loop over the headers that are included, and whether one is the header of the file.
  unfoldable pub update_all : Text → List Text → List Entry × Bool → List Entry × Bool
  unfolding update_include_state
  update_all abs_filename [] s = s
  update_all abs_filename (header ∷ headers) (d, header_found) =
      let (same_module, common_path) = files_belong_to_same_module abs_filename header in
      let (d', success) = update_include_state (common_path ++ header) d in
      update_all abs_filename headers
        (if same_module then (d', header_found || success) else (d, header_found))

  -- The reports for the headers that are needed and not included.
  unfoldable pub missing_events : Text → List Entry → Required → List Event
  missing_events filename d [] = []
  missing_events filename d ((header, (linenum, template)) ∷ required) =
      when (not (is_some (find_in (strip (λ x. mem x (codes "<>\"")) header) d))) (
        call filename linenum (codes "build/include_what_you_use") 4
          (codes "Add #include " ++ header ++ codes " for " ++ template))
      ++ missing_events filename d required

  -- CheckForIncludeWhatYouUse
  unfoldable pub check_for_include_what_you_use : Text → CleansedLines → IncludeState → List Event
  unfolding require_lines update_all missing_events flatten
  check_for_include_what_you_use filename clean_lines s =
      let include_dict = flatten (include_list s) in
      let abs_filename = without_flymake (full_name abspath (λ _. false) filename) in
      let (d, header_found) =
        update_all abs_filename (header_keys include_dict) (include_dict, false) in
      if ends_with filename (codes ".cc") && not header_found
      then []
      else missing_events filename d (items (require_lines clean_lines.elided 0 []))
