-- ===== src/Lint/FileName.antt =====
-- class FileInfo of tools/cpplint.py, and the functions on the names of files and headers.
--
-- What the file system says is a parameter: `abspath` is os.path.abspath and `exists` os.path.exists.
pub mod Laws
pub mod Headers
mod Runs
use ringfile.Prelude.{
  ℕ, zero, suc, ◌+◌, Bool, true, false, not, ◌&&◌, ◌||◌, ◌==◌, Option, none, some, List, [], ◌∷◌,
  ◌++◌, Text, if◌then◌else◌, codes, reverse, length, drop, map, same,
}
use ringfile.Prelude.Strings.{replace, one_of, ends_with, starts_with}
use ringfile.Lint.Paths.{
  path_split, dirname, splitext, path_join, common_prefix, join_slash, normpath,
}
use ringfile.Lint.Regex.{Re, match_re, Hit, not_in, plus, all_of, bol}
use ringfile.Lint.Include.{
  HeaderType, c_sys_header, cpp_sys_header, likely_my_header, possible_my_header, other_header,
}
use Headers.{cpp_headers}

module _ (abspath : Text → Text) (exists : Text → Bool) where
  -- FullName
  unfoldable pub full_name : Text → Text
  full_name filename = replace (abspath filename) (codes "\\") (codes "/")

  -- The directory has an entry of that name.
  unfoldable pub has : Text → Text → Bool
  has dir name = exists (path_join dir name)

  -- `while exists(one_up_dir/.svn)`, from the pair of root_dir and one_up_dir; `none` means that the
  -- fuel ran out.
  unfoldable pub svn_root : ℕ → Text → Text → Option Text
  svn_root zero root one_up = none
  svn_root (suc fuel) root one_up = elim (has one_up (codes ".svn")) [
    | true ↦ svn_root fuel (dirname root) (dirname one_up)
    | false ↦ some root
  ]

  unfoldable pub is_checkout : Text → Bool
  is_checkout dir = has dir (codes ".git") || has dir (codes ".hg") || has dir (codes ".svn")

  -- The search upwards for a checkout, which ends at the top directory.
  unfoldable pub checkout_root : ℕ → Text → Option Text
  checkout_root zero root = none
  checkout_root (suc fuel) root = elim (not (same root (dirname root)) && not (is_checkout root)) [
    | true ↦ checkout_root fuel (dirname root)
    | false ↦ some root
  ]

  unfoldable pub below : Text → Text → Text
  below root fullname = drop (length (common_prefix root (dirname fullname)) + 1) fullname

  -- RepositoryName; `none` is a loop that does not end within the fuel.
  unfoldable pub repository_name : ℕ → Text → Option Text
  unfolding full_name svn_root checkout_root below
  repository_name fuel filename =
      let fullname = full_name filename in
      let project_dir = dirname fullname in
      if not (exists fullname)
      then some fullname
      else if has project_dir (codes ".svn")
      then elim (svn_root fuel project_dir (dirname project_dir)) [
        | none ↦ none
        | some root ↦ some (below root fullname)
      ]
      else elim (checkout_root fuel project_dir) [
        | none ↦ none
        | some root ↦ some (if is_checkout root then below root fullname else fullname)
      ]

-- Split, of the name that RepositoryName gives: directory, base name and extension.
unfoldable pub split : Text → Text × Text × Text
split name =
    let (project, rest) = path_split name in let (base, ext) = splitext rest in (project, base, ext)

unfoldable pub base_name : Text → Text
unfolding split
base_name name = (split name).1

unfoldable pub extension : Text → Text
unfolding split
extension name = (split name).2

unfoldable pub no_extension : Text → Text
unfolding split
no_extension name = let (project, base, ext) = split name in project ++ b'/' ∷ base

abbrev pub source_extensions : List Text
source_extensions = codes "c" ∷ codes "cc" ∷ codes "cpp" ∷ codes "cxx" ∷ []

unfoldable pub is_source : Text → Bool
unfolding extension
is_source name = one_of (drop 1 (extension name)) source_extensions

-- filename[:-len(suffix) - 1], if filename ends in - or _ and the suffix. The filename is reversed.
unfoldable pub cut_suffix : Text → Text → Option Text
cut_suffix r suffix = elim (drop (length suffix) r) [
  | [] ↦ none
  | c ∷ rest ↦
      if starts_with r (reverse suffix) && (c == b'-' || c == b'_')
      then some (reverse rest)
      else none
]

unfoldable pub first_cut : Text → List Text → Option Text
unfolding cut_suffix
first_cut r [] = none
first_cut r (s ∷ ss) = elim (cut_suffix r s) [ some t ↦ some t | none ↦ first_cut r ss ]

abbrev pub common_suffixes : List Text
common_suffixes =
    codes "test.cc"
    ∷ codes "regtest.cc"
    ∷ codes "unittest.cc"
    ∷ codes "inl.h"
    ∷ codes "impl.h"
    ∷ codes "internal.h"
    ∷ []

unfoldable pub drop_common_suffixes : Text → Text
drop_common_suffixes filename = elim (first_cut (reverse filename) common_suffixes) [
  | some r ↦ r
  | none ↦ (splitext filename).0
]

unfoldable pub is_test_filename : Text → Bool
is_test_filename filename =
    ends_with filename (codes "_test.cc")
    || ends_with filename (codes "_unittest.cc")
    || ends_with filename (codes "_regtest.cc")

-- r'^[^-_.]+'
abbrev pub first_component_re : Re
first_component_re = all_of (bol ∷ plus (not_in (codes "-_.")) ∷ [])

unfoldable pub same_first_component : Text → Text → Bool
same_first_component s t = elim (match_re first_component_re s) [
  | none ↦ false
  | some g ↦ elim (match_re first_component_re t) [ none ↦ false | some h ↦ same g.whole h.whole ]
]

-- _ClassifyInclude, for the file with that RepositoryName
unfoldable pub classify_include : Text → Text → Bool → HeaderType
unfolding same_first_component
classify_include repository_name include is_system =
    let is_cpp_h = one_of include (map codes cpp_headers) in
    let (target_dir, target_base) = path_split (drop_common_suffixes repository_name) in
    let (include_dir, include_base) = path_split (drop_common_suffixes include) in
    if is_system
    then (if is_cpp_h then cpp_sys_header else c_sys_header)
    else if same target_base include_base
        && (same include_dir target_dir
            || same include_dir (normpath (target_dir ++ codes "/../public")))
    then likely_my_header
    else if same_first_component target_base include_base
    then possible_my_header
    else other_header

-- filename[:-len(suffix)]
unfoldable pub without_end : Text → Text → Text
without_end s suffix = reverse (drop (length suffix) (reverse s))

unfoldable pub one_module : Text → Text
one_module s = replace (replace s (codes "/public/") (codes "/")) (codes "/internal/") (codes "/")

-- the stem of a name without .cc, without the ending of a test and the directories of one module
unfoldable pub source_stem : Text → Text
unfolding without_end one_module
source_stem s = one_module (
    if ends_with s (codes "_unittest")
    then without_end s (codes "_unittest")
    else if ends_with s (codes "_test")
    then without_end s (codes "_test")
    else s)

unfoldable pub header_stem : Text → Text
unfolding without_end one_module
header_stem s = one_module (if ends_with s (codes "-inl") then without_end s (codes "-inl") else s)

-- s[:-len(t)], which is empty for an empty t
unfoldable pub up_to_end : Text → Text → Text
up_to_end s t = if same t [] then [] else without_end s t

unfoldable pub files_belong_to_same_module : Text → Text → Bool × Text
files_belong_to_same_module filename_cc filename_h =
    let cc_stem = source_stem (without_end filename_cc (codes ".cc")) in
    let h_stem = header_stem (without_end filename_h (codes ".h")) in
    if not (ends_with filename_cc (codes ".cc"))
    then (false, [])
    else if not (ends_with filename_h (codes ".h"))
    then (false, [])
    else if ends_with cc_stem h_stem
    then (true, up_to_end cc_stem h_stem)
    else (false, [])
