-- ===== src/Lint/FileName/Runs.antt =====
-- Runs of the functions on file names.
use ringfile.Prelude.{◌≡◌, refl, codes, true, false, same, starts_with}
use ringfile.Prelude.Strings.{replace, rstrip, ends_with, one_of}
use ringfile.Lint.Paths.{path_split, splitext}
use ringfile.Lint.Include.{likely_my_header, cpp_sys_header}
use ringfile.Lint.FileName.{
  first_cut, split, drop_common_suffixes, classify_include, files_belong_to_same_module,
}
use ringfile.Lint.FileName.Headers.{cpp_headers}
use ringfile.Prelude.{All, ◌++◌, ◌∷◌, [], ◌≢◌}
use ringfile.Lint.FileName.{common_suffixes, up_to_end, header_stem, source_stem, without_end}
use ringfile.Lint.FileName.Laws.{drop_common_suffixes-append, files_belong-append}

split_test :
    split (codes "chrome/browser/browser.cc")
    ≡ (codes "chrome/browser", codes "browser", codes ".cc")
unfolding split path_split splitext rstrip
split_test = refl

drop_test :
    drop_common_suffixes (codes "foo/foo_unusualinternal.h") ≡ codes "foo/foo_unusualinternal"
unfolding drop_common_suffixes first_cut splitext starts_with
drop_test = refl

likely_test : classify_include (codes "foo/foo.cc") (codes "foo/foo.h") false ≡ likely_my_header
unfolding classify_include drop_common_suffixes first_cut splitext path_split starts_with same
    rstrip
likely_test = refl

system_test : classify_include (codes "foo/foo.cc") (codes "string") true ≡ cpp_sys_header
unfolding classify_include drop_common_suffixes first_cut splitext path_split starts_with same
    one_of cpp_headers
system_test = refl

drop_common_suffixes-append_test :
    All
      (λ suffix. drop_common_suffixes (codes "foo/bar" ++ b'_' ∷ suffix) ≡ codes "foo/bar")
      common_suffixes
drop_common_suffixes-append_test = drop_common_suffixes-append (codes "foo/bar") b'_' refl

belong_test :
    files_belong_to_same_module (codes "/a/foo/bar_test.cc") (codes "foo/bar.h")
    ≡ (true, codes "/a/")
unfolding files_belong_to_same_module up_to_end replace ends_with source_stem header_stem
    without_end starts_with same
belong_test = refl

header_test : header_stem (without_end (codes "foo/bar.h") (codes ".h")) ≢ []
unfolding replace ends_with header_stem without_end starts_with same
header_test = λ h. cc

files_belong-append_example :
    codes "/a/" ++ header_stem (without_end (codes "foo/bar.h") (codes ".h"))
    ≡ source_stem (without_end (codes "/a/foo/bar_test.cc") (codes ".cc"))
files_belong-append_example =
    files_belong-append (codes "/a/foo/bar_test.cc") (codes "foo/bar.h") (codes "/a/") header_test
      belong_test
