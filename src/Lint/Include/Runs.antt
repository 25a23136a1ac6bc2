-- ===== src/Lint/Include/Runs.antt =====
-- Runs of the include state.
use ringfile.Prelude.{◌≡◌, refl, some, none, [], ◌∷◌, codes, same}
use ringfile.Prelude.Strings.{replace, lower, one_of}
use ringfile.Lint.Include.{
  init, add_header, reset_section, find_header, find_in_lists, find_in, include_list,
  canonicalize_alphabetical_order, check_next_include_order, c_sys_header, cpp_sys_header,
  error_message,
}
use ringfile.Prelude.{◌↔◌, ◌≤◌, ◌<◌, arith, List}
use ringfile.Lint.Include.{HeaderType, likely_my_header, other_header, IncludeState}
use ringfile.Lint.Include.Order.{
  init-Accepted, check_next_include_order_lem, Accepted, IsSortedFrom, drop_own, latest,
}
use ringfile.Lint.Include.Find.{find_header-add_header, find_header-reset_section}

find_test :
    find_header
      (codes "b.h")
      (add_header (codes "b.h") 5 (reset_section (codes "if") (add_header (codes "a.h") 2 init)))
    ≡ some 5
unfolding find_header find_in_lists find_in include_list add_header reset_section init same one_of
find_test = refl

canonical_test : canonicalize_alphabetical_order (codes "Foo/a-b-inl.h") ≡ codes "foo/a_b.h"
unfolding canonicalize_alphabetical_order lower replace
canonical_test = refl

order_test :
    (check_next_include_order c_sys_header (check_next_include_order cpp_sys_header init).0).1
    ≡ codes "Found C system header after C++ system header"
unfolding check_next_include_order init error_message
order_test = refl

abbrev header_types : List HeaderType
header_types = likely_my_header ∷ c_sys_header ∷ other_header ∷ cpp_sys_header ∷ []

init-Accepted_example : Accepted header_types init ↔ IsSortedFrom 0 (drop_own header_types)
init-Accepted_example = init-Accepted header_types

abbrev after_cpp : IncludeState
after_cpp = (check_next_include_order cpp_sys_header init).0

check_next_include_order_lem_example :
    (after_cpp.section ≤ (check_next_include_order c_sys_header after_cpp).0.section)
    × ((check_next_include_order c_sys_header after_cpp).0.section ≤ 4)
    × (((check_next_include_order c_sys_header after_cpp).1 ≡ [])
        ↔ (after_cpp.section ≤ latest c_sys_header))
    × (latest c_sys_header < after_cpp.section
        → (check_next_include_order c_sys_header after_cpp).0.section ≡ after_cpp.section)
unfolding check_next_include_order init
check_next_include_order_lem_example =
    check_next_include_order_lem c_sys_header after_cpp (omega arith)

find_header-add_header_test :
    find_header (codes "b.h") (add_header (codes "b.h") 5 (add_header (codes "a.h") 2 init))
    ≡ some 5
unfolding find_header find_in_lists find_in include_list add_header init same
find_header-add_header_test =
    find_header-add_header (codes "b.h") (codes "b.h") 5 (add_header (codes "a.h") 2 init)

find_header-reset_section_test :
    find_header
      (codes "b.h")
      (reset_section (codes "else") (add_header (codes "b.h") 5 (reset_section (codes "if") init)))
    ≡ none
unfolding find_header find_in_lists find_in include_list add_header reset_section init same one_of
find_header-reset_section_test =
    find_header-reset_section (codes "b.h") (codes "else")
      (add_header (codes "b.h") 5 (reset_section (codes "if") init))
