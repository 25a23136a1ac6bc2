-- ===== src/Lint/Nesting/Sound.antt =====
-- What NestingState.Update and the checks around it report.
use ringfile.Prelude.{ℕ, Option, none, some, Text, List, [], ◌∷◌, same}
use ringfile.Prelude.Strings.{one_of}
use ringfile.Lint.Categories.{error_categories}
use ringfile.Lint.Regex.{Hit}
use ringfile.Lint.Nolint.{is_category}
use ringfile.Lint.Cleanse.{CleansedLines}
use ringfile.Lint.Conditions.{IsSound, is_sound, sound_rules}
use ringfile.Lint.Nesting.Block.{
  Block, BlockKind, block_info, extern_c_info, class_info, namespace_info, ClassInfo, NamespaceInfo,
}
use ringfile.Lint.Nesting.Ends.{check_class_end, check_namespace_end, check_end}
use ringfile.Lint.Nesting.Stack.{Nesting, uncompleted, check_completed_blocks}
use ringfile.Lint.Nesting.Update.{
  class_access, kind_access, update_access, close_brace, at_token, at_character, consume,
  update_blocks,
}
use ringfile.Lint.Nesting.Indentation.{
  check_item_indentation_in_namespace, check_for_namespace_indentation,
}

module _ (filename : Text) (clean_lines : CleansedLines) (linenum : ℕ) where
  class_end-IsSound :
      (c : ClassInfo) → IsSound filename (check_class_end filename clean_lines linenum c)
  unfolding check_class_end is_sound is_category one_of error_categories same
  class_end-IsSound c = search sound_rules depth 12

  namespace_end-IsSound :
      (n : NamespaceInfo) → IsSound filename (check_namespace_end filename clean_lines linenum n)
  unfolding check_namespace_end is_sound is_category one_of error_categories same
  namespace_end-IsSound n = search sound_rules depth 12

  end-IsSound : (k : BlockKind) → IsSound filename (check_end filename clean_lines linenum k)
  unfolding check_end
  end-IsSound block_info = search sound_rules
  end-IsSound extern_c_info = search sound_rules
  end-IsSound (class_info c) = class_end-IsSound c
  end-IsSound (namespace_info n) = namespace_end-IsSound n

  class_access-IsSound :
      (o : Option Hit) (c : ClassInfo) → IsSound filename (class_access filename linenum o c).1
  unfolding class_access is_sound is_category one_of error_categories same
  class_access-IsSound none c = search sound_rules
  class_access-IsSound (some h) c = search sound_rules depth 12

  kind-IsSound :
      (line : Text) (k : BlockKind) → IsSound filename (kind_access filename linenum line k).1
  unfolding kind_access
  kind-IsSound line block_info = search sound_rules
  kind-IsSound line extern_c_info = search sound_rules
  kind-IsSound line (namespace_info n) = search sound_rules
  kind-IsSound line (class_info c) = class_access-IsSound _ c

  access-IsSound :
      (line : Text) (st : List Block) → IsSound filename (update_access filename linenum line st).1
  unfolding update_access
  access-IsSound line [] = search sound_rules
  access-IsSound line (b ∷ st) = kind-IsSound line b.kind

  close-IsSound :
      (st : List Block) → IsSound filename (close_brace filename clean_lines linenum st).1
  unfolding close_brace
  close-IsSound [] = search sound_rules
  close-IsSound (b ∷ st) = end-IsSound b.kind

  token-IsSound :
      (line : Text) (c : ℕ) (s : Nesting)
      → IsSound filename (at_character filename clean_lines linenum line c s).1
  unfolding at_character at_token
  token-IsSound line c s = search (sound_rules, close-IsSound) depth 12

  consume-IsSound :
      (line text : Text) (s : Nesting)
      → IsSound filename (consume filename clean_lines linenum line text s).1
  unfolding consume
  consume-IsSound line [] s = search sound_rules
  consume-IsSound line (c ∷ text) s =
      let recurse = λ (l : Text) (s' : Nesting). consume-IsSound l text s' in
      search (sound_rules, token-IsSound, recurse) depth 6

  pub blocks-IsSound :
      (line : Text) (s : Nesting)
      → IsSound filename (update_blocks filename clean_lines linenum line s).1
  unfolding update_blocks
  blocks-IsSound line s = search (sound_rules, access-IsSound, consume-IsSound) depth 6

  pub indentation-IsSound :
      (s : Nesting)
      → IsSound filename (check_for_namespace_indentation filename s clean_lines linenum)
  unfolding check_for_namespace_indentation check_item_indentation_in_namespace is_sound is_category
      one_of error_categories same
  indentation-IsSound s = search sound_rules depth 8

uncompleted-IsSound : (filename : Text) (k : BlockKind) → IsSound filename (uncompleted filename k)
unfolding uncompleted is_sound is_category one_of error_categories same
uncompleted-IsSound filename block_info = search sound_rules
uncompleted-IsSound filename extern_c_info = search sound_rules
uncompleted-IsSound filename (class_info c) = search sound_rules
uncompleted-IsSound filename (namespace_info n) = search sound_rules

pub completed-IsSound :
    (filename : Text) (st : List Block) → IsSound filename (check_completed_blocks filename st)
unfolding check_completed_blocks
completed-IsSound filename [] = search sound_rules
completed-IsSound filename (b ∷ st) =
    let above = completed-IsSound filename st in search (sound_rules, above, uncompleted-IsSound)
