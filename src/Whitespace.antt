-- ===== src/Whitespace.antt =====
-- FixWhitespace of tools/fixwhitespace.py, between the reading of a file's lines and their writing:
-- each line with its newline. The file is written back whether or not a line changed.
pub mod Twice
mod Runs
use ringfile.Prelude.{
  ℕ, ◌+◌, Bool, true, false, List, [], ◌∷◌, ◌++◌, Text, same, codes, reverse, if◌then◌else◌,
}
use ringfile.Prelude.Strings.{is_space, rstrip, decimal}

unfoldable pub take_while : (ℕ → Bool) → Text → Text
take_while p [] = []
take_while p (x ∷ s) = if p x then x ∷ take_while p s else []

-- The group of re.search("(\s*)$", line): all white space at the end.
unfoldable pub trailing_whitespace : Text → Text
unfolding take_while
trailing_whitespace line = reverse (take_while is_space (reverse line))

-- re.sub("(\s*)$", "\n", line), for a line that does not end in a single newline alone
unfoldable pub fix_line : Text → Text
fix_line line =
    if same (trailing_whitespace line) (codes "\n")
    then line
    else rstrip is_space line ++ codes "\n"

-- What is printed for the line with the number i; `repr` is Python's %r.
unfoldable pub line_message : (Text → Text) → Text → ℕ → Text → List Text
line_message repr path i line =
    if same (trailing_whitespace line) (codes "\n")
    then []
    else (path
        ++ codes "("
        ++ decimal i
        ++ codes "): incorrect line ending: "
        ++ repr (trailing_whitespace line)
        ++ codes "\n")
      ∷ []

-- The lines and the messages, for lines whose first has the number i.
unfoldable pub fix_from : (Text → Text) → Text → ℕ → List Text → List Text × List Text
unfolding fix_line line_message
fix_from repr path i [] = ([], [])
fix_from repr path i (l ∷ ls) =
    let (fixed, messages) = fix_from repr path (i + 1) ls in
    (fix_line l ∷ fixed, line_message repr path i l ++ messages)

unfoldable pub fix_whitespace : (Text → Text) → Text → List Text → List Text × List Text
unfolding fix_from
fix_whitespace repr path lines = fix_from repr path 0 lines
