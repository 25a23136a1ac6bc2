-- ===== src/Command/Parse/Runs.antt =====
-- Runs of the parsing of the command line.
use ringfile.Prelude.{
  ℕ, ◌≡◌, refl, true, false, Option, none, some, [], ◌∷◌, Text, codes, same, if◌then◌else◌,
}
use ringfile.Storage.{done, stuck}
use ringfile.Command.Parse.{
  mode_unspecified, mode_append, is_unspecified, Opt, Settings, scaled, parse, command_main,
}
use ringfile.Command.Parse.Ready.{has_help, last_size, parse-IsReady}

abbrev start : Settings
start = record { mode = mode_unspecified; verbose = false; size = none; path = []; stderr = [] }

abbrev append : Opt
append = record { option = b'a'; optarg = [] }

abbrev two_kb : Opt
two_kb = record { option = b's'; optarg = codes "2k" }

abbrev help : Opt
help = record { option = b'h'; optarg = [] }

abbrev strtol : Text → Option (ℕ × Text)
strtol t = if same t (codes "2k") then some (2, codes "k") else none

-- ringfile -a -s 2k a.ring
abbrev ready : Settings
ready = record {
  mode = mode_append;
  verbose = false;
  size = some 2048;
  path = codes "a.ring";
  stderr = [];
}

parse_test :
    parse strtol (codes "ringfile") (append ∷ two_kb ∷ []) (codes "a.ring" ∷ []) start
    ≡ done (ready, true)
unfolding parse same
parse_test = refl

no_help_test : has_help (append ∷ two_kb ∷ []) ≡ false
unfolding has_help
no_help_test = refl

-- 2 ^ 63 - 1 times 1024 wraps.
wrap_test :
    scaled [] 9223372036854775807 (some 1024) start
    ≡ done (record start { size = some 18446744073709550592 }, none)
wrap_test = refl

parse-IsReady_example :
    (is_unspecified ready.mode ≡ false)
    × (ready.size ≡ last_size strtol (append ∷ two_kb ∷ []) none)
    × (codes "a.ring" ∷ [] ≡ ready.path ∷ [])
parse-IsReady_example =
    parse-IsReady strtol (codes "ringfile") (append ∷ two_kb ∷ []) (codes "a.ring" ∷ []) start ready
      no_help_test parse_test

-- -h leaves no mode for Main
help_test : command_main strtol 0 (λ p. none) (codes "ringfile") (help ∷ []) [] [] ≡ stuck
unfolding command_main
help_test = refl
