-- ===== src/Lint/Process/Config/Keeps.antt =====
-- ProcessConfigOverrides ends, and of the state of the linter it changes the filters only.
use ringfile.Prelude.{
  ℕ, zero, suc, ◌<◌, ◌≡◌, inl, inr, refl, sym, Bool, true, false, ◌&&◌, Option, List, [], ◌∷◌, Text,
  same, arith, length, Bool-cases, Option-cases, reverse, codes,
}
use mathlib.Core.Path.{subst}
use ringfile.Prelude.Strings.{strip, is_space}
use ringfile.Lint.State
use ringfile.Lint.State.{CppLintState, increment_error_count}
use ringfile.Lint.Report
use ringfile.Lint.Report.{
  Linter, Event, Report, report, suppress, perform, perform_one, error, should_print_error,
  print_error,
}
use ringfile.Lint.Paths.{path_split, path_join}
use ringfile.Lint.Paths.Laws.{length-path_split}
use ringfile.Lint.Process.Config.{
  returned, ◌>>=◌, Contents, Globals, Config, exclude, partition, config_line, config_lines,
  config_loop, apply_filters, process_config_overrides,
}
use ringfile.Lint.Process.Config.Ends.{
  Ends, Ends-bind, Ends-if, set_line_length-state, Contents-cases,
}

module _ {N : Type 0} (abspath : Text → Text) (int : Text → Option N)
    (match : Text → Text → Option Bool) (config_file : Text → Contents) where
  -- the configuration leaves the state of the linter alone, until the filters are added
  abbrev Untouched : CppLintState → (Globals N × Config) × Bool → Type 0
  Untouched s ((g, c), ok) = g.linter.state ≡ s

  exclude-Untouched :
      (filename cfg_file base_name val : Text) (g : Globals N) (c : Config)
      → Ends
          (Untouched g.linter.state)
          (exclude abspath int match config_file filename cfg_file base_name val (g, c))
  unfolding exclude
  exclude-Untouched filename cfg_file base_name val g c = elim (Bool-cases (same base_name [])) [
    | inl a ↦ rw a refl
    | inr a ↦ elim (Option-cases (match val base_name)) [
      | inl b ↦ rw (a, b) tt
      | inr (true, b) ↦ rw (a, b) refl
      | inr (false, b) ↦ rw (a, b) refl
    ]
  ]

  config_line-Untouched :
      (filename cfg_file base_name line : Text) (g : Globals N) (c : Config)
      → Ends
          (Untouched g.linter.state)
          (config_line abspath int match config_file filename cfg_file base_name line (g, c))
  unfolding config_line
  config_line-Untouched filename cfg_file base_name line g c =
      let name = strip is_space (partition b'=' (partition b'#' line).0).0 in
      let val = strip is_space (partition b'=' (partition b'#' line).0).1 in
      elim (Bool-cases (same (strip is_space (partition b'#' line).0) [])) [
        | inl a ↦ rw a refl
        | inr a ↦ elim (Bool-cases (same name (codes "set noparent"))) [
          | inl b ↦ rw (a, b) refl
          | inr b ↦ elim (Bool-cases (same name (codes "filter"))) [
            | inl d ↦ rw (a, b, d) refl
            | inr d ↦ elim (Bool-cases (same name (codes "exclude_files"))) [
              | inl e ↦ rw (a, b, d, e) (exclude-Untouched filename cfg_file base_name val g c)
              | inr e ↦ elim (Bool-cases (same name (codes "linelength"))) [
                | inl f ↦ rw (a, b, d, e, f) (set_line_length-state (int val) g)
                | inr f ↦ rw (a, b, d, e, f) refl
              ]
            ]
          ]
        ]
      ]

  config_lines-Untouched :
      (filename cfg_file base_name : Text) (lines : List Text) (g : Globals N) (c : Config)
      (s : CppLintState)
      → g.linter.state ≡ s
      → Ends
          (Untouched s)
          (config_lines abspath int match config_file filename cfg_file base_name lines (g, c))
  unfolding config_lines
  config_lines-Untouched filename cfg_file base_name [] g c s e = e
  config_lines-Untouched filename cfg_file base_name (line ∷ lines) g c s e =
      let on = config_lines abspath int match config_file filename cfg_file base_name lines in
      let first =
        config_line abspath int match config_file filename cfg_file base_name line (g, c) in
      let h =
        subst (λ t. Ends (Untouched t) first) e
          (config_line-Untouched filename cfg_file base_name line g c) in
      Ends-bind (Untouched s) (Untouched s) first _ h (λ ((g', c'), ok) k.
        Ends-if (Untouched s) ok (on (g', c')) (returned ((g', c'), false))
          (config_lines-Untouched filename cfg_file base_name lines g' c' s k) k)

  -- the loop ends, since every directory has a shorter path
  config_loop-Untouched :
      (fuel : ℕ) (filename path : Text) (g : Globals N) (c : Config) (s : CppLintState)
      → g.linter.state ≡ s
      → length path < fuel
      → Ends (Untouched s) (config_loop abspath int match config_file fuel filename path (g, c))
  unfolding config_loop
  config_loop-Untouched zero filename path g c s e h = absurd (omega (arith, h))
  config_loop-Untouched (suc fuel) filename path g c s e h =
      let abs_path = (path_split path).0 in
      let base_name = (path_split path).1 in
      let cfg_file = path_join abs_path (codes "CPPLINT.cfg") in
      let on = config_loop abspath int match config_file fuel filename abs_path in
      elim (Bool-cases (same base_name [])) [
        | inl a ↦ rw a e
        | inr a ↦
            let l = length-path_split path a in
            let next = λ (g' : Globals N) (c' : Config) (k : g'.linter.state ≡ s).
              config_loop-Untouched fuel filename abs_path g' c' s k (omega (arith, h, l)) in
            elim (Contents-cases (config_file cfg_file)) [
              | inl b ↦ rw (a, b) (next g c e)
              | inr (inl b) ↦ rw (a, b) e
              | inr (inr (lines, b)) ↦
                  rw (a, b)
                    (Ends-bind (Untouched s) (Untouched s)
                      (config_lines abspath int match config_file filename cfg_file base_name lines
                        (g, c))
                      _ (config_lines-Untouched filename cfg_file base_name lines g c s e)
                      (λ ((g', c'), ok) k.
                        Ends-if (Untouched s) (ok && c'.keep_looking) (on (g', c'))
                          (returned ((g', c'), ok)) (next g' c' k) k))
            ]
      ]

  -- a property of the state that does not depend on the filters
  module _ (P : CppLintState → Type 0)
      (keep : (s : CppLintState) (filters : List Text)
        → P s
        → P (record s { filters = filters })) where
    apply_filters-Keeps :
        (filters : List Text) (g : Globals N)
        → P g.linter.state
        → Ends
            (λ (g' : Globals N). P g'.linter.state)
            (apply_filters abspath int match config_file filters g)
    unfolding apply_filters Report.add_filters State.add_filters
    apply_filters-Keeps [] g h = h
    apply_filters-Keeps (f ∷ filters) g h =
        let l = (Report.add_filters f g.linter).0 in
        let ih = apply_filters-Keeps filters (record g { linter = l }) (keep g.linter.state _ h) in
        elim (Option-cases (Report.add_filters f g.linter).1) [
          | inl n ↦ rw (n, apply_filters) ih
          | inr (t, n) ↦ rw (n, apply_filters) tt
        ]

    pub process_config_overrides-Keeps :
        (filename : Text) (g : Globals N)
        → P g.linter.state
        → Ends
            (λ ((g', ok) : Globals N × Bool). P g'.linter.state)
            (process_config_overrides abspath int match config_file filename g)
    unfolding process_config_overrides
    process_config_overrides-Keeps filename g h =
        let path = abspath filename in
        let start : Config = record { cfg_filters = []; keep_looking = true } in
        let Q : Globals N × Bool → Type 0 = λ (g', ok). P g'.linter.state in
        Ends-bind (Untouched g.linter.state) Q
          (config_loop abspath int match config_file (suc (length path)) filename path (g, start)) _
          (config_loop-Untouched (suc (length path)) filename path g start g.linter.state refl
            (omega arith))
          (λ ((g', c'), ok) k.
            let k' = subst P (sym k) h in
            Ends-if Q ok
              (apply_filters abspath int match config_file (reverse c'.cfg_filters) g' >>= λ g''.
                returned (g'', true))
              (returned (g', false))
              (Ends-bind (λ (g'' : Globals N). P g''.linter.state) Q
                (apply_filters abspath int match config_file (reverse c'.cfg_filters) g') _
                (apply_filters-Keeps (reverse c'.cfg_filters) g' k') (λ g'' k''. k''))
              k')
