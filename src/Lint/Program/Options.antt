-- ===== src/Lint/Program/Options.antt =====
-- What ParseArguments lets through.
use ringfile.Prelude.{
  ℕ, ◌≡◌, ◌⊎◌, ◌++◌, inl, inr, refl, arith, All, Bool, true, false, Bool-cases, Option-cases,
  Option, none, some, List, [], ◌∷◌, Text, same, codes, if◌then◌else◌,
}
use ringfile.Prelude.Strings.{one_of}
use mathlib.Core.Path.{subst}
use ringfile.Lint.State
use ringfile.Lint.State.{CppLintState}
use ringfile.Lint.State.Filters.{IsSigned, signed_of_none}
use ringfile.Lint.Report
use ringfile.Lint.Process.Config.{Globals}
use ringfile.Lint.Program.{
  Exit, usage, categories, uncaught, endless, status, Parsed, parsed, exits, Arguments, number_or,
  parse_option, parse_options, set_arguments, parse_arguments, arguments_of, no_files,
}

-- What a parse gives has a property, and a program that it ends has another.
unfoldable pub Gives {ℓ} : {A : Type ℓ} → (A → Type 0) → (Exit → Type 0) → Parsed A → Type 0
Gives P Q (parsed a) = P a
Gives P Q (exits e) = Q e

module _ {ℓ} {A : Type ℓ} (P : A → Type 0) (Q : Exit → Type 0) where
  parsed-Gives : (a : A) → P a → Gives P Q (parsed a)
  unfolding Gives
  parsed-Gives a h = h

  exits-Gives : (e : Exit) → Q e → Gives P Q (exits e)
  unfolding Gives
  exits-Gives e h = h

  if-Gives :
      (b : Bool) (x y : Parsed A)
      → (b ≡ true → Gives P Q x)
      → (b ≡ false → Gives P Q y)
      → Gives P Q (if b then x else y)
  if-Gives true x y h k = h refl
  if-Gives false x y h k = k refl

  number_or-Gives :
      (e : Exit) (o : Option ℕ) (f : ℕ → A)
      → Q e
      → ((n : ℕ) → P (f n))
      → Gives P Q (number_or e o f)
  unfolding Gives
  number_or-Gives e none f h k = h
  number_or-Gives e (some n) f h k = k n

pub Parsed-cases {ℓ} :
    {A : Type ℓ} (p : Parsed A) → ((a : A) × (p ≡ parsed a)) ⊎ ((e : Exit) × (p ≡ exits e))
Parsed-cases (parsed a) = inl (a, refl)
Parsed-cases (exits e) = inr (e, refl)

-- The output format and the counting style are ones that the program knows; an empty counting style
-- counts nothing by category.
pub record IsKnown (a : Arguments) : Type 0 where
  pub output_format :
      one_of a.output_format (codes "emacs" ∷ codes "vs7" ∷ codes "eclipse" ∷ []) ≡ true
  pub counting_style :
      one_of a.counting_style ([] ∷ codes "total" ∷ codes "toplevel" ∷ codes "detailed" ∷ []) ≡ true

-- What main goes on with: files to look at, settings that the program knows, and filters that the loop of
-- _ShouldPrintError accepts.
pub record IsReady (filenames : List Text) (s : CppLintState) : Type 0 where
  pub filenames_given : no_files filenames ≡ false
  pub output_format :
      one_of s.output_format (codes "emacs" ∷ codes "vs7" ∷ codes "eclipse" ∷ []) ≡ true
  pub counting :
      one_of s.counting ([] ∷ codes "total" ∷ codes "toplevel" ∷ codes "detailed" ∷ []) ≡ true
  pub filters : All IsSigned s.filters

-- ParseArguments ends the program with a usage message, the categories or an exception.
unfoldable pub IsRefusal : Exit → Type 0
IsRefusal (usage message) = Unit
IsRefusal categories = Unit
IsRefusal uncaught = Unit
IsRefusal endless = ⊥
IsRefusal (status b l) = ⊥

one_of-cons : (val t : Text) (ts : List Text) → one_of val ts ≡ true → one_of val (t ∷ ts) ≡ true
unfolding one_of
one_of-cons val t ts h = ground arith

-- from the two tests
known :
    (a : Arguments)
    → one_of a.output_format (codes "emacs" ∷ codes "vs7" ∷ codes "eclipse" ∷ []) ≡ true
    → one_of a.counting_style ([] ∷ codes "total" ∷ codes "toplevel" ∷ codes "detailed" ∷ []) ≡ true
    → IsKnown a
known a h k = record { output_format = h; counting_style = k }

module _ (int : Text → Option ℕ) where
  parse_option-Gives :
      (opt val : Text) (a : Arguments)
      → IsKnown a
      → Gives IsKnown IsRefusal (parse_option int opt val a)
  unfolding parse_option IsRefusal
  parse_option-Gives opt val a h =
      search (parsed-Gives, exits-Gives, if-Gives, number_or-Gives, known, one_of-cons) depth 20

  parse_options-Gives :
      (opts : List (Text × Text)) (a : Arguments)
      → IsKnown a
      → Gives IsKnown IsRefusal (parse_options int opts a)
  unfolding parse_options Gives
  parse_options-Gives [] a h = h
  parse_options-Gives ((opt, val) ∷ opts) a h = elim (Parsed-cases (parse_option int opt val a)) [
    | inl (a', e) ↦
        rw (parse_options, e)
          (parse_options-Gives opts a'
            (subst (Gives IsKnown IsRefusal) e (parse_option-Gives opt val a h)))
    | inr (x, e) ↦
        rw (parse_options, e) (subst (Gives IsKnown IsRefusal) e (parse_option-Gives opt val a h))
  ]

  set_arguments-Gives :
      (a : Arguments) (g : Globals ℕ) (filenames : List Text)
      → no_files filenames ≡ false
      → IsKnown a
      → Gives (λ g'. IsReady filenames g'.linter.state) IsRefusal (set_arguments int a g)
  unfolding set_arguments Gives IsRefusal Report.set_output_format Report.set_filters
      Report.set_verbose_level Report.set_counting_style State.set_output_format State.set_filters
      State.set_verbose_level State.set_counting_style State.add_filters
  set_arguments-Gives a g filenames n h =
      let fs = State.default_filters ++ State.clean_filters a.filters in
      elim (Option-cases (State.first_unsigned fs)) [
        | inl e ↦
            rw (set_arguments, e)
              (record {
                filenames_given = n;
                output_format = h.output_format;
                counting = h.counting_style;
                filters = signed_of_none fs e;
              })
        | inr (t, e) ↦ rw (set_arguments, e) tt
      ]

  -- From globals with a known output format, ParseArguments ends the program with a usage message, the
  -- categories or an exception, or it gives the names of one file at least, an output format and a
  -- counting style that the program knows, and filters that all begin with + or -.
  pub parse_arguments-IsReady :
      (options : Option (List (Text × Text) × List Text)) (root : Option Text) (g : Globals ℕ)
      → one_of g.linter.state.output_format (codes "emacs" ∷ codes "vs7" ∷ codes "eclipse" ∷ [])
        ≡ true
      → Gives
          (λ (filenames, root', g'). IsReady filenames g'.linter.state)
          IsRefusal
          (parse_arguments int options root g)
  unfolding parse_arguments Gives IsRefusal arguments_of one_of same
  parse_arguments-IsReady none root g h = tt
  parse_arguments-IsReady (some (opts, filenames)) root g h =
      let start = arguments_of int root g in
      let before = parse_options-Gives opts start (known start h refl) in
      elim (Parsed-cases (parse_options int opts start)) [
        | inr (x, e) ↦ rw (parse_arguments, e) (subst (Gives IsKnown IsRefusal) e before)
        | inl (a, e) ↦ elim (Bool-cases (no_files filenames)) [
          | inl n ↦ rw (parse_arguments, e, n) tt
          | inr n ↦
              let P = Gives (λ (g' : Globals ℕ). IsReady filenames g'.linter.state) IsRefusal in
              let after =
                set_arguments-Gives a g filenames n (subst (Gives IsKnown IsRefusal) e before) in
              elim (Parsed-cases (set_arguments int a g)) [
                | inl (g', m) ↦ rw (parse_arguments, e, n, m) (subst P m after)
                | inr (x, m) ↦ rw (parse_arguments, e, n, m) (subst P m after)
              ]
        ]
      ]
