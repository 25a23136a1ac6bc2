-- ===== src/Lint/Outcomes.antt =====
-- What a step of the linter that may raise an exception gives, and how such steps follow one another.
-- `none` is the exception, and stands for a loop out of fuel too where the step has one.
use ringfile.Prelude.{
  ◌≡◌, refl, Bool, true, false, Option, none, some, List, ◌++◌, Text, if◌then◌else◌,
}
use mathlib.Core.Option
use mathlib.Core.Path.{subst}
use ringfile.Lint.Report.{Event}
use ringfile.Lint.Conditions.{IsSound, append-IsSound}

-- What is reported before the rest.
abbrev pub after {ℓ} : {A : Type ℓ} → List Event → Option (A × List Event) → Option (A × List Event)
after events none = none
after events (some (a, others)) = some (a, events ++ others)

-- The reports of a step without a state, before the rest
abbrev pub after_all {ℓ} :
    {A : Type ℓ} → Option (List Event) → Option (A × List Event) → Option (A × List Event)
after_all none rest = none
after_all (some events) rest = after events rest

-- A step, and the rest in the state that it leaves
abbrev pub and_then {ℓ κ} :
    {A : Type ℓ} {B : Type κ}
    → Option (A × List Event)
    → (A → Option (B × List Event))
    → Option (B × List Event)
and_then none f = none
and_then (some (a, events)) f = after events (f a)

-- An exception, or reports that are sound
unfoldable pub IsSoundOption : Text → Option (List Event) → Type 0
IsSoundOption filename none = Unit
IsSoundOption filename (some events) = IsSound filename events

-- An exception, or a state with reports that are sound
unfoldable pub IsSoundResult {ℓ} : {A : Type ℓ} → Text → Option (A × List Event) → Type 0
IsSoundResult filename none = Unit
IsSoundResult filename (some (a, events)) = IsSound filename events

module _ (filename : Text) where
  pub none-IsSoundOption : IsSoundOption filename none
  unfolding IsSoundOption
  none-IsSoundOption = tt

  pub some-IsSoundOption :
      (events : List Event) → IsSound filename events → IsSoundOption filename (some events)
  unfolding IsSoundOption
  some-IsSoundOption events h = h

  pub if-IsSoundOption :
      (b : Bool) (x y : Option (List Event))
      → IsSoundOption filename x
      → IsSoundOption filename y
      → IsSoundOption filename (if b then x else y)
  if-IsSoundOption true x y h k = h
  if-IsSoundOption false x y h k = k

  pub map-IsSoundOption {ℓ} :
      {A : Type ℓ} (f : A → List Event) (o : Option A)
      → ((a : A) → o ≡ some a → IsSound filename (f a))
      → IsSoundOption filename (Option.map f o)
  unfolding IsSoundOption
  map-IsSoundOption f none h = tt
  map-IsSoundOption f (some a) h = h a refl

  pub IsSoundOption-some :
      (o : Option (List Event)) {events : List Event}
      → IsSoundOption filename o
      → o ≡ some events
      → IsSound filename events
  unfolding IsSoundOption
  IsSoundOption-some o h e = subst (λ x. IsSoundOption filename x) e h

pub ruleset option_rules = (none-IsSoundOption, some-IsSoundOption, if-IsSoundOption)

module _ {ℓ} {A : Type ℓ} (filename : Text) where
  pub IsSoundResult-some :
      (o : Option (A × List Event)) {r : A × List Event}
      → IsSoundResult filename o
      → o ≡ some r
      → IsSound filename r.1
  unfolding IsSoundResult
  IsSoundResult-some o h e = subst (λ x. IsSoundResult filename x) e h

  pub some-IsSoundResult :
      (a : A) (events : List Event)
      → IsSound filename events
      → IsSoundResult filename (some (a, events))
  unfolding IsSoundResult
  some-IsSoundResult a events h = h

  pub pair-IsSoundResult :
      (r : A × List Event) → IsSound filename r.1 → IsSoundResult filename (some r)
  unfolding IsSoundResult
  pair-IsSoundResult r h = h

  pub if-IsSoundResult :
      (b : Bool) (x y : Option (A × List Event))
      → IsSoundResult filename x
      → IsSoundResult filename y
      → IsSoundResult filename (if b then x else y)
  if-IsSoundResult true x y h k = h
  if-IsSoundResult false x y h k = k

  pub after-IsSoundResult :
      (events : List Event) (r : Option (A × List Event))
      → IsSound filename events
      → IsSoundResult filename r
      → IsSoundResult filename (after events r)
  unfolding IsSoundResult
  after-IsSoundResult events none h k = tt
  after-IsSoundResult events (some (a, others)) h k = append-IsSound filename events others h k

  pub after_all-IsSoundResult :
      (o : Option (List Event)) (r : Option (A × List Event))
      → IsSoundOption filename o
      → IsSoundResult filename r
      → IsSoundResult filename (after_all o r)
  unfolding IsSoundResult IsSoundOption
  after_all-IsSoundResult none r h k = tt
  after_all-IsSoundResult (some events) r h k = after-IsSoundResult events r h k

pub and_then-IsSoundResult {ℓ κ} :
    {A : Type ℓ} {B : Type κ} (filename : Text) (r : Option (A × List Event))
    → (f : A → Option (B × List Event)) → IsSoundResult filename r
    → ((a : A) → IsSoundResult filename (f a))
    → IsSoundResult filename (and_then r f)
unfolding IsSoundResult
and_then-IsSoundResult filename none f h k = tt
and_then-IsSoundResult filename (some (a, events)) f h k =
    after-IsSoundResult filename events (f a) h (k a)

pub map-IsSoundResult {ℓ κ} :
    {A : Type ℓ} {B : Type κ} (filename : Text) (f : B → A × List Event) (o : Option B)
    → ((b : B) → IsSound filename (f b).1)
    → IsSoundResult filename (Option.map f o)
unfolding IsSoundResult
map-IsSoundResult filename f none h = tt
map-IsSoundResult filename f (some b) h = h b

pub ruleset result_rules = (
  option_rules, some-IsSoundResult, pair-IsSoundResult, if-IsSoundResult, after-IsSoundResult,
  after_all-IsSoundResult, and_then-IsSoundResult,
)
