-- ===== src/Lint/Conditions.antt =====
-- The reports of a check of tools/cpplint.py under its conditions, and what holds of all of them.
use ringfile.Prelude.{
  ℕ, Text, ◌&&◌, leb, All-append, ◌≡◌, refl, Bool, true, false, Option, none, some, List, [], ◌∷◌,
  ◌++◌, if◌then◌else◌, All,
}
use ringfile.Lint.Report.{Event, report, suppress}
use ringfile.Lint.FileChecks.{call}
use ringfile.Lint.Nolint.{is_category}

-- error(...) under an if
abbrev pub when : Bool → Event → List Event
when true e = e ∷ []
when false e = []

-- What is reported of a match, where there is one.
abbrev pub on {ℓ} : {A : Type ℓ} → Option A → (A → List Event) → List Event
on none f = []
on (some a) f = f a

-- What is reported of a match, or else.
abbrev pub on_or {ℓ} : {A : Type ℓ} → Option A → (A → List Event) → List Event → List Event
on_or none f es = es
on_or (some a) f es = f a

module _ {ℓ} (P : Event → Type ℓ) where
  pub All-when : (b : Bool) (e : Event) → P e → All P (when b e)
  All-when true e h = (h, tt)
  All-when false e h = tt

  pub All-on {ℓ'} :
      {A : Type ℓ'} (o : Option A) (f : A → List Event) → ((a : A) → All P (f a)) → All P (on o f)
  All-on none f h = tt
  All-on (some a) f h = h a

  pub All-if : (b : Bool) (xs ys : List Event) → All P xs → All P ys → All P (if b then xs else ys)
  All-if true xs ys h k = h
  All-if false xs ys h k = k

-- A category that a NOLINT comment can name, and a confidence of 5 at most.
unfoldable pub is_sound : Text → ℕ → Bool
is_sound category confidence = is_category category && leb confidence 5

-- A report about the file; or what a comment suppresses, which is no report.
unfoldable pub IsSoundReport : Text → Event → Type 0
IsSoundReport filename (report r) =
    (r.filename ≡ filename) × (is_sound r.category r.confidence ≡ true)
IsSoundReport filename (suppress key line) = Unit

unfoldable pub IsSound : Text → List Event → Type 0
IsSound filename events = All (IsSoundReport filename) events

module _ (filename : Text) where
  pub none-IsSound : IsSound filename []
  unfolding IsSound
  none-IsSound = tt

  pub call-IsSound :
      (linenum confidence : ℕ) (category message : Text)
      → is_sound category confidence ≡ true
      → IsSoundReport filename (call filename linenum category confidence message)
  unfolding IsSoundReport
  call-IsSound linenum confidence category message h = (refl, h)

  pub cons-IsSound :
      (e : Event) (events : List Event)
      → IsSoundReport filename e
      → IsSound filename events
      → IsSound filename (e ∷ events)
  unfolding IsSound
  cons-IsSound e events h k = (h, k)

  pub when-IsSound : (b : Bool) (e : Event) → IsSoundReport filename e → IsSound filename (when b e)
  unfolding IsSound
  when-IsSound b e h = All-when (IsSoundReport filename) b e h

  pub on-IsSound {ℓ} :
      {A : Type ℓ} (o : Option A) (f : A → List Event)
      → ((a : A) → IsSound filename (f a))
      → IsSound filename (on o f)
  unfolding IsSound
  on-IsSound o f h = All-on (IsSoundReport filename) o f h

  pub on_or-IsSound {ℓ} :
      {A : Type ℓ} (o : Option A) (f : A → List Event) (es : List Event)
      → ((a : A) → IsSound filename (f a))
      → IsSound filename es
      → IsSound filename (on_or o f es)
  on_or-IsSound none f es h k = k
  on_or-IsSound (some a) f es h k = h a

  pub if-IsSound :
      (b : Bool) (xs ys : List Event)
      → IsSound filename xs
      → IsSound filename ys
      → IsSound filename (if b then xs else ys)
  unfolding IsSound
  if-IsSound b xs ys h k = All-if (IsSoundReport filename) b xs ys h k

  pub if_pair-IsSound {ℓ} :
      {A : Type ℓ} (b : Bool) (x y : A × List Event)
      → IsSound filename x.1
      → IsSound filename y.1
      → IsSound filename (if b then x else y).1
  if_pair-IsSound true x y h k = h
  if_pair-IsSound false x y h k = k

  pub if-IsSoundReport :
      (b : Bool) (x y : Event)
      → IsSoundReport filename x
      → IsSoundReport filename y
      → IsSoundReport filename (if b then x else y)
  if-IsSoundReport true x y h k = h
  if-IsSoundReport false x y h k = k

  pub append-IsSound :
      (xs ys : List Event) → IsSound filename xs → IsSound filename ys → IsSound filename (xs ++ ys)
  unfolding IsSound
  append-IsSound xs ys h k = All-append (IsSoundReport filename) xs ys h k

pub ruleset sound_rules = (
  none-IsSound, call-IsSound, cons-IsSound, when-IsSound, on-IsSound, on_or-IsSound, if-IsSound,
  if_pair-IsSound, if-IsSoundReport, append-IsSound,
)
