-- ===== src/Lint/Process/Config/Ends.antt =====
-- How a function ends, and what errors and suppressions leave alone.
use ringfile.Prelude.{
  ◌≡◌, ◌⊎◌, inl, inr, refl, sym, ap, ◌∙◌, Bool, true, false, Option, none, some, List, [], ◌∷◌,
  Text, codes, same, Option-cases, some_eq, if◌then◌else◌,
}
use ringfile.Lint.State.{increment_error_count}
use ringfile.Lint.Report.{
  Linter, Event, report, suppress, perform, perform_one, error, should_print_error, print_error,
}
use ringfile.Lint.Process.Config.{
  Ending, returned, raised, unfinished, ◌>>=◌, Contents, Globals, set_line_length, perform_all,
  text_lines, no_file, unreadable, or_unfinished,
}

-- The function does not run forever, and what it returns has a property.
abbrev pub Ends {ℓ} : {A : Type ℓ} → (A → Type 0) → Ending A → Type 0
Ends P (returned a) = P a
Ends P raised = Unit {0}
Ends P unfinished = ⊥

pub Ends-bind {ℓ κ} :
    {A : Type ℓ} {B : Type κ} (P : A → Type 0) (Q : B → Type 0) (e : Ending A) (k : A → Ending B)
    → Ends P e
    → ((a : A) → P a → Ends Q (k a))
    → Ends Q (e >>= k)
Ends-bind P Q (returned a) k h f = f a h
Ends-bind P Q raised k h f = tt
Ends-bind P Q unfinished k h f = elim h [ ]

pub Ends-if {ℓ} :
    {A : Type ℓ} (P : A → Type 0) (b : Bool) (x y : Ending A)
    → Ends P x
    → Ends P y
    → Ends P (if b then x else y)
Ends-if P true x y h k = h
Ends-if P false x y h k = k

-- the variable of the header guard, where there is one
pub variable-Ends :
    (extension : Text) (o : Option Text)
    → (v : Text) × (o ≡ some v)
    → Ends (λ _. Unit) (if same extension (codes "h") then or_unfinished o else returned [])
variable-Ends extension o (v, e) =
    Ends-if (λ _. Unit) (same extension (codes "h")) (or_unfinished o) (returned []) (rw e tt) tt

-- errors and suppressions leave the backup of the filters alone
perform_one-backup :
    (e : Event) (l l' : Linter)
    → perform_one e l ≡ some l'
    → l'.state.filters_backup ≡ l.state.filters_backup
unfolding perform_one error print_error increment_error_count
perform_one-backup (suppress key line) l l' e =
    ap (λ (k : Linter). k.state.filters_backup) (sym (some_eq e))
perform_one-backup (report r) l l' e =
    elim (Option-cases (should_print_error r.category r.confidence r.linenum l)) [
      | inl n ↦ cc (rw (n, error) at e)
      | inr (true, n) ↦
          ap (λ (k : Linter). k.state.filters_backup) (sym (some_eq (rw (n, error) at e)))
      | inr (false, n) ↦
          ap (λ (k : Linter). k.state.filters_backup) (sym (some_eq (rw (n, error) at e)))
    ]

perform-backup :
    (es : List Event) (l l' : Linter)
    → perform es l ≡ some l'
    → l'.state.filters_backup ≡ l.state.filters_backup
unfolding perform
perform-backup [] l l' e = ap (λ (k : Linter). k.state.filters_backup) (sym (some_eq e))
perform-backup (e ∷ es) l l' h = elim (Option-cases (perform_one e l)) [
  | inl n ↦ cc (rw (n, perform) at h)
  | inr (k, n) ↦ perform-backup es k l' (rw (n, perform) at h) ∙ perform_one-backup e l k n
]

pub set_line_length-state :
    {N : Type 0} (o : Option N) (g : Globals N)
    → (set_line_length o g).linter.state ≡ g.linter.state
set_line_length-state none g = refl
set_line_length-state (some n) g = refl

pub Contents-cases :
    (c : Contents)
    → (c ≡ no_file) ⊎ ((c ≡ unreadable) ⊎ ((lines : List Text) × (c ≡ text_lines lines)))
Contents-cases no_file = inl refl
Contents-cases unreadable = inr (inl refl)
Contents-cases (text_lines lines) = inr (inr (lines, refl))

-- this is the backup of the filters
abbrev pub HasBackup : {N : Type 0} → List Text → Globals N → Type 0
HasBackup b g = g.linter.state.filters_backup ≡ b

pub perform_all-HasBackup :
    {N : Type 0} (es : List Event) (g : Globals N) (b : List Text)
    → HasBackup b g
    → Ends (HasBackup b) (perform_all es g)
perform_all-HasBackup es g b h = elim (Option-cases (perform es g.linter)) [
  | inl n ↦ rw n tt
  | inr (l, n) ↦ rw n (perform-backup es g.linter l n ∙ h)
]
