-- ===== src/Command/Parse/Ready.antt =====
-- What Parse of class Command lets through.
use mathlib.Core.Option
use mathlib.Core.Path.{subst}
use ringfile.Prelude.{
  ℕ, ◌*◌, ◌^◌, ◌%◌, ◌≡◌, ◌⊎◌, inl, inr, refl, sym, ap, ◌∙◌, arith, ◌==◌, ◌||◌, Bool, true, false,
  Option, Bool-cases, none, some, List, [], ◌∷◌, Text, if◌then◌else◌,
}
use ringfile.Storage.{Outcome, done, refused, overrun, stuck}
use ringfile.Command.Parse.{
  Mode, mode_unspecified, mode_read, mode_stat, mode_append, Opt, Settings, is_unspecified,
  factor_of, scaled, sized, with_mode, parse_opt, parse_opts, take_path, parse, fails,
}

-- One of the options is -h.
unfoldable pub has_help : List Opt → Bool
has_help [] = false
has_help (o ∷ opts) = o.option == b'h' || has_help opts

-- The size that the last of the options --size gives, as a word of 64 bits: its number, which is positive,
-- times the factor of its unit.
pub size_of : Option (ℕ × Text) → Option ℕ
size_of none = none
size_of (some (n, units)) =
    if n == 0 then none else Option.map (λ factor. n * factor % 2 ^ 64) (factor_of units)

pub last_size : (Text → Option (ℕ × Text)) → List Opt → Option ℕ → Option ℕ
last_size strtol [] size = size
last_size strtol (o ∷ opts) size =
    last_size strtol opts (if o.option == b's' then size_of (strtol o.optarg) else size)

-- A result other than true, or a round behind which the size is this one
unfoldable IsLoop : Option ℕ → Settings × Option Bool → Type 0
IsLoop size (s, none) = s.size ≡ size
IsLoop size (s, some b) = b ≡ false

unfoldable Gives : Option ℕ → Outcome (Settings × Option Bool) → Type 0
Gives size (done r) = IsLoop size r
Gives size refused = Unit
Gives size overrun = Unit
Gives size stuck = Unit

go_on-Gives : (size : Option ℕ) (s : Settings) → s.size ≡ size → Gives size (done (s, none))
unfolding Gives IsLoop
go_on-Gives size s h = h

fails-Gives :
    (size : Option ℕ) (message : Text) (s : Settings) → Gives size (done (fails message s))
unfolding Gives IsLoop
fails-Gives size message s = refl

if-Gives :
    (size : Option ℕ) (b : Bool) (x y : Outcome (Settings × Option Bool))
    → (b ≡ true → Gives size x)
    → (b ≡ false → Gives size y)
    → Gives size (if b then x else y)
if-Gives size true x y h k = h refl
if-Gives size false x y h k = k refl

scaled-Gives :
    (program : Text) (n : ℕ) (o : Option ℕ) (s : Settings)
    → Gives (Option.map (λ factor. n * factor % 2 ^ 64) o) (scaled program n o s)
unfolding Gives IsLoop
scaled-Gives program n none s = refl
scaled-Gives program n (some factor) s = refl

sized-Gives :
    (program : Text) (o : Option (ℕ × Text)) (s : Settings) → Gives (size_of o) (sized program o s)
unfolding size_of
sized-Gives program none s = fails-Gives _ _ s
sized-Gives program (some (n, units)) s = elim (Bool-cases (n == 0)) [
  | inl e ↦ rw (e, size_of) (fails-Gives _ _ s)
  | inr e ↦ rw (e, size_of) (scaled-Gives program n (factor_of units) s)
]

mode-Gives :
    (size : Option ℕ) (program : Text) (mode : Mode) (s : Settings)
    → s.size ≡ size
    → Gives size (with_mode program mode s)
mode-Gives size program mode s h = search (go_on-Gives, fails-Gives, if-Gives)

other_option : (c k : ℕ) → (c == k) ≡ true → (k == b's') ≡ false → (c == b's') ≡ false
other_option c k e n = ground arith

Outcome-cases {ℓ} :
    {A : Type ℓ} (r : Outcome A)
    → ((a : A) × (r ≡ done a)) ⊎ ((r ≡ refused) ⊎ ((r ≡ overrun) ⊎ (r ≡ stuck)))
Outcome-cases (done a) = inl (a, refl)
Outcome-cases refused = inr (inl refl)
Outcome-cases overrun = inr (inr (inl refl))
Outcome-cases stuck = inr (inr (inr refl))

done_eq {ℓ} : {A : Type ℓ} {a b : A} → done a ≡ done b → a ≡ b
done_eq {a = a} h = ap (λ r. elim r [ done c ↦ c | refused ↦ a | overrun ↦ a | stuck ↦ a ]) h

mode_given : (m : Mode) → is_unspecified (if is_unspecified m then mode_read else m) ≡ false
mode_given mode_unspecified = refl
mode_given mode_read = refl
mode_given mode_stat = refl
mode_given mode_append = refl

or_left : (a b : Bool) → (a || b) ≡ false → a ≡ false
or_left true b h = h
or_left false b h = refl

or_right : (a b : Bool) → (a || b) ≡ false → b ≡ false
or_right true b h = cc
or_right false b h = h

module _ (strtol : Text → Option (ℕ × Text)) where
  abbrev size_after : Opt → Settings → Option ℕ
  size_after o s = if o.option == b's' then size_of (strtol o.optarg) else s.size

  unsized :
      (o : Opt) (s : Settings) (k : ℕ)
      → (o.option == k) ≡ true
      → (k == b's') ≡ false
      → s.size ≡ size_after o s
  unsized o s k e n = rw (other_option o.option k e n) refl

  opt-Gives :
      (program : Text) (o : Opt) (s : Settings)
      → (o.option == b'h') ≡ false
      → Gives (size_after o s) (parse_opt strtol program o s)
  unfolding parse_opt
  opt-Gives program o s n =
      let d = size_after o s in
      if-Gives d (o.option == b'h') _ _ (λ e. cc (sym e ∙ n))
        λ _.
          if-Gives d (o.option == b'v') _ _ (λ e. go_on-Gives d _ (unsized o s b'v' e refl))
            λ _.
              if-Gives d (o.option == b'S') _ _ (λ e. mode-Gives d _ _ s (unsized o s b'S' e refl))
                λ _.
                  if-Gives d (o.option == b'r') _ _
                    (λ e. mode-Gives d _ _ s (unsized o s b'r' e refl))
                    λ _.
                      if-Gives d (o.option == b'a') _ _
                        (λ e. mode-Gives d _ _ s (unsized o s b'a' e refl))
                        λ _.
                          if-Gives d (o.option == b's') _ _
                            (λ e. rw e (sized-Gives program (strtol o.optarg) s))
                            (λ _. fails-Gives d _ s)

  opts-Gives :
      (program : Text) (opts : List Opt) (s : Settings)
      → has_help opts ≡ false
      → Gives (last_size strtol opts s.size) (parse_opts strtol program opts s)
  unfolding parse_opts has_help Gives IsLoop last_size
  opts-Gives program [] s n = refl
  opts-Gives program (o ∷ opts) s n =
      let g = opt-Gives program o s (or_left _ _ n) in
      elim (Outcome-cases (parse_opt strtol program o s)) [
        | inl ((s', none), e) ↦
            let q : s'.size ≡ size_after o s = subst (Gives (size_after o s)) e g in
            rw (parse_opts, e)
              (subst (λ z. Gives (last_size strtol opts z) (parse_opts strtol program opts s')) q
                (opts-Gives program opts s' (or_right _ _ n)))
        | inl ((s', some b), e) ↦ rw (parse_opts, e) (subst (Gives (size_after o s)) e g)
        | inr (inl e) ↦ rw (parse_opts, e) tt
        | inr (inr (inl e)) ↦ rw (parse_opts, e) tt
        | inr (inr (inr e)) ↦ rw (parse_opts, e) tt
      ]

  take_path-IsReady :
      (program : Text) (args : List Text) (size : Option ℕ) (s s' : Settings)
      → s.size ≡ size
      → take_path strtol program args s ≡ (s', true)
      → (is_unspecified s'.mode ≡ false) × (s'.size ≡ size) × (args ≡ s'.path ∷ [])
  unfolding take_path
  take_path-IsReady program [] size s s' h e = cc
  take_path-IsReady program (path ∷ []) size s s' h e =
      subst
        (λ (t : Settings).
          (is_unspecified t.mode ≡ false) × (t.size ≡ size) × (path ∷ [] ≡ t.path ∷ []))
        (ap (λ (r : Settings × Bool). r.0) e) (mode_given s.mode, h, refl)
  take_path-IsReady program (path ∷ (other ∷ args)) size s s' h e = cc

  -- Where none of the options is -h and Parse returns true, a mode is set, the size is the one that the
  -- last option --size gives, modulo 2 ^ 64, or the one before where there is no such option, and the
  -- path is the one argument that is left.
  pub parse-IsReady :
      (program : Text) (opts : List Opt) (args : List Text) (s s' : Settings)
      → has_help opts ≡ false
      → parse strtol program opts args s ≡ done (s', true)
      → (is_unspecified s'.mode ≡ false)
        × (s'.size ≡ last_size strtol opts s.size)
        × (args ≡ s'.path ∷ [])
  unfolding parse Gives IsLoop
  parse-IsReady program opts args s s' n e =
      let g = opts-Gives program opts s n in
      let size = last_size strtol opts s.size in
      elim (Outcome-cases (parse_opts strtol program opts s)) [
        | inl ((t, none), p) ↦
            take_path-IsReady program args size t s' (subst (Gives size) p g)
              (done_eq (rw (parse, p) at e))
        | inl ((t, some b), p) ↦
            let f : b ≡ false = subst (Gives size) p g in
            let q : b ≡ true = ap (λ (r : Settings × Bool). r.1) (done_eq (rw (parse, p) at e)) in
            cc
        | inr (inl p) ↦ cc (rw (parse, p) at e)
        | inr (inr (inl p)) ↦ cc (rw (parse, p) at e)
        | inr (inr (inr p)) ↦ cc (rw (parse, p) at e)
      ]
