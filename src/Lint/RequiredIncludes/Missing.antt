-- ===== src/Lint/RequiredIncludes/Missing.antt =====
-- Which headers CheckForIncludeWhatYouUse reports.
use mathlib.Core.List.{Memᴰ}
use ringfile.Prelude.{
  ℕ, ◌+◌, ◌≡◌, refl, inl, inr, arith, Bool, false, not, ◌&&◌, Option, none, some, List, [], ◌∷◌,
  ◌++◌, Text, All, All-append, codes, Bool-cases, Option-cases,
}
use ringfile.Prelude.Strings.{strip, ends_with}
use ringfile.Lint.Regex.{mem, search_re, group_or_empty}
use ringfile.Lint.Report.{Event}
use ringfile.Lint.FileChecks.{call, is_some}
use ringfile.Lint.Cleanse.{CleansedLines, cleanse_comments, include_re}
use ringfile.Lint.Include.{IncludeState, Entry, include_list, find_in}
use ringfile.Lint.FileName.{files_belong_to_same_module, full_name}
use ringfile.Lint.Conditions.{when, All-if}
use ringfile.Lint.RequiredIncludes.{
  Required, missing_events, check_for_include_what_you_use, setdefault, update_from, flatten,
  update_include_state, update_all, require_lines, without_flymake,
}

-- An entry at the end hides no other.
find_in-append :
    (key : Text) (d e : List Entry) → find_in key (d ++ e) ≡ none → find_in key d ≡ none
unfolding find_in
find_in-append key [] e h = refl
find_in-append key ((k, n) ∷ d) e h = ground (arith, find_in-append key d e)

setdefault-keeps :
    (key include : Text) (linenum : ℕ) (d : List Entry)
    → find_in key (setdefault include linenum d) ≡ none
    → find_in key d ≡ none
unfolding setdefault
setdefault-keeps key include linenum d h =
    ground (arith, find_in-append key d ((include, linenum) ∷ []))

update_from-keeps :
    (key : Text) (lines : List Text) (linenum : ℕ) (d : List Entry)
    → find_in key (update_from lines linenum d) ≡ none
    → find_in key d ≡ none
unfolding update_from
update_from-keeps key [] linenum d h = h
update_from-keeps key (line ∷ lines) linenum d h =
    elim (Option-cases (search_re include_re (cleanse_comments line))) [
      | inl e ↦ update_from-keeps key lines (linenum + 1) d (rw (update_from, e) at h)
      | inr (m, e) ↦
          setdefault-keeps key (group_or_empty 2 m) (linenum + 1) d
            (update_from-keeps key lines (linenum + 1) _ (rw (update_from, e) at h))
    ]

module _ (abspath : Text → Text) (header_lines : Text → Option (List Text))
    (header_keys : List Entry → List Text) (items : Required → Required) where
  update_include_state-keeps :
      (key filename : Text) (d : List Entry)
      → find_in key (update_include_state abspath header_lines header_keys items filename d).0
        ≡ none
      → find_in key d ≡ none
  unfolding update_include_state
  update_include_state-keeps key filename d h = elim (Option-cases (header_lines filename)) [
    | inl e ↦ rw (update_include_state, e) at h
    | inr (lines, e) ↦ update_from-keeps key lines 0 d (rw (update_include_state, e) at h)
  ]

  update_all-keeps :
      (key abs_filename : Text) (headers : List Text) (s : List Entry × Bool)
      → find_in key (update_all abspath header_lines header_keys items abs_filename headers s).0
        ≡ none
      → find_in key s.0 ≡ none
  unfolding update_all
  update_all-keeps key abs_filename [] s h = h
  update_all-keeps key abs_filename (header ∷ headers) (d, found) h =
      let m = files_belong_to_same_module abs_filename header in
      elim (Bool-cases m.0) [
        | inl e ↦
            update_include_state-keeps key (m.1 ++ header) d
              (update_all-keeps key abs_filename headers _ (rw (update_all, e) at h))
        | inr e ↦ update_all-keeps key abs_filename headers _ (rw (update_all, e) at h)
      ]

-- A report that says to include a header for one of these uses, where the dict does not have the header
pub IsMissing : Text → List Entry → Required → Event → Type 0
IsMissing filename d required event =
    (header : Text) × (linenum : ℕ) × (template : Text) × Memᴰ (header, (linenum, template))
      required
    × (event
        ≡ call filename linenum (codes "build/include_what_you_use") 4
            (codes "Add #include " ++ header ++ codes " for " ++ template))
    × (find_in (strip (λ x. mem x (codes "<>\"")) header) d ≡ none)

-- for fewer uses
IsMissing-cons :
    (filename : Text) (d : List Entry) (r : Text × (ℕ × Text)) (required : Required)
    → (events : List Event) → All (IsMissing filename d required) events
    → All (IsMissing filename d (r ∷ required)) events
unfolding IsMissing
IsMissing-cons filename d r required [] h = tt
IsMissing-cons filename d r required (e ∷ es) ((header, linenum, template, m, p, q), h) =
    ((header, linenum, template, Memᴰ.tail m, p, q), IsMissing-cons filename d r required es h)

-- for an earlier dict
IsMissing-earlier :
    (filename : Text) (d d' : List Entry) (required : Required) (events : List Event)
    → ((key : Text) → find_in key d' ≡ none → find_in key d ≡ none)
    → All (IsMissing filename d' required) events
    → All (IsMissing filename d required) events
unfolding IsMissing
IsMissing-earlier filename d d' required [] keeps h = tt
IsMissing-earlier filename d d' required (e ∷ es) keeps ((header, linenum, template, m, p, q), h) =
    (
      (header, linenum, template, m, p, keeps _ q),
      IsMissing-earlier filename d d' required es keeps h,
    )

-- a report that is made where nothing is found
when_none :
    (P : Event → Type 0) (o : Option ℕ) (event : Event)
    → (o ≡ none → P event)
    → All P (when (not (is_some o)) event)
unfolding is_some
when_none P none event h = (h refl, tt)
when_none P (some n) event h = tt

module _ (abspath : Text → Text) (header_lines : Text → Option (List Text))
    (header_keys : List Entry → List Text) (items : Required → Required) where
  missing_events-IsMissing :
      (filename : Text) (d : List Entry) (required : Required)
      → All
          (IsMissing filename d required)
          (missing_events abspath header_lines header_keys items filename d required)
  unfolding missing_events IsMissing
  missing_events-IsMissing filename d [] = tt
  missing_events-IsMissing filename d ((header, (linenum, template)) ∷ required) =
      let r : Text × (ℕ × Text) = (header, (linenum, template)) in
      let event =
        call filename linenum (codes "build/include_what_you_use") 4
          (codes "Add #include " ++ header ++ codes " for " ++ template) in
      let P = IsMissing filename d (r ∷ required) in
      All-append P _ _
        (when_none P (find_in (strip (λ x. mem x (codes "<>\"")) header) d) event
          (λ e. (header, linenum, template, Memᴰ.head refl, refl, e)))
        (IsMissing-cons filename d r required _ (missing_events-IsMissing filename d required))

  -- Each report of CheckForIncludeWhatYouUse says to include a header that the lines of the file need,
  -- at a line and for a name that they need it for, and that the file does not include.
  pub what_you_use-IsMissing :
      (filename : Text) (clean_lines : CleansedLines) (s : IncludeState)
      → All
          (IsMissing filename
            (flatten (include_list s))
            (items (require_lines clean_lines.elided 0 [])))
          (check_for_include_what_you_use abspath header_lines header_keys items filename
            clean_lines s)
  unfolding check_for_include_what_you_use
  what_you_use-IsMissing filename clean_lines s =
      let dict = flatten (include_list s) in
      let required = items (require_lines clean_lines.elided 0 []) in
      let abs_filename = without_flymake (full_name abspath (λ _. false) filename) in
      let last =
        update_all abspath header_lines header_keys items abs_filename (header_keys dict)
          (dict, false) in
      let P = IsMissing filename dict required in
      All-if P (ends_with filename (codes ".cc") && not last.1) [] _ tt (
        IsMissing-earlier filename dict last.0 required _
          (λ key h.
            update_all-keeps abspath header_lines header_keys items key abs_filename
              (header_keys dict) (dict, false) h)
          (missing_events-IsMissing filename last.0 required))
