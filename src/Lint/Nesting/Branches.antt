-- ===== src/Lint/Nesting/Branches.antt =====
-- What NestingState keeps over the branches of a conditional.
use ringfile.Prelude.{◌≡◌, refl, ap, ◌∙◌, true, false, List, [], ◌∷◌, Text, if◌then◌else◌, arith}
use ringfile.Lint.Nesting.{
  NestingState, PreprocessorInfo, Directive, begin_if, begin_else, end_if, directive,
  update_preprocessor, act, at_if, at_else, at_endif, see_else,
}

module _ {ℓ} (A : Type ℓ) where
  mutual
    -- Lines whose conditionals are closed. A line of code changes the stack in some way; a conditional
    -- is its #if, the first branch, the other branches, each behind its #else or #elif, and its #endif.
    pub data Source : Type ℓ where
      end : Source
      code : (List A → List A) → Source → Source
      conditional :
          (line : Text)
          → directive line ≡ begin_if
          → Source
          → Branches
          → (last : Text) → directive last ≡ end_if
          → Source
          → Source

    pub data Branches : Type ℓ where
      no_more : Branches
      branch : (line : Text) → directive line ≡ begin_else → Source → Branches → Branches

  mutual
    -- The lines one by one.
    pub run : Source → NestingState A → NestingState A
    run end s = s
    run (code f w) s = run w (record s { stack = f s.stack })
    run (conditional l h v bs m k w) s =
        run w (update_preprocessor A m (run_branches bs (run v (update_preprocessor A l s))))

    pub run_branches : Branches → NestingState A → NestingState A
    run_branches no_more s = s
    run_branches (branch l h v bs) s = run_branches bs (run v (update_preprocessor A l s))

  -- The stack after the lines, with all branches but the first left out.
  pub first_branches : Source → List A → List A
  first_branches end st = st
  first_branches (code f w) st = first_branches w (f st)
  first_branches (conditional l h v bs m k w) st = first_branches w (first_branches v st)

  abbrev state : List A → List (PreprocessorInfo A) → NestingState A
  state st ps = record { stack = st; pp_stack = ps }

  update-act :
      (line : Text) (d : Directive) (s : NestingState A)
      → directive line ≡ d
      → update_preprocessor A line s ≡ act A d s
  unfolding update_preprocessor
  update-act line d s h = ap (λ e. act A e s) h

  see_else-kept :
      (st : List A) (p : PreprocessorInfo A)
      → ((see_else A st p).seen_else ≡ true)
        × ((see_else A st p).stack_before_else ≡ (if p.seen_else then p.stack_before_else else st))
  unfolding see_else
  see_else-kept st p = ground arith

  mutual
    unfolding run run_branches first_branches act at_if at_else at_endif

    run-state :
        (w : Source) (st : List A) (ps : List (PreprocessorInfo A))
        → run w (record { stack = st; pp_stack = ps })
          ≡ record { stack = first_branches w st; pp_stack = ps }
    run-state end st ps = refl
    run-state (code f w) st ps = run-state w (f st) ps
    run-state (conditional l h v bs m k w) st ps =
        let q : PreprocessorInfo A = record {
          stack_before_if = st;
          stack_before_else = [];
          seen_else = false;
        } in
        let st' = first_branches v st in
        ap (λ s. run w (update_preprocessor A m (run_branches bs (run v s))))
          (update-act l begin_if (state st ps) h)
        ∙ (ap (λ s. run w (update_preprocessor A m (run_branches bs s))) (run-state v st (q ∷ ps))
            ∙ (ap (run w) (
                  update-act m end_if (run_branches bs (state st' (q ∷ ps))) k
                  ∙ end-branches bs st' q ps)
                ∙ run-state w st' ps))

    end-branches :
        (bs : Branches) (st : List A) (p : PreprocessorInfo A) (ps : List (PreprocessorInfo A))
        → at_endif A (run_branches bs (state st (p ∷ ps)))
          ≡ state (if p.seen_else then p.stack_before_else else st) ps
    end-branches no_more st p ps = refl
    end-branches (branch l h v bs) st p ps =
        let q = see_else A st p in
        let (seen, before) = see_else-kept st p in
        let st' = first_branches v p.stack_before_if in
        let kept : (if q.seen_else then q.stack_before_else else st')
            ≡ (if p.seen_else then p.stack_before_else else st) =
          rw seen before in
        ap (λ s. at_endif A (run_branches bs (run v s)))
          (update-act l begin_else (state st (p ∷ ps)) h)
        ∙ (ap (λ s. at_endif A (run_branches bs s)) (run-state v p.stack_before_if (q ∷ ps))
            ∙ (end-branches bs st' q ps ∙ ap (λ t. state t ps) kept))

  -- The stack behind closed lines is the one behind their first branches, whatever the lines in the
  -- other branches do to it, and the stack of conditionals is as it was.
  pub run-first :
      (w : Source) (st : List A) (ps : List (PreprocessorInfo A))
      → run w (record { stack = st; pp_stack = ps })
        ≡ record { stack = first_branches w st; pp_stack = ps }
  run-first w st ps = run-state w st ps
