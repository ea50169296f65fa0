-- ===== src/Schedule/Fair.antt =====
-- A program whose steps keep an invariant and lower a measure, and that never deadlocks, is ended by
-- every schedule that goes through all coroutines often enough.
use mathlib.Core.List.{flatten}
use zio_benchmarks.Schedule.{or_stay, went_on, run, steps_taken, Terminating}
use zio_benchmarks.Shared.{
  ◌+◌, ◌≤◌, ◌<◌, ◌≡◌, ◌⊎◌, refl, sym, ap, inl, inr, subst, ◌∙◌, List, [], ◌∷◌, ◌++◌, Option, none,
  some, All, WhenSome, Option-cases, length, arith,
}

abbrev pub Has : {K : Type 0} → K → List K → Type 0
Has k [] = ⊥
Has k (x ∷ xs) = (x ≡ k) ⊎ Has k xs

module _ {S K : Type 0} {step : S → K → Option S} (T : Terminating step) where
  open T use {Inv, Done, Member, measure, keeps, lowers, progress, stays}

  -- A round resumes every coroutine at least once, in any order.
  abbrev pub Covers : List K → Type 0
  Covers ks = (k : K) → Member k → Has k ks

  or_stay-keeps : (P : S → Type 0) (s : S) (r : Option S) → P s → WhenSome P r → P (or_stay s r)
  or_stay-keeps P s none h hr = h
  or_stay-keeps P s (some t) h hr = hr

  -- Every state of a run keeps to the invariant.
  pub run-Inv : (s : S) (ks : List K) → Inv s → Inv (run step s ks)
  unfolding run
  run-Inv s [] inv = inv
  run-Inv s (k ∷ ks) inv =
      run-Inv (or_stay s (step s k)) ks (or_stay-keeps Inv s (step s k) inv (keeps s k inv))

  went_on-le :
      (s : S) (r : Option S)
      → WhenSome (λ t. measure t < measure s) r
      → went_on r + measure (or_stay s r) ≤ measure s
  went_on-le s none h = omega arith
  went_on-le s (some t) h = omega arith

  pub steps_taken-le :
      (s : S) (ks : List K) → Inv s → steps_taken step s ks + measure (run step s ks) ≤ measure s
  unfolding run steps_taken
  steps_taken-le s [] inv = omega arith
  steps_taken-le s (k ∷ ks) inv = omega (
    arith,
    steps_taken-le (or_stay s (step s k)) ks (or_stay-keeps Inv s (step s k) inv (keeps s k inv)),
    went_on-le s (step s k) (lowers s k inv),
  )

  lowered : (s t : S) (k : K) → Inv s → step s k ≡ some t → measure t < measure s
  lowered s t k inv e = subst (WhenSome (λ u. measure u < measure s)) e (lowers s k inv)

  run_blocked :
      (s : S) (k : K) (ks : List K) → step s k ≡ none → run step s (k ∷ ks) ≡ run step s ks
  unfolding run
  run_blocked s k ks e = rw e

  run_resumed :
      (s t : S) (k : K) (ks : List K) → step s k ≡ some t → run step s (k ∷ ks) ≡ run step t ks
  unfolding run
  run_resumed s t k ks e = rw e

  run-append : (s : S) (ks ls : List K) → run step s (ks ++ ls) ≡ run step (run step s ks) ls
  unfolding run
  run-append s [] ls = refl
  run-append s (k ∷ ks) ls = run-append (or_stay s (step s k)) ks ls

  pub done_stays : (s : S) (ks : List K) → Done s → run step s ks ≡ s
  unfolding run
  done_stays s [] done = refl
  done_stays s (k ∷ ks) done = run_blocked s k ks (stays s k done) ∙ done_stays s ks done

  -- A list of coroutines that leaves the state as it is, since none of them can go on.
  abbrev Quiet : S → List K → Type 0
  Quiet s ks = ((k : K) → Has k ks → step s k ≡ none) × (run step s ks ≡ s)

  Quiet-or_lowers :
      (s : S) (ks : List K) → Inv s → Quiet s ks ⊎ (measure (run step s ks) < measure s)
  unfolding run
  Quiet-or_lowers s [] inv = inl ((λ k h. absurd h), refl)
  Quiet-or_lowers s (k ∷ ks) inv = elim (Option-cases (step s k)) [
    | inl blocked ↦ elim (Quiet-or_lowers s ks inv) [
      | inl quiet ↦ inl (
        (λ l h. elim h [
          | inl same ↦ subst (λ m. step s m ≡ none) same blocked
          | inr later ↦ quiet.0 l later
        ]),
        run_blocked s k ks blocked ∙ quiet.1,
      )
      | inr lower ↦
          inr (subst (λ u. measure u < measure s) (sym (run_blocked s k ks blocked)) lower)
    ]
    | inr (t, e) ↦
        inr (subst (λ u. measure u < measure s) (sym (run_resumed s t k ks e)) (resumed t e))
  ]
    where
      resumed : (t : S) → step s k ≡ some t → measure (run step t ks) < measure s
      resumed t e =
          omega (
            arith,
            steps_taken-le t ks (subst (WhenSome Inv) e (keeps s k inv)),
            lowered s t k inv e,
          )

  round_advances :
      (s : S) (ks : List K) → Inv s → Covers ks → Done s ⊎ (measure (run step s ks) < measure s)
  round_advances s ks inv cover = elim (Quiet-or_lowers s ks inv) [
    | inr lower ↦ inr lower
    | inl quiet ↦ elim (progress s inv) [
      | inl done ↦ inl done
      | inr (k, member, (t, e)) ↦ cc (quiet.0 k (cover k member), e)
    ]
  ]

  -- As many rounds as the measure of a state are enough to come to an end from it.
  pub rounds_finish :
      (s : S) (rounds : List (List K))
      → Inv s
      → All Covers rounds
      → measure s ≤ length rounds
      → Done (run step s (flatten rounds))
  unfolding flatten run
  rounds_finish s [] inv cover enough = elim (progress s inv) [
    | inl done ↦ done
    | inr (k, member, (t, e)) ↦ absurd (omega (arith, lowered s t k inv e))
  ]
  rounds_finish s (ks ∷ rounds) inv cover enough =
      subst Done (sym (run-append s ks (flatten rounds))) (elim (round_advances s ks inv cover.0) [
        | inl done ↦
            subst Done
              (sym (
                ap (λ u. run step u (flatten rounds)) (done_stays s ks done)
                ∙ done_stays s (flatten rounds) done))
              done
        | inr lower ↦ rounds_finish (run step s ks) rounds (run-Inv s ks inv) cover.1 (omega arith)
      ])
