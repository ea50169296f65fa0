-- ===== src/Schedule.antt =====
-- Coroutines over shared state, run along a schedule: the list says which of them is resumed next. A
-- step that is not possible (`none`) leaves the state as it is.
pub mod Fair
pub mod Many
use zio_benchmarks.Shared.{
  ℕ, zero, suc, ◌+◌, ◌≤◌, ◌<◌, ◌≡◌, ◌⊎◌, refl, List, [], ◌∷◌, ◌++◌, Option, none, some, WhenSome,
  arith,
}

abbrev pub or_stay {ℓ} : {S : Type ℓ} → S → Option S → S
or_stay s none = s
or_stay s (some t) = t

-- 1 for a resumption that goes on.
abbrev pub went_on {ℓ} : {S : Type ℓ} → Option S → ℕ
went_on none = 0
went_on (some t) = 1

module _ {S K : Type 0} (step : S → K → Option S) where
  -- The state after a schedule.
  unfoldable pub run : S → List K → S
  run s [] = s
  run s (k ∷ ks) = run (or_stay s (step s k)) ks

  -- How many resumptions of a schedule go on.
  unfoldable pub steps_taken : S → List K → ℕ
  steps_taken s [] = 0
  steps_taken s (k ∷ ks) = went_on (step s k) + steps_taken (or_stay s (step s k)) ks

  -- A coroutine can go on.
  abbrev pub CanStep : S → K → Type 0
  CanStep s k = (t : S) × (step s k ≡ some t)

-- What is proved of a program's steps, so that its runs come to an end.
pub record Terminating {S K : Type 0} (step : S → K → Option S) : Type 1 where
  -- What every state keeps to.
  pub Inv : S → Type 0
  -- Every coroutine has come to its end.
  pub Done : S → Type 0
  -- The coroutines that there are.
  pub Member : K → Type 0
  -- A bound on the steps that are left.
  pub measure : S → ℕ
  pub keeps : (s : S) (k : K) → Inv s → WhenSome Inv (step s k)
  pub lowers : (s : S) (k : K) → Inv s → WhenSome (λ t. measure t < measure s) (step s k)
  pub progress : (s : S) → Inv s → Done s ⊎ ((k : K) × Member k × CanStep step s k)
  pub stays : (s : S) (k : K) → Done s → step s k ≡ none
