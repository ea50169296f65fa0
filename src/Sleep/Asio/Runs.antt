-- ===== src/Sleep/Asio/Runs.antt =====
-- Whole runs of sleep_asio.cpp.
use mathlib.Core.List.{flatten}
use native.Mathlib.Decide.{dec_lt}
use zio_benchmarks.Schedule.{run, Terminating, CanStep}
use zio_benchmarks.Schedule.Fair.{Covers, run-Inv, rounds_finish}
use zio_benchmarks.Shared.Words.{u64}
use zio_benchmarks.Shared.{
  ℕ, zero, suc, ◌+◌, ◌*◌, ◌^◌, ◌<◌, ◌≤◌, ◌≡◌, ◌↔◌, ◌⊎◌, refl, inl, inr, List, Option, none, some,
  get_elem?, set, ltb, ◌==◌, All, All-get_elem?, WhenSome, total, length, replicate,
  length-replicate, arith, find_positive, get_elem?-lt_length, Bool-cases, Option-cases,
}
use zio_benchmarks.Sleep.{Options}
use zio_benchmarks.Sleep.Asio.{
  Task, starting, sleeping, finished, State, sleep_task, step, init, IsJoined, exit_code,
}
use zio_benchmarks.Sleep.Asio.Steps.{
  is_finished, steps_left, All-finished, steps_none, Inv, measure, Good, step-Good,
}

pub WhenSome-first :
    (o : Options) (s : State) (r : Option State) → WhenSome (Good o s) r → WhenSome (Inv o) r
WhenSome-first o s none h = tt
WhenSome-first o s (some t) h = h.0

pub WhenSome-second :
    (o : Options) (s : State) (r : Option State)
    → WhenSome (Good o s) r
    → WhenSome (λ t. measure o t < measure o s) r
WhenSome-second o s none h = tt
WhenSome-second o s (some t) h = h.1

module _ (o : Options) where
  waiting-some :
      (s : State) (t : Task)
      → 0 < steps_left t
      → (a : ℕ × Task) × (sleep_task o.sleep_ms s.counter t ≡ some a)
  unfolding sleep_task
  waiting-some s starting h = elim (Bool-cases (ltb 0 o.sleep_ms)) [
    | inl sleeps ↦ ((s.counter, sleeping), rw (sleeps, sleep_task))
    | inr straight ↦ ((u64 (s.counter + 1), finished), rw (straight, sleep_task))
  ]
  waiting-some s sleeping h = (_, refl)
  waiting-some s finished h = absurd (omega arith)

  pub progress :
      (s : State) → Inv o s → IsJoined s ⊎ ((k : ℕ) × (k < o.tasks) × CanStep (step o) s k)
  unfolding step
  progress s inv = elim (dec_lt 0 (total steps_left s.tasks)) [
    | no p ↦ inl (steps_none s.tasks (omega arith))
    | yes p ↦
        let (k, t, at, h) = find_positive steps_left s.tasks p in
        let ((n, u), e) = waiting-some s t h in
        inr (
          k,
          omega (arith, get_elem?-lt_length s.tasks k at, inv.all_tasks),
          (record { counter = n; tasks = set s.tasks k u }, rw (at, step, e)),
        )
  ]

  pub joined_stays : (s : State) (k : ℕ) → IsJoined s → step o s k ≡ none
  unfolding step
  joined_stays s k joined = elim (Option-cases (get_elem? s.tasks k)) [
    | inl out ↦ rw (out, step)
    | inr (t, at) ↦ rw (at, step, All-get_elem? (λ u. u ≡ finished) s.tasks k joined at, sleep_task)
  ]

exit_of :
    (o : Options) (s : State)
    → Inv o s
    → ((exit_code o s ≡ 0) ↔ IsJoined s) × ((exit_code o s ≡ 0) ⊎ (exit_code o s ≡ 3))
unfolding exit_code
exit_of o s inv = elim (Bool-cases (s.counter == o.tasks)) [
  | inl same ↦
      let all : total is_finished s.tasks ≡ length s.tasks =
        (let equal : s.counter ≡ o.tasks = ground arith in
          omega (arith, equal, inv.counted, inv.all_tasks)) in
      rw same (((λ _. (All-finished s.tasks).0 all), (λ _. refl)), inl refl)
  | inr other ↦ rw other (
    (
      (λ e. absurd (omega arith)),
      (λ joined.
          let equal : s.counter ≡ o.tasks =
            omega (arith, (All-finished s.tasks).1 joined, inv.counted, inv.all_tasks) in
          absurd (ground arith)),
    ),
    inr refl,
  )
]

init_tasks :
    (n : ℕ)
    → (total is_finished (replicate n starting) ≡ 0)
      × (total steps_left (replicate n starting) ≡ 2 * n)
init_tasks zero = (refl, refl)
init_tasks (suc n) = omega (arith, init_tasks n)

module _ (o : Options) (fit : o.tasks < 2 ^ 64) where
  abbrev pub terminating : Terminating (step o)
  terminating = record {
    Inv = Inv o;
    Done = IsJoined;
    Member = λ k. k < o.tasks;
    measure = measure o;
    keeps = λ s k inv. WhenSome-first o s (step o s k) (step-Good fit inv k);
    lowers = λ s k inv. WhenSome-second o s (step o s k) (step-Good fit inv k);
    progress = progress o;
    stays = joined_stays o;
  }

  init-Inv : Inv o (init o)
  unfolding init
  init-Inv = record {
    counted = omega (arith, init_tasks o.tasks);
    all_tasks = length-replicate o.tasks starting;
  }

  start : measure o (init o) ≡ 2 * o.tasks
  unfolding init
  start = omega (arith, init_tasks o.tasks)

  -- After any schedule `main` would return 0 if every task has ended, and 3 if one has not. The
  -- number of tasks fits 64 bits.
  pub exit_code-IsJoined :
      (ks : List ℕ)
      → let s = run (step o) (init o) ks in
        ((exit_code o s ≡ 0) ↔ IsJoined s) × ((exit_code o s ≡ 0) ⊎ (exit_code o s ≡ 3))
  exit_code-IsJoined ks =
      exit_of o (run (step o) (init o) ks) (run-Inv terminating (init o) ks init-Inv)

  -- Every fair schedule ends with all tasks counted: if it goes through all the tasks at least
  -- 2 * tasks times, in any order each time, then all have ended and `main` returns 0. The number of
  -- tasks fits 64 bits.
  pub fair_sleep_ends :
      (rounds : List (List ℕ))
      → All (Covers terminating) rounds
      → 2 * o.tasks ≤ length rounds
      → let s = run (step o) (init o) (flatten rounds) in IsJoined s × (exit_code o s ≡ 0)
  fair_sleep_ends rounds cover enough =
      let joined : IsJoined (run (step o) (init o) (flatten rounds)) =
        rounds_finish terminating (init o) rounds init-Inv cover (omega (arith, start)) in
      (joined, (exit_code-IsJoined (flatten rounds)).0.1 joined)
