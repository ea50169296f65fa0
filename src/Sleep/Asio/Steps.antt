-- ===== src/Sleep/Asio/Steps.antt =====
-- What holds in every state of sleep_asio.cpp, and that every step keeps it and uses up work.
use zio_benchmarks.Schedule.{CanStep}
use zio_benchmarks.Shared.Words.{u64}
use zio_benchmarks.Shared.{
  ap, ◌∙◌, ℕ, ◌+◌, ◌^◌, ◌<◌, ◌≤◌, ◌≡◌, ◌≢◌, ◌↔◌, refl, inl, inr, List, [], ◌∷◌, some, get_elem?,
  set, ltb, All, WhenSome, total, total-set, length, length-set, arith, Bool-cases, Option-cases,
}
use zio_benchmarks.Sleep.{Options}
use zio_benchmarks.Sleep.Asio.{
  Task, starting, sleeping, finished, State, sleep_task, put_task, step,
}

abbrev pub is_finished : Task → ℕ
is_finished starting = 0
is_finished sleeping = 0
is_finished finished = 1

abbrev pub steps_left : Task → ℕ
steps_left starting = 2
steps_left sleeping = 1
steps_left finished = 0

finished-le : (ts : List Task) → total is_finished ts ≤ length ts
finished-le [] = omega arith
finished-le (starting ∷ ts) = omega (arith, finished-le ts)
finished-le (sleeping ∷ ts) = omega (arith, finished-le ts)
finished-le (finished ∷ ts) = omega (arith, finished-le ts)

pub All-finished :
    (ts : List Task) → (total is_finished ts ≡ length ts) ↔ All (λ t. t ≡ finished) ts
All-finished [] = (λ _. tt, λ _. refl)
All-finished (starting ∷ ts) =
    ((λ e. absurd (omega (arith, finished-le ts))), λ h. absurd (starting-ne h.0))
  where
    starting-ne : starting ≢ finished
    starting-ne e = let bad : is_finished starting ≡ 1 = ap is_finished e in omega arith
All-finished (sleeping ∷ ts) =
    ((λ e. absurd (omega (arith, finished-le ts))), λ h. absurd (sleeping-ne h.0))
  where
    sleeping-ne : sleeping ≢ finished
    sleeping-ne e = let bad : is_finished sleeping ≡ 1 = ap is_finished e in omega arith
All-finished (finished ∷ ts) =
    ((λ e. (refl, (All-finished ts).0 (omega arith))), λ h. omega (arith, (All-finished ts).1 h.1))

pub steps_none : (ts : List Task) → total steps_left ts ≡ 0 → All (λ t. t ≡ finished) ts
steps_none [] h = tt
steps_none (starting ∷ ts) h = absurd (omega arith)
steps_none (sleeping ∷ ts) h = absurd (omega arith)
steps_none (finished ∷ ts) h = (refl, steps_none ts (omega arith))

module _ (o : Options) where
  pub record Inv (s : State) : Type 0 where
    pub counted : s.counter ≡ total is_finished s.tasks
    pub all_tasks : length s.tasks ≡ o.tasks

  abbrev pub measure : State → ℕ
  measure s = total steps_left s.tasks

  -- What a step of one task does to the invariant and the measure.
  abbrev pub Good : State → State → Type 0
  Good s t = Inv t × (measure t < measure s)

  abbrev Goes : State → ℕ → Type 0
  Goes s k = CanStep (step o) s k

module _ {o : Options} (fit : o.tasks < 2 ^ 64) {s : State} (inv : Inv o s) (k : ℕ) where
  -- The counter has room for one more as long as a task is left.
  finish :
      (t : Task)
      → get_elem? s.tasks k ≡ some t
      → is_finished t ≡ 0
      → Good o s (record { counter = u64 (s.counter + 1); tasks = set s.tasks k finished })
  finish t at left = (
    record {
      counted = omega (arith, inv.counted, one_more, bound);
      all_tasks = length-set s.tasks k finished ∙ inv.all_tasks;
    },
    omega (arith, total-set steps_left s.tasks k t finished at, waits t left),
  )
    where
      one_more : total is_finished (set s.tasks k finished) + 0 ≡ total is_finished s.tasks + 1
      one_more = omega (arith, total-set is_finished s.tasks k t finished at, left)

      bound : total is_finished (set s.tasks k finished) < 2 ^ 64
      bound = omega (
        arith,
        fit,
        finished-le (set s.tasks k finished),
        length-set s.tasks k finished,
        inv.all_tasks,
      )

      waits : (u : Task) → is_finished u ≡ 0 → 0 < steps_left u
      waits starting h = omega arith
      waits sleeping h = omega arith
      waits finished h = absurd (omega arith)

  task-Good :
      (t : Task)
      → get_elem? s.tasks k ≡ some t
      → WhenSome (Good o s) (put_task s k (sleep_task o.sleep_ms s.counter t))
  unfolding sleep_task
  task-Good starting at = elim (Bool-cases (ltb 0 o.sleep_ms)) [
    | inl sleeps ↦ rw sleeps (
      (record {
        counted = omega (arith, inv.counted, total-set is_finished s.tasks k starting sleeping at);
        all_tasks = length-set s.tasks k sleeping ∙ inv.all_tasks;
      }),
      omega (arith, total-set steps_left s.tasks k starting sleeping at),
    )
    | inr straight ↦ rw straight (finish starting at refl)
  ]
  task-Good sleeping at = finish sleeping at refl
  task-Good finished at = tt

  pub step-Good : WhenSome (Good o s) (step o s k)
  unfolding step
  step-Good = elim (Option-cases (get_elem? s.tasks k)) [
    | inl out ↦ rw (out, step) tt
    | inr (t, at) ↦ rw (at, step) (task-Good t at)
  ]
