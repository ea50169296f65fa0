-- ===== src/WorkerPool/Photon/Runs.antt =====
-- Whole runs of the Photon worker pool, along any schedule.
use mathlib.Core.List.{flatten}
use zio_benchmarks.Photon.{Photon}
use zio_benchmarks.Schedule.{run, steps_taken, CanStep, Terminating}
use zio_benchmarks.Schedule.Fair.{Covers, run-Inv, steps_taken-le, rounds_finish}
use zio_benchmarks.Shared.{
  ℕ, zero, suc, ◌+◌, ◌*◌, ◌-◌, ◌<◌, ◌≤◌, ◌≡◌, ◌⊎◌, ap, inl, inr, List, [], ◌++◌, none, some, Bool,
  true, false, arith, All, total, length, get_elem?, Option-cases, All-get_elem?, replicate,
  get_elem?-lt_length,
}
use zio_benchmarks.WorkerPool.Expected.{expected_checksum}
use zio_benchmarks.WorkerPool.Asio
use zio_benchmarks.WorkerPool.Asio.{Options}
use zio_benchmarks.WorkerPool.Asio.Ranges.{
  IsBounded, cut, range_start-cut, range_end-cut, cut_mono, cut-zero, cut-producers,
}
use zio_benchmarks.WorkerPool.Photon.{
  fetching, Thread, consuming, ended, State, range_start, range_end, spawn_producers, step, init,
  IsOver,
}
use zio_benchmarks.WorkerPool.Photon.Slots.{
  capacity, contents, used, new_ring, new_ring_lem, length-contents,
}
use zio_benchmarks.WorkerPool.Photon.Weights.{reserved, holds}
use zio_benchmarks.WorkerPool.Photon.Invariant.{Inv, flag}
use zio_benchmarks.WorkerPool.Photon.Preservation.{step-Inv}
use zio_benchmarks.WorkerPool.Photon.Spawning.{init-Inv}
use zio_benchmarks.WorkerPool.Photon.Ending.{over_blocked, main_last, over_result}
use zio_benchmarks.WorkerPool.Photon.Progress.{All-IsOver-or_goes_on}
use zio_benchmarks.WorkerPool.Photon.Termination.{measure, steps_left, step-Lowers}

-- A bound on the steps of a whole run.
abbrev pub step_limit : Options → ℕ
step_limit o = 9 * o.items + o.producers + 13 * o.consumers + 3

module _ {o : Options} (fit : IsBounded o) where
  spawned_steps :
      (c p left : ℕ)
      → p + left ≤ o.producers
      → total (steps_left c) (spawn_producers o p left) ≡ 9 * (cut o (p + left) - cut o p) + left
  unfolding spawn_producers range_start range_end Asio.range_start Asio.range_end
  spawned_steps c p zero h = omega (arith, cut_mono fit (p + 0) p (omega arith))
  spawned_steps c p (suc left) h = omega (
    arith,
    spawned_steps c (p + 1) left (omega arith),
    range_start-cut fit p (omega arith),
    range_end-cut fit p (omega arith),
    cut_mono fit p (p + 1) (omega arith),
    cut_mono fit (p + 1) (p + 1 + left) (omega arith),
    (let same : p + 1 + left ≡ p + suc left = omega arith in ap (cut o) same),
  )

  crew_steps :
      (c n : ℕ) (ts : List Thread)
      → total (steps_left c) (replicate n (consuming 0 fetching) ++ ts)
        ≡ 4 * n + total (steps_left c) ts
  crew_steps c zero ts = omega arith
  crew_steps c (suc n) ts = omega (arith, crew_steps c n ts)

  measure-init :
      (Ph : Photon) (buf : List ℕ)
      → length buf ≡ capacity
      → measure Ph o (init Ph o buf) ≡ step_limit o
  unfolding init
  measure-init Ph buf sized = omega (
    arith,
    crew_steps o.consumers o.consumers (spawn_producers o 0 o.producers),
    spawned_steps o.consumers 0 o.producers (omega arith),
    cut-zero fit,
    cut-producers fit,
    (let same : 0 + o.producers ≡ o.producers = omega arith in ap (cut o) same),
    length-contents (new_ring buf),
    ap length (new_ring_lem buf sized).1,
  )

module _ (Ph : Photon) (o : Options) where
  no_thread : (s : State Ph) (k : ℕ) → get_elem? s.threads k ≡ none → step Ph o s k ≡ none
  unfolding step
  no_thread s k out = rw (out, step)

  pub over_stays : (s : State Ph) (k : ℕ) → All IsOver s.threads → step Ph o s k ≡ none
  unfolding step
  over_stays s k over = elim (Option-cases (get_elem? s.threads k)) [
    | inl out ↦ rw (out, step)
    | inr (t, at) ↦ rw (at, step, over_blocked Ph o s t (All-get_elem? IsOver s.threads k over at))
  ]

module _ (Ph : Photon) {o : Options} (fit : IsBounded o) (some_consumer : 0 < o.consumers) where
  -- The threads are numbered from `main`, 0.
  pub progress :
      (s : State Ph)
      → Inv Ph o s
      → All IsOver s.threads
        ⊎ ((k : ℕ) × (k < o.consumers + o.producers + 1) × CanStep (step Ph o) s k)
  progress s inv = elim (All-IsOver-or_goes_on Ph some_consumer inv) [
    | inl over ↦ inl over
    | inr (k, (t, e)) ↦ elim (Option-cases (get_elem? s.threads k)) [
      | inl out ↦ cc (no_thread Ph o s k out, e)
      | inr (u, at) ↦
          inr (k, omega (arith, get_elem?-lt_length s.threads k at, inv.all_threads), (t, e))
    ]
  ]

  abbrev pub terminating : Terminating (step Ph o)
  terminating = record {
    Inv = Inv Ph o;
    Done = λ s. All IsOver s.threads;
    Member = λ k. k < o.consumers + o.producers + 1;
    measure = measure Ph o;
    keeps = λ s k inv. step-Inv Ph fit inv k;
    lowers = λ s k inv. step-Lowers Ph fit inv k;
    progress = progress;
    stays = λ s k over. over_stays Ph o s k over;
  }

  module _ (buf : List ℕ) (sized : length buf ≡ capacity) where
    Inv-after : (ks : List ℕ) → Inv Ph o (run (step Ph o) (init Ph o buf) ks)
    Inv-after ks = run-Inv terminating (init Ph o buf) ks (init-Inv Ph fit buf sized)

    -- Whatever the order in which the threads ran: once `main` has returned, so has every thread, the
    -- queue is empty, and the checksum is the exclusive or of the work on every item. The options fit
    -- 64 bits, with their product, there are a producer and a consumer, and the array has 256 slots,
    -- whatever they hold at the start.
    pub main_ends_last :
        (ks : List ℕ) (k : ℕ)
        → get_elem? (run (step Ph o) (init Ph o buf) ks).threads k ≡ some ended
        → let s = run (step Ph o) (init Ph o buf) ks in
          All IsOver s.threads
          × (contents s.memory.queue.ring ≡ [])
          × (s.memory.checksum ≡ expected_checksum o.work_iters o.items)
    main_ends_last ks k at =
        let over = main_last Ph (Inv-after ks) k at in
        let (empty_queue, right) = over_result Ph (Inv-after ks) some_consumer over in
        (over, empty_queue, right)

    -- No deadlock: after any schedule either every thread has returned or one of them can go on. The
    -- options fit 64 bits, with their product, there are a producer and a consumer, and the array has
    -- 256 slots.
    pub never_deadlocks :
        (ks : List ℕ)
        → let s = run (step Ph o) (init Ph o buf) ks in
          All IsOver s.threads
          ⊎ ((k : ℕ) × (k < o.consumers + o.producers + 1) × CanStep (step Ph o) s k)
    never_deadlocks ks = progress (run (step Ph o) (init Ph o buf) ks) (Inv-after ks)

    -- After any schedule at most one thread is under the mutex, and the values in the array, the
    -- slots that pushes have reserved and those that pops have yet to give back are together at most
    -- 256. The options fit 64 bits, with their product, there are a producer and a consumer, and the
    -- array has 256 slots.
    pub mutual_exclusion :
        (ks : List ℕ)
        → let s = run (step Ph o) (init Ph o buf) ks in
          (total holds s.threads ≤ 1)
          × (used s.memory.queue.ring + total reserved s.threads ≤ capacity)
    mutual_exclusion ks =
        let inv = Inv-after ks in
        (
          omega (
            arith,
            inv.locked,
            flag-le (Ph.is_locked (run (step Ph o) (init Ph o buf) ks).memory.queue.mu),
          ),
          omega (arith, inv.slots),
        )
      where
        flag-le : (b : Bool) → flag b ≤ 1
        flag-le true = omega arith
        flag-le false = omega arith

    -- In no schedule do more than `step_limit` resumptions go on. The options fit 64 bits, with their
    -- product, there are a producer and a consumer, and the array has 256 slots.
    pub steps_limited : (ks : List ℕ) → steps_taken (step Ph o) (init Ph o buf) ks ≤ step_limit o
    steps_limited ks = omega (
      arith,
      steps_taken-le terminating (init Ph o buf) ks (init-Inv Ph fit buf sized),
      measure-init fit Ph buf sized,
    )

    -- Total correctness. If the schedule goes through all the threads at least `step_limit` times, in
    -- any order each time, then at its end every thread has returned, the queue is empty, and the
    -- checksum is the exclusive or of the work on every item. The options fit 64 bits, with their
    -- product, there are a producer and a consumer, and the array has 256 slots.
    pub fair_run_ends :
        (rounds : List (List ℕ))
        → All (Covers terminating) rounds
        → step_limit o ≤ length rounds
        → let s = run (step Ph o) (init Ph o buf) (flatten rounds) in
          All IsOver s.threads
          × (contents s.memory.queue.ring ≡ [])
          × (s.memory.checksum ≡ expected_checksum o.work_iters o.items)
    fair_run_ends rounds cover enough =
        let over : All IsOver (run (step Ph o) (init Ph o buf) (flatten rounds)).threads =
          rounds_finish terminating (init Ph o buf) rounds (init-Inv Ph fit buf sized) cover
            (omega (arith, measure-init fit Ph buf sized)) in
        let (empty_queue, right) = over_result Ph (Inv-after (flatten rounds)) some_consumer over in
        (over, empty_queue, right)
