-- ===== src/WorkerPool/Asio/Runs.antt =====
-- Whole runs of the Asio worker pool, along any schedule.
use mathlib.Core.List.{flatten}
use zio_benchmarks.Channel.{Channel}
use zio_benchmarks.Schedule.{run, steps_taken, CanStep, Terminating}
use zio_benchmarks.Schedule.Fair.{Covers, run-Inv, steps_taken-le, rounds_finish}
use zio_benchmarks.Shared.{
  ℕ, zero, suc, ◌+◌, ◌*◌, ◌-◌, ◌<◌, ◌≤◌, ◌≡◌, ◌⊎◌, refl, ap, List, [], none, arith, All, total,
  length, inl, inr, get_elem?, Option-cases, All-get_elem?, replicate, get_elem?-lt_length,
}
use zio_benchmarks.WorkerPool.Buffer.{is_item}
use zio_benchmarks.WorkerPool.Expected.{expected_checksum}
use zio_benchmarks.WorkerPool.Asio.{
  Options, returned, receiving, finished, Pool, Coroutine, producer, consumer, spawn_producers,
  producer_step, consumer_step, step, init, IsJoined,
}
use zio_benchmarks.WorkerPool.Asio.Measures.{is_sending, is_stopped}
use zio_benchmarks.WorkerPool.Asio.Invariant.{Inv}
use zio_benchmarks.WorkerPool.Asio.Ranges.{
  IsBounded, cut, range_start-cut, range_end-cut, cut_mono, cut-zero, cut-producers,
}
use zio_benchmarks.WorkerPool.Asio.Preservation.{step-Inv, init-Inv}
use zio_benchmarks.WorkerPool.Asio.Safety.{joined_empty, joined_checksum}
use zio_benchmarks.WorkerPool.Asio.Progress.{IsJoined-or_goes_on}
use zio_benchmarks.WorkerPool.Asio.Termination.{
  producer_steps, consumer_steps, measure, step-Lowers, step_bound,
}

module _ {o : Options} (fit : IsBounded o) where
  spawned_steps :
      (c p left : ℕ)
      → p + left ≤ o.producers
      → total (producer_steps c) (spawn_producers o p left)
        ≡ 2 * (cut o (p + left) - cut o p) + left * (2 * c + 2)
  unfolding spawn_producers
  spawned_steps c p zero h = omega (arith, cut_mono fit (p + 0) p (omega arith))
  spawned_steps c p (suc left) h = omega (
    arith,
    spawned_steps c (p + 1) left (omega arith),
    range_start-cut fit p (omega arith),
    range_end-cut fit p (omega arith),
    cut_mono fit p (p + 1) (omega arith),
    cut_mono fit (p + 1) (p + 1 + left) (omega arith),
    (let same : p + 1 + left ≡ p + suc left = omega arith in ap (cut o) same),
  )

replicated_steps : (n : ℕ) → total consumer_steps (replicate n (receiving 0)) ≡ 2 * n
replicated_steps zero = refl
replicated_steps (suc n) = omega (arith, replicated_steps n)

pub measure-init : (C : Channel) {o : Options} → IsBounded o → measure C o (init C o) ≡ step_bound o
unfolding init
measure-init C {o} fit = omega (
  arith,
  spawned_steps fit o.consumers 0 o.producers (omega arith),
  cut-zero fit,
  cut-producers fit,
  (let same : 0 + o.producers ≡ o.producers = omega arith in ap (cut o) same),
  replicated_steps o.consumers,
  ap length (C.make_lem 256).0,
)

-- The coroutines that `main` spawns.
abbrev pub IsSpawned : Options → Coroutine → Type 0
IsSpawned o (producer i) = i < o.producers
IsSpawned o (consumer j) = j < o.consumers

module _ (C : Channel) (o : Options) where
  -- Coroutines that have returned are not resumed.
  pub joined_blocked : (s : Pool C.Chan) → IsJoined s → (k : Coroutine) → step C o s k ≡ none
  unfolding step
  joined_blocked s joined (producer i) = elim (Option-cases (get_elem? s.producers i)) [
    | inl out ↦ rw (out, step)
    | inr (p, at) ↦
        rw (at, step, All-get_elem? (λ q. q ≡ returned) s.producers i joined.0 at, producer_step)
  ]
  joined_blocked s joined (consumer j) = elim (Option-cases (get_elem? s.consumers j)) [
    | inl out ↦ rw (out, step)
    | inr (c, at) ↦
        rw (at, step, All-get_elem? (λ q. q ≡ finished) s.consumers j joined.1 at, consumer_step)
  ]

  no_producer :
      (s : Pool C.Chan) (i : ℕ) → get_elem? s.producers i ≡ none → step C o s (producer i) ≡ none
  unfolding step
  no_producer s i out = rw (out, step)

  no_consumer :
      (s : Pool C.Chan) (j : ℕ) → get_elem? s.consumers j ≡ none → step C o s (consumer j) ≡ none
  unfolding step
  no_consumer s j out = rw (out, step)

  can-IsSpawned :
      (s : Pool C.Chan) (k : Coroutine) → Inv C o s → CanStep (step C o) s k → IsSpawned o k
  can-IsSpawned s (producer i) inv (t, e) = elim (Option-cases (get_elem? s.producers i)) [
    | inl out ↦ cc (no_producer s i out, e)
    | inr (p, at) ↦ omega (arith, get_elem?-lt_length s.producers i at, inv.all_producers)
  ]
  can-IsSpawned s (consumer j) inv (t, e) = elim (Option-cases (get_elem? s.consumers j)) [
    | inl out ↦ cc (no_consumer s j out, e)
    | inr (c, at) ↦ omega (arith, get_elem?-lt_length s.consumers j at, inv.all_consumers)
  ]

module _ (C : Channel) {o : Options} (fit : IsBounded o) (some_consumer : 0 < o.consumers) where
  pub progress :
      (s : Pool C.Chan)
      → Inv C o s
      → IsJoined s ⊎ ((k : Coroutine) × IsSpawned o k × CanStep (step C o) s k)
  progress s inv = elim (IsJoined-or_goes_on C some_consumer inv) [
    | inl joined ↦ inl joined
    | inr (k, can) ↦ inr (k, can-IsSpawned C o s k inv can, can)
  ]

  abbrev pub terminating : Terminating (step C o)
  terminating = record {
    Inv = Inv C o;
    Done = IsJoined;
    Member = IsSpawned o;
    measure = measure C o;
    keeps = λ s k inv. step-Inv C fit inv k;
    lowers = λ s k inv. step-Lowers C fit inv k;
    progress = progress;
    stays = λ s k joined. joined_blocked C o s joined k;
  }

  pub Inv-after : (ks : List Coroutine) → Inv C o (run (step C o) (init C o) ks)
  Inv-after ks = run-Inv terminating (init C o) ks (init-Inv C fit)

  -- Whatever the order in which the coroutines ran: once all have returned, the channel is empty and
  -- the checksum is the exclusive or of the work on every item. The options fit 64 bits, with their
  -- product, and there are a producer and a consumer.
  pub checksum_agrees :
      (ks : List Coroutine)
      → IsJoined (run (step C o) (init C o) ks)
      → let s = run (step C o) (init C o) ks in
        (C.buffered s.memory.chan ≡ [])
        × (s.memory.checksum ≡ expected_checksum o.work_iters o.items)
  checksum_agrees ks joined = (
    joined_empty C (Inv-after ks) some_consumer joined,
    joined_checksum C (Inv-after ks) some_consumer joined,
  )

  -- Every item is drained before any consumer stops: after any schedule, if a consumer has left its
  -- loop, then no producer is still sending items and no item is in the channel. The options fit 64
  -- bits, with their product, and there are a producer and a consumer.
  pub drained_before_stop :
      (ks : List Coroutine)
      → 0 < total is_stopped (run (step C o) (init C o) ks).consumers
      → let s = run (step C o) (init C o) ks in
        (total is_sending s.producers ≡ 0) × (total is_item (C.buffered s.memory.chan) ≡ 0)
  drained_before_stop ks h = let inv = Inv-after ks in (ground (arith, inv.early), inv.cleared h)

  -- No deadlock: after any schedule either every coroutine has returned or one that `main` spawned
  -- can go on. The options fit 64 bits, with their product, and there are a producer and a consumer.
  pub no_deadlock :
      (ks : List Coroutine)
      → let s = run (step C o) (init C o) ks in
        IsJoined s ⊎ ((k : Coroutine) × IsSpawned o k × CanStep (step C o) s k)
  no_deadlock ks = progress (run (step C o) (init C o) ks) (Inv-after ks)

  -- In no schedule do more than `step_bound` resumptions go on. The options fit 64 bits, with their
  -- product, and there are a producer and a consumer.
  pub steps_bounded : (ks : List Coroutine) → steps_taken (step C o) (init C o) ks ≤ step_bound o
  steps_bounded ks =
      omega (arith, steps_taken-le terminating (init C o) ks (init-Inv C fit), measure-init C fit)

  -- Total correctness. If the schedule goes through all the coroutines at least `step_bound` times,
  -- in any order each time, then at its end every coroutine has returned, the channel is empty, and
  -- the checksum is the exclusive or of the work on every item. The options fit 64 bits, with their
  -- product, and there are a producer and a consumer.
  pub fair_run_correct :
      (rounds : List (List Coroutine))
      → All (Covers terminating) rounds
      → step_bound o ≤ length rounds
      → let s = run (step C o) (init C o) (flatten rounds) in
        IsJoined s
        × (C.buffered s.memory.chan ≡ [])
        × (s.memory.checksum ≡ expected_checksum o.work_iters o.items)
  fair_run_correct rounds cover enough =
      let joined : IsJoined (run (step C o) (init C o) (flatten rounds)) =
        rounds_finish terminating (init C o) rounds (init-Inv C fit) cover
          (omega (arith, measure-init C fit)) in
      let (empty_channel, right) = checksum_agrees (flatten rounds) joined in
      (joined, empty_channel, right)
