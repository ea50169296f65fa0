-- ===== src/WorkerPool/Photon/Once/Runs.antt =====
-- How often an item is handed to `work` along a run of the Photon worker pool.
use zio_benchmarks.Photon.{Photon}
use zio_benchmarks.Schedule.{or_stay, run}
use zio_benchmarks.Schedule.Fair.{run-Inv}
use zio_benchmarks.Shared.{
  ℕ, zero, suc, ◌+◌, ◌<◌, ◌≤◌, ◌≡◌, refl, ap, ap₂, List, [], ◌∷◌, ◌++◌, some, get_elem?, total, All,
  arith, length, replicate,
}
use zio_benchmarks.WorkerPool.Buffer.{total-append}
use zio_benchmarks.WorkerPool.Items.{
  is_value, count, is_below, ahead, ahead-is_below, is_below-zero,
}
use zio_benchmarks.WorkerPool.Asio.{Options}
use zio_benchmarks.WorkerPool.Asio as Asio
use zio_benchmarks.WorkerPool.Asio.Ranges.{
  IsBounded, cut, range_start-cut, range_end-cut, cut_mono, cut-zero, cut-producers,
}
use zio_benchmarks.WorkerPool.Photon.{
  Thread, producing, produced, consuming, leaving, signing, fetching, consumed, awaiting_producers,
  stopping, awaiting_consumers, ended, range_start, range_end, spawn_producers, State, step, init,
  IsOver,
}
use zio_benchmarks.WorkerPool.Photon.Slots.{capacity, contents, new_ring_lem}
use zio_benchmarks.WorkerPool.Photon.Invariant.{Inv}
use zio_benchmarks.WorkerPool.Photon.Spawning.{init-Inv}
use zio_benchmarks.WorkerPool.Photon.Runs.{terminating, main_ends_last}
use zio_benchmarks.WorkerPool.Photon.Once.{carried, handed, all_handed}
use zio_benchmarks.WorkerPool.Photon.Once.Steps.{step-left}

module _ {o : Options} (fit : IsBounded o) (n : ℕ) where
  -- The ranges of `more` producers from `p` on have the items between their cuts.
  spawned_carried :
      (p more : ℕ)
      → p + more ≤ o.producers
      → total (carried n) (spawn_producers o p more) + is_below n (cut o p)
        ≡ is_below n (cut o (p + more))
  unfolding spawn_producers range_start range_end Asio.range_start Asio.range_end
  spawned_carried p zero h =
      let same : p + 0 ≡ p = omega arith in omega (arith, ap (λ q. is_below n (cut o q)) same)
  spawned_carried p (suc more) h = omega (
    arith,
    own,
    ahead-is_below n (cut o p) (cut o (p + 1)) (cut_mono fit p (p + 1) (omega arith)),
    spawned_carried (p + 1) more (omega arith),
    (let same : p + 1 + more ≡ p + suc more = omega arith in ap (λ q. is_below n (cut o q)) same),
  )
    where
      first : range_start o p + 0 ≡ cut o p
      first = omega (arith, range_start-cut fit p (omega arith))

      own : ahead n (range_start o p + 0) (range_end o p) ≡ ahead n (cut o p) (cut o (p + 1))
      own = ap₂ (λ a b. ahead n a b) first (range_end-cut fit p (omega arith))

carried_over : (n : ℕ) (ts : List Thread) → All IsOver ts → total (carried n) ts ≡ 0
carried_over n [] over = refl
carried_over n (t ∷ ts) over = omega (arith, nothing t over.0, carried_over n ts over.1)
  where
    nothing : (t : Thread) → IsOver t → carried n t ≡ 0
    nothing (producing i end pc) h = absurd h
    nothing produced h = refl
    nothing (consuming acc pc) h = absurd h
    nothing (leaving acc) h = absurd h
    nothing signing h = absurd h
    nothing consumed h = refl
    nothing awaiting_producers h = absurd h
    nothing (stopping c pc) h = absurd h
    nothing awaiting_consumers h = absurd h
    nothing ended h = refl

crew_carried :
    (n m : ℕ) (ts : List Thread)
    → total (carried n) (replicate m (consuming 0 fetching) ++ ts) ≡ total (carried n) ts
crew_carried n zero ts = refl
crew_carried n (suc m) ts = omega (arith, crew_carried n m ts)

module _ (Ph : Photon) {o : Options} (fit : IsBounded o) (some_consumer : 0 < o.consumers)
    (buf : List ℕ) (sized : length buf ≡ capacity) (n : ℕ) where
  -- How often item `n` is with a thread or in the array.
  abbrev kept : State Ph → ℕ
  kept s = total (carried n) s.threads + count (suc n) (contents s.memory.queue.ring)

  init-kept : kept (init Ph o buf) ≡ is_below n o.items
  unfolding init
  init-kept = omega (
    arith,
    crew_carried n o.consumers (spawn_producers o 0 o.producers),
    spawned_carried fit n 0 o.producers (omega arith),
    ap (is_below n) (cut-zero fit),
    is_below-zero n,
    ap (is_below n) (cut-producers fit),
    ap (count (suc n)) (new_ring_lem buf sized).1,
    (let same : 0 + o.producers ≡ o.producers = omega arith in ap (λ q. is_below n (cut o q)) same),
  )

  -- What is left and what has been handed to `work` are together what there was.
  conserved :
      (s : State Ph) (ks : List ℕ)
      → Inv Ph o s
      → kept (run (step Ph o) s ks) + count (suc n) (all_handed Ph o s ks) ≡ kept s
  unfolding run all_handed
  conserved s [] inv = omega arith
  conserved s (k ∷ ks) inv = omega (
    arith,
    conserved (or_stay s (step Ph o s k)) ks
        (run-Inv (terminating Ph fit some_consumer) s (k ∷ []) inv),
    step-left Ph inv n k,
    total-append (is_value (suc n)) (handed Ph s k)
        (all_handed Ph o (or_stay s (step Ph o s k)) ks),
  )

  accounted :
      (ks : List ℕ)
      → kept (run (step Ph o) (init Ph o buf) ks)
          + count (suc n) (all_handed Ph o (init Ph o buf) ks)
        ≡ is_below n o.items
  accounted ks = omega (arith, init-kept, conserved (init Ph o buf) ks (init-Inv Ph fit buf sized))

  -- The options fit 64 bits, with their product, there are a producer and a consumer, and the array has
  -- 256 slots. Whatever the schedule, the value n + 1 is handed to `work` at most once if n is an item,
  -- and never if it is not.
  pub worked_at_most_once :
      (ks : List ℕ) → count (suc n) (all_handed Ph o (init Ph o buf) ks) ≤ is_below n o.items
  worked_at_most_once ks = omega (arith, accounted ks)

  -- The options fit 64 bits, with their product, there are a producer and a consumer, and the array has
  -- 256 slots. Whatever the schedule, once `main` has returned, the value n + 1 has been handed to `work`
  -- once if n is an item, and never if it is not.
  pub worked_once :
      (ks : List ℕ) (k : ℕ)
      → get_elem? (run (step Ph o) (init Ph o buf) ks).threads k ≡ some ended
      → count (suc n) (all_handed Ph o (init Ph o buf) ks) ≡ is_below n o.items
  worked_once ks k at =
      let s = run (step Ph o) (init Ph o buf) ks in
      let (over, empty_queue, right) = main_ends_last Ph fit some_consumer buf sized ks k at in
      omega (arith, accounted ks, carried_over n s.threads over, ap (count (suc n)) empty_queue)
