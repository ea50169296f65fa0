-- ===== src/WorkerPool/Asio/Once/Runs.antt =====
-- How often an item is handed to `work` along a run of the Asio worker pool.
use zio_benchmarks.Channel.{Channel}
use zio_benchmarks.Schedule.{or_stay, run}
use zio_benchmarks.Schedule.Fair.{run-Inv}
use zio_benchmarks.Shared.{
  ℕ, zero, suc, ◌+◌, ◌<◌, ◌≤◌, ◌≡◌, refl, ap, ap₂, List, [], ◌∷◌, total, total-All_same, arith,
}
use zio_benchmarks.WorkerPool.Buffer.{total-append}
use zio_benchmarks.WorkerPool.Items.{
  is_value, count, is_below, ahead, ahead-is_below, is_below-zero,
}
use zio_benchmarks.WorkerPool.Asio.{
  Options, returned, Pool, Coroutine, spawn_producers, step, init, IsJoined,
}
use zio_benchmarks.WorkerPool.Asio.Invariant.{Inv}
use zio_benchmarks.WorkerPool.Asio.Ranges.{
  IsBounded, cut, range_start-cut, range_end-cut, cut_mono, cut-zero, cut-producers,
}
use zio_benchmarks.WorkerPool.Asio.Preservation.{init-Inv}
use zio_benchmarks.WorkerPool.Asio.Runs.{terminating}
use zio_benchmarks.WorkerPool.Asio.Safety.{joined_empty}
use zio_benchmarks.WorkerPool.Asio.Once.{unsent, handed, all_handed}
use zio_benchmarks.WorkerPool.Asio.Once.Steps.{left, step-left}

module _ {o : Options} (fit : IsBounded o) (n : ℕ) where
  -- The ranges of `left` producers from `p` on have the items between their cuts.
  spawned_unsent :
      (p more : ℕ)
      → p + more ≤ o.producers
      → total (unsent n) (spawn_producers o p more) + is_below n (cut o p)
        ≡ is_below n (cut o (p + more))
  unfolding spawn_producers
  spawned_unsent p zero h =
      let same : p + 0 ≡ p = omega arith in omega (arith, ap (λ q. is_below n (cut o q)) same)
  spawned_unsent p (suc more) h = omega (
    arith,
    ap₂ (λ a b. ahead n a b) (range_start-cut fit p (omega arith))
        (range_end-cut fit p (omega arith)),
    ahead-is_below n (cut o p) (cut o (p + 1)) (cut_mono fit p (p + 1) (omega arith)),
    spawned_unsent (p + 1) more (omega arith),
    (let same : p + 1 + more ≡ p + suc more = omega arith in ap (λ q. is_below n (cut o q)) same),
  )

module _ (C : Channel) {o : Options} (fit : IsBounded o) (some_consumer : 0 < o.consumers)
    (n : ℕ) where
  open C use {buffered, make_lem}

  init-left : left C (init-Inv C fit) n (init C o) ≡ is_below n o.items
  unfolding init
  init-left = omega (
    arith,
    spawned_unsent fit n 0 o.producers (omega arith),
    ap (is_below n) (cut-zero fit),
    is_below-zero n,
    ap (is_below n) (cut-producers fit),
    ap (count (suc n)) (make_lem 256).0,
    (let same : 0 + o.producers ≡ o.producers = omega arith in ap (λ q. is_below n (cut o q)) same),
  )

  -- What is left and what has been handed to `work` are together what there was.
  conserved :
      (s : Pool C.Chan) (ks : List Coroutine) (inv : Inv C o s)
      → left C inv n (run (step C o) s ks) + count (suc n) (all_handed C o s ks) ≡ left C inv n s
  unfolding run all_handed
  conserved s [] inv = omega arith
  conserved s (k ∷ ks) inv = omega (
    arith,
    conserved (or_stay s (step C o s k)) ks
        (run-Inv (terminating C fit some_consumer) s (k ∷ []) inv),
    step-left C inv n k,
    total-append (is_value (suc n)) (handed C s k) (all_handed C o (or_stay s (step C o s k)) ks),
  )

  accounted :
      (ks : List Coroutine)
      → left C (init-Inv C fit) n (run (step C o) (init C o) ks)
          + count (suc n) (all_handed C o (init C o) ks)
        ≡ is_below n o.items
  accounted ks = omega (arith, init-left, conserved (init C o) ks (init-Inv C fit))

  -- The options fit 64 bits, with their product, and there are a producer and a consumer. Whatever the
  -- schedule, the value n + 1 is handed to `work` at most once if n is an item, and never if it is not.
  pub never_twice :
      (ks : List Coroutine) → count (suc n) (all_handed C o (init C o) ks) ≤ is_below n o.items
  never_twice ks = omega (arith, accounted ks)

  -- The options fit 64 bits, with their product, and there are a producer and a consumer. Whatever the
  -- schedule, once every coroutine has returned, the value n + 1 has been handed to `work` once if n is
  -- an item, and never if it is not.
  pub handed_once :
      (ks : List Coroutine)
      → IsJoined (run (step C o) (init C o) ks)
      → count (suc n) (all_handed C o (init C o) ks) ≡ is_below n o.items
  handed_once ks joined =
      let s = run (step C o) (init C o) ks in
      omega (
        arith,
        accounted ks,
        total-All_same returned (unsent n) s.producers joined.0 refl,
        ap (count (suc n)) (
            joined_empty C
              (run-Inv (terminating C fit some_consumer) (init C o) ks (init-Inv C fit))
              some_consumer joined),
      )
