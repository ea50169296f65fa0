-- ===== src/WorkerPool/Photon/Ending.antt =====
-- The end of the Photon worker pool: when `main` returns, and what is left in the queue then.
use zio_benchmarks.Photon.{Photon}
use zio_benchmarks.Shared.{
  ℕ, ◌+◌, ◌<◌, ◌≡◌, refl, ap₂, ◌∙◌, List, [], ◌∷◌, some, none, arith, All, total, sym, ◌≤◌,
  get_elem?, bit_xor, le-total,
}
use zio_benchmarks.Shared.Xor.{zero-xor}
use zio_benchmarks.Shared.XorTotal.{xor_total}
use zio_benchmarks.WorkerPool.Buffer.{value_work, length-total}
use zio_benchmarks.WorkerPool.Expected.{expected_checksum}
use zio_benchmarks.WorkerPool.Asio.{Options}
use zio_benchmarks.WorkerPool.Asio.Safety.{length-nil}
use zio_benchmarks.WorkerPool.Photon.{
  Thread, producing, produced, consuming, leaving, signing, consumed, awaiting_producers, stopping,
  awaiting_consumers, ended, State, thread_step, IsOver,
}
use zio_benchmarks.WorkerPool.Photon.Slots.{contents}
use zio_benchmarks.WorkerPool.Photon.Weights.{
  is_busy, is_consumer, is_stopped, is_main, is_ended, is_unended, took, took_last, worth,
}
use zio_benchmarks.WorkerPool.Photon.Invariant.{Inv}
use zio_benchmarks.WorkerPool.Photon.Going.{total_add, total_le, All-IsOver}
use zio_benchmarks.WorkerPool.Photon.Roles.{is_consumer-le, is_main-split}

pub over_blocked :
    (Ph : Photon) (o : Options) (s : State Ph) (t : Thread)
    → IsOver t
    → thread_step Ph o s.memory t ≡ none
unfolding thread_step
over_blocked Ph o s (producing i e pc) h = absurd h
over_blocked Ph o s produced h = refl
over_blocked Ph o s (consuming acc pc) h = absurd h
over_blocked Ph o s (leaving acc) h = absurd h
over_blocked Ph o s signing h = absurd h
over_blocked Ph o s consumed h = refl
over_blocked Ph o s awaiting_producers h = absurd h
over_blocked Ph o s (stopping c pc) h = absurd h
over_blocked Ph o s awaiting_consumers h = absurd h
over_blocked Ph o s ended h = refl

over_idle : (iters : ℕ) (t : Thread) → IsOver t → (is_busy t ≡ 0) × (worth iters t ≡ 0)
over_idle iters (producing i e pc) h = absurd h
over_idle iters produced h = (refl, refl)
over_idle iters (consuming acc pc) h = absurd h
over_idle iters (leaving acc) h = absurd h
over_idle iters signing h = absurd h
over_idle iters consumed h = (refl, refl)
over_idle iters awaiting_producers h = absurd h
over_idle iters (stopping c pc) h = absurd h
over_idle iters awaiting_consumers h = absurd h
over_idle iters ended h = (refl, refl)

over_busy : (ts : List Thread) → All IsOver ts → total is_busy ts ≡ 0
over_busy [] h = refl
over_busy (t ∷ ts) h = omega (arith, (over_idle 0 t h.0).0, over_busy ts h.1)

over_worth : (iters : ℕ) (ts : List Thread) → All IsOver ts → xor_total (worth iters) ts ≡ 0
over_worth iters [] h = refl
over_worth iters (t ∷ ts) h =
    ap₂ bit_xor (over_idle iters t h.0).1 (over_worth iters ts h.1) ∙ zero-xor 0

module _ (Ph : Photon) {o : Options} {s : State Ph} (inv : Inv Ph o s) where
  -- `main` is the last thread to return.
  pub main_last : (k : ℕ) → get_elem? s.threads k ≡ some ended → All IsOver s.threads
  main_last k at =
      All-IsOver s.threads
        (omega (arith, inv.producers_left, le-total (took o.producers) s.threads k ended at))
        (omega (arith, inv.consumers_left, le-total (took_last o.consumers) s.threads k ended at))
        (omega (
          arith,
          total_add is_unended is_ended is_main (is_main-split 1 1 1 0 0 0 0 1 refl refl refl refl)
              s.threads,
          inv.one_main,
          le-total is_ended s.threads k ended at,
        ))

  module _ (some_consumer : 0 < o.consumers) (over : All IsOver s.threads) where
    over_empty : contents s.memory.queue.ring ≡ []
    over_empty = length-nil (contents s.memory.queue.ring) (
        omega (
          arith,
          length-total (contents s.memory.queue.ring),
          stopped,
          some_consumer,
          inv.sentinels,
          inv.cleared (omega (arith, stopped, some_consumer)),
        ))
      where
        stopped : o.consumers ≤ total is_stopped s.threads
        stopped = omega (
          arith,
          inv.all_consumers,
          over_busy s.threads over,
          total_add is_busy is_stopped (λ t. is_busy t + is_stopped t) (λ t. refl) s.threads,
          total_le is_consumer (λ t. is_busy t + is_stopped t) is_consumer-le s.threads,
        )

    over_checksum : s.memory.checksum ≡ expected_checksum o.work_iters o.items
    over_checksum =
        sym (
          ap₂
            (λ w vs. bit_xor w (bit_xor (xor_total (value_work o.work_iters) vs) s.memory.checksum))
            (over_worth o.work_iters s.threads over) over_empty
          ∙ zero-xor (bit_xor 0 s.memory.checksum)
          ∙ zero-xor s.memory.checksum)
        ∙ inv.ledger

    -- What is left when every thread has returned.
    pub over_result :
        (contents s.memory.queue.ring ≡ [])
        × (s.memory.checksum ≡ expected_checksum o.work_iters o.items)
    over_result = (over_empty, over_checksum)
