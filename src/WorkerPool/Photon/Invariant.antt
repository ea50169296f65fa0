-- ===== src/WorkerPool/Photon/Invariant.antt =====
-- What holds in every state of the Photon worker pool.
use zio_benchmarks.Photon.{Photon}
use zio_benchmarks.Shared.{ℕ, ◌+◌, ◌<◌, ◌≡◌, Bool, true, false, bit_xor, total, All, length}
use zio_benchmarks.Shared.XorTotal.{xor_total}
use zio_benchmarks.WorkerPool.Buffer.{is_sentinel, is_item, value_work, ItemsFirst}
use zio_benchmarks.WorkerPool.Expected.{expected_checksum}
use zio_benchmarks.WorkerPool.Asio.{Options}
use zio_benchmarks.WorkerPool.Photon.{Memory, State}
use zio_benchmarks.WorkerPool.Photon.Slots.{IsValid, contents, used, capacity}
use zio_benchmarks.WorkerPool.Photon.Weights.{
  reserved, pending, holds, is_producing, is_busy, is_stopped, took, took_last, is_main,
  is_consumer, owed, worth, Fits,
}

-- 1 for a mutex that is held.
abbrev pub flag : Bool → ℕ
flag true = 1
flag false = 0

module _ (Ph : Photon) (o : Options) where
  open Ph use {count, is_locked}

  -- The work that is in the queue and in the checksum.
  abbrev pub stored : Memory Ph → ℕ
  stored m = bit_xor (xor_total (value_work o.work_iters) (contents m.queue.ring)) m.checksum

  pub record Inv (s : State Ph) : Type 0 where
    pub valid : IsValid s.memory.queue.ring
    -- Every slot of the array is free, reserved, or in use.
    pub slots :
        count s.memory.queue.space + used s.memory.queue.ring + total reserved s.threads ≡ capacity
    pub loads : count s.memory.queue.items + total pending s.threads ≡ used s.memory.queue.ring
    pub locked : total holds s.threads ≡ flag (is_locked s.memory.queue.mu)
    pub producers_left :
        count s.memory.producers_done
          + total is_producing s.threads
          + total (took o.producers) s.threads
        ≡ o.producers
    pub consumers_left :
        count s.memory.consumers_done
          + total is_busy s.threads
          + total (took_last o.consumers) s.threads
        ≡ o.consumers
    pub one_main : total is_main s.threads ≡ 1
    pub all_threads : length s.threads ≡ o.consumers + o.producers + 1
    pub all_consumers : total is_consumer s.threads ≡ o.consumers
    -- One sentinel for each consumer is owed, in the queue, or read.
    pub sentinels :
        total is_sentinel (contents s.memory.queue.ring)
          + total is_stopped s.threads
          + total (owed o.consumers) s.threads
        ≡ o.consumers
    pub early : 0 < total is_producing s.threads → total (owed o.consumers) s.threads ≡ o.consumers
    pub ordered : ItemsFirst (contents s.memory.queue.ring)
    pub cleared : 0 < total is_stopped s.threads → total is_item (contents s.memory.queue.ring) ≡ 0
    pub fits : All (Fits o.consumers) s.threads
    pub ledger :
        bit_xor (xor_total (worth o.work_iters) s.threads) (stored s.memory)
        ≡ expected_checksum o.work_iters o.items
