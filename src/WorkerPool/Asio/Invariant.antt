-- ===== src/WorkerPool/Asio/Invariant.antt =====
-- What holds in every state of the Asio worker pool.
use zio_benchmarks.Channel.{Channel}
use zio_benchmarks.Shared.{ℕ, ◌+◌, ◌^◌, ◌<◌, ◌≡◌, true, List, bit_xor, length, total, All}
use zio_benchmarks.Shared.XorTotal.{xor_total}
use zio_benchmarks.WorkerPool.Buffer.{is_sentinel, is_item, value_work, ItemsFirst}
use zio_benchmarks.WorkerPool.Expected.{expected_checksum}
use zio_benchmarks.WorkerPool.Asio.{Options, Producer, Consumer, Pool, channel_capacity}
use zio_benchmarks.WorkerPool.Asio.Measures.{is_sending, owed, unsent_work, Fits, is_stopped, held}

-- All the work there is: with the producers, in the buffer, with the consumers, in the checksum.
abbrev pub all_work : ℕ → List Producer → List ℕ → List Consumer → ℕ → ℕ
all_work iters ps vs cs checksum =
    bit_xor (xor_total (unsent_work iters) ps)
      (bit_xor (xor_total (value_work iters) vs) (bit_xor (xor_total held cs) checksum))

module _ (C : Channel) (o : Options) where
  open C use {Chan, buffered, is_open, capacity}

  pub record Inv (s : Pool Chan) : Type 0 where
    pub opened : is_open s.memory.chan ≡ true
    pub room : capacity s.memory.chan ≡ channel_capacity
    pub counted : s.memory.remaining ≡ total is_sending s.producers
    pub bounded : s.memory.remaining < 2 ^ 64
    pub fits : All (Fits o.consumers) s.producers
    pub ordered : ItemsFirst (buffered s.memory.chan)
    -- No sentinel is sent while a producer may still send items.
    pub early :
        0 < total is_sending s.producers
        → total is_sentinel (buffered s.memory.chan)
            + total is_stopped s.consumers
            + total (owed o.consumers) s.producers
          ≡ 0
    -- After that, one sentinel for each consumer is owed, buffered or received.
    pub late :
        total is_sending s.producers ≡ 0
        → total is_sentinel (buffered s.memory.chan)
            + total is_stopped s.consumers
            + total (owed o.consumers) s.producers
          ≡ o.consumers
    -- Once a consumer has stopped, no item is left in the buffer.
    pub cleared : 0 < total is_stopped s.consumers → total is_item (buffered s.memory.chan) ≡ 0
    pub all_producers : length s.producers ≡ o.producers
    pub all_consumers : length s.consumers ≡ o.consumers
    pub ledger :
        all_work o.work_iters s.producers (buffered s.memory.chan) s.consumers s.memory.checksum
        ≡ expected_checksum o.work_iters o.items
