-- ===== src/WorkerPool/Asio/Measures.antt =====
-- What a coroutine of the Asio worker pool still has to do, or holds, in numbers.
use zio_benchmarks.Shared.{ℕ, ◌-◌, ◌^◌, ◌≤◌, ◌<◌}
use zio_benchmarks.WorkerPool.Asio.{
  Producer, sending, stopping, returned, Consumer, receiving, leaving, finished,
}
use zio_benchmarks.WorkerPool.Expected.{range_work}

-- 1 for a producer that has not yet decremented `remaining`.
abbrev pub is_sending : Producer → ℕ
is_sending (sending i end) = 1
is_sending (stopping c) = 0
is_sending returned = 0

-- The sentinels that a producer will still send.
abbrev pub owed : ℕ → Producer → ℕ
owed consumers (sending i end) = 0
owed consumers (stopping c) = consumers - c
owed consumers returned = 0

-- The work on the items that a producer will still send.
abbrev pub unsent_work : ℕ → Producer → ℕ
unsent_work iters (sending i end) = range_work iters i (end - i)
unsent_work iters (stopping c) = 0
unsent_work iters returned = 0

-- The loop counters do not wrap.
abbrev pub Fits : ℕ → Producer → Type 0
Fits consumers (sending i end) = end < 2 ^ 64
Fits consumers (stopping c) = c ≤ consumers
Fits consumers returned = Unit

-- 1 for a consumer that has left its loop.
abbrev pub is_stopped : Consumer → ℕ
is_stopped (receiving acc) = 0
is_stopped (leaving acc) = 1
is_stopped finished = 1

-- What a consumer has not yet joined to the checksum.
abbrev pub held : Consumer → ℕ
held (receiving acc) = acc
held (leaving acc) = acc
held finished = 0
