-- ===== src/WorkerPool/Asio/Once.antt =====
-- What the consumers of the Asio worker pool hand to `work` along a schedule.
mod Steps
mod Runs
mod Tests
use zio_benchmarks.Channel.{Channel, Received, empty, drained, received}
use zio_benchmarks.Schedule.{or_stay}
use zio_benchmarks.Shared.{
  ℕ, suc, List, [], ◌∷◌, ◌++◌, none, some, get_elem?, total, ltb, leb, ◌==◌, if◌then◌else◌,
}
use zio_benchmarks.WorkerPool.Items.{ahead}
use zio_benchmarks.WorkerPool.Asio.{
  Options, Producer, sending, stopping, returned, Consumer, receiving, leaving, finished, Pool,
  Coroutine, producer, consumer, step,
}

-- 1 if a producer will still send item `n`.
abbrev pub unsent : ℕ → Producer → ℕ
unsent n (sending i end) = ahead n i end
unsent n (stopping c) = 0
unsent n returned = 0

-- The value that a consumer hands to `work`.
abbrev pub worked_on : {Chan : Type 0} → Consumer → Received Chan → List ℕ
worked_on (receiving acc) empty = []
worked_on (receiving acc) drained = []
worked_on (receiving acc) (received v d) = if v == 0 then [] else v ∷ []
worked_on (leaving acc) r = []
worked_on finished r = []

module _ (C : Channel) where
  open C use {Chan, receive}

  -- In one resumption.
  unfoldable pub handed : Pool Chan → Coroutine → List ℕ
  handed s (producer i) = []
  handed s (consumer j) = elim (get_elem? s.consumers j) [
    | none ↦ []
    | some c ↦ worked_on c (receive s.memory.chan)
  ]

  -- Along a schedule, in order.
  unfoldable pub all_handed : Options → Pool Chan → List Coroutine → List ℕ
  unfolding handed
  all_handed o s [] = []
  all_handed o s (k ∷ ks) = handed s k ++ all_handed o (or_stay s (step C o s k)) ks
