-- ===== src/WorkerPool/Asio.antt =====
-- worker_pool_asio.cpp: producers and consumers as coroutines that share a channel and two atomics.
-- A step of a coroutine is one access to shared state, with the local code that follows it. A
-- schedule says which coroutine the pool resumes next; one that cannot go on stays as it is.
pub mod Args
pub mod Measures
pub mod Invariant
pub mod Ranges
mod Replacing
mod Producing
mod Consuming
pub mod Preservation
pub mod Safety
pub mod Progress
pub mod Termination
pub mod Runs
pub mod Misuse
pub mod Once
mod Tests
use zio_benchmarks.Channel.{Channel, Sent, full, refused, sent, Received, empty, drained, received}
use zio_benchmarks.Shared.{
  ℕ, zero, suc, ◌+◌, ◌*◌, ◌/◌, ◌≡◌, List, [], ◌∷◌, Option, none, some, bit_xor, get_elem?, set,
  replicate, All, ltb, ◌==◌, if◌then◌else◌,
}
use zio_benchmarks.Shared.Words.{u64, sub64}
use zio_benchmarks.WorkerPool.Hash.{work}

abbrev pub channel_capacity : ℕ
channel_capacity = 256

-- The variables of `main` that the options set.
pub record Options : Type 0 where
  pub items : ℕ
  pub producers : ℕ
  pub consumers : ℕ
  pub work_iters : ℕ

-- What the coroutines hold by reference.
pub record Memory (Chan : Type 0) : Type 0 where
  pub chan : Chan
  pub remaining : ℕ
  pub checksum : ℕ

-- `sending i end`: at the head of the first loop; `stopping c`: at the head of the second.
pub data Producer : Type 0 where
  sending : ℕ → ℕ → Producer
  stopping : ℕ → Producer
  returned : Producer

-- `receiving acc`: at the head of the loop; `leaving acc`: behind it.
pub data Consumer : Type 0 where
  receiving : ℕ → Consumer
  leaving : ℕ → Consumer
  finished : Consumer

pub record Pool (Chan : Type 0) : Type 0 where
  pub memory : Memory Chan
  pub producers : List Producer
  pub consumers : List Consumer

pub data Coroutine : Type 0 where
  producer : ℕ → Coroutine
  consumer : ℕ → Coroutine

-- `co_await ch.async_send(...)` and `if (ec) co_return`; `next` is where the producer goes on.
unfoldable pub after_send :
    {Chan : Type 0} → Memory Chan → Producer → Sent Chan → Option (Memory Chan × Producer)
after_send m next full = none
after_send m next refused = some (m, returned)
after_send m next (sent c) = some (record m { chan = c }, next)

-- `if (remaining.fetch_sub(1) == 1)`
unfoldable pub fetch_sub : {Chan : Type 0} → Memory Chan → Memory Chan × Producer
fetch_sub m = (
  record m { remaining = sub64 m.remaining 1 },
  (if m.remaining == 1 then stopping 0 else returned),
)

-- `co_await ch.async_receive(...)` and the rest of the round.
unfoldable pub after_receive :
    {Chan : Type 0} → ℕ → Memory Chan → ℕ → Received Chan → Option (Memory Chan × Consumer)
after_receive iters m acc empty = none
after_receive iters m acc drained = some (m, leaving acc)
after_receive iters m acc (received item c) = some (
  record m { chan = c },
  (if item == 0 then leaving acc else receiving (bit_xor acc (work item iters))),
)

-- `checksum.fetch_xor(acc)`
unfoldable pub fetch_xor : {Chan : Type 0} → Memory Chan → ℕ → Memory Chan
fetch_xor m acc = record m { checksum = bit_xor m.checksum acc }

-- The range of producer `p`, and the coroutines that `main` spawns.
unfoldable pub range_start : Options → ℕ → ℕ
range_start o p = u64 (p * o.items) / o.producers

unfoldable pub range_end : Options → ℕ → ℕ
range_end o p = u64 (u64 (p + 1) * o.items) / o.producers

unfoldable pub spawn_producers : Options → ℕ → ℕ → List Producer
unfolding range_start range_end
spawn_producers o p zero = []
spawn_producers o p (suc left) =
    sending (range_start o p) (range_end o p) ∷ spawn_producers o (p + 1) left

module _ (C : Channel) where
  open C use {Chan, make, send, receive}

  unfoldable pub producer_step : ℕ → Memory Chan → Producer → Option (Memory Chan × Producer)
  unfolding after_send fetch_sub
  producer_step consumers m (sending i end) =
      if ltb i end
      then after_send m (sending (u64 (i + 1)) end) (send m.chan (u64 (i + 1)))
      else some (fetch_sub m)
  producer_step consumers m (stopping c) =
      if ltb c consumers
      then after_send m (stopping (u64 (c + 1))) (send m.chan 0)
      else some (m, returned)
  producer_step consumers m returned = none

  unfoldable pub consumer_step : ℕ → Memory Chan → Consumer → Option (Memory Chan × Consumer)
  unfolding after_receive fetch_xor
  consumer_step iters m (receiving acc) = after_receive iters m acc (receive m.chan)
  consumer_step iters m (leaving acc) = some (fetch_xor m acc, finished)
  consumer_step iters m finished = none

  unfoldable pub init : Options → Pool Chan
  unfolding spawn_producers
  init o = record {
    memory = record { chan = make channel_capacity; remaining = o.producers; checksum = 0 };
    producers = spawn_producers o 0 o.producers;
    consumers = replicate o.consumers (receiving 0);
  }

  abbrev pub put_producer : Pool Chan → ℕ → Option (Memory Chan × Producer) → Option (Pool Chan)
  put_producer s i none = none
  put_producer s i (some (m, p)) = some (record s { memory = m; producers = set s.producers i p })

  abbrev pub put_consumer : Pool Chan → ℕ → Option (Memory Chan × Consumer) → Option (Pool Chan)
  put_consumer s j none = none
  put_consumer s j (some (m, c)) = some (record s { memory = m; consumers = set s.consumers j c })

  -- One resumption; `none` if the coroutine has returned, is suspended, or does not exist.
  unfoldable pub step : Options → Pool Chan → Coroutine → Option (Pool Chan)
  unfolding producer_step consumer_step
  step o s (producer i) = elim (get_elem? s.producers i) [
    | none ↦ none
    | some p ↦ put_producer s i (producer_step o.consumers s.memory p)
  ]
  step o s (consumer j) = elim (get_elem? s.consumers j) [
    | none ↦ none
    | some c ↦ put_consumer s j (consumer_step o.work_iters s.memory c)
  ]

-- What `pool.join()` waits for: every coroutine has run to its end.
abbrev pub IsJoined : {Chan : Type 0} → Pool Chan → Type 0
IsJoined s = All (λ p. p ≡ returned) s.producers × All (λ c. c ≡ finished) s.consumers
