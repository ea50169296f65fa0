-- ===== src/WorkerPool/Photon.antt =====
-- worker_pool_photon.cpp: producers, consumers and `main` as threads that share one bounded queue and
-- two counting semaphores. A step of a thread is one operation on a semaphore or a mutex, or the code
-- that runs under the mutex, with the local code that follows it. Photon switches threads only where
-- one blocks; here any of them may be resumed after any step, so its schedules are among these.
mod Args
pub mod Slots
mod Weights
mod Invariant
mod Moves
mod Queueing
mod Finishing
mod Slotting
mod Reading
mod Preservation
mod Spawning
mod Going
mod Roles
mod Ending
mod Quiet
mod Progress
mod Termination
pub mod Runs
mod Once
mod Tests
use zio_benchmarks.Photon.{Photon}
use zio_benchmarks.Shared.{
  ℕ, zero, suc, ◌+◌, ◌*◌, ◌/◌, ◌≡◌, List, [], ◌∷◌, ◌++◌, Option, none, some, bit_xor, get_elem?,
  set, replicate, All, ltb, ◌==◌, if◌then◌else◌,
}
use zio_benchmarks.Shared.Words.{u64}
use zio_benchmarks.WorkerPool.Hash.{work}
use zio_benchmarks.WorkerPool.Asio.{Options}
use zio_benchmarks.WorkerPool.Photon.Slots.{Ring, new_ring, write_slot, read_slot, capacity}

-- Where a thread is inside `push`: before `space.wait`, before the lock, under it, behind it.
pub data Pushing : Type 0 where
  reserving : Pushing
  locking : Pushing
  writing : Pushing
  posting : Pushing

-- Where a thread is inside `pop`, with the value once it is read.
pub data Popping : Type 0 where
  fetching : Popping
  entering : Popping
  reading : Popping
  freeing : ℕ → Popping

-- The threads: a producer at item `i` of those below `end`, a consumer with its accumulator, and
-- `main`, which waits, pushes sentinel `c`, and waits again.
pub data Thread : Type 0 where
  producing : ℕ → ℕ → Pushing → Thread
  produced : Thread
  consuming : ℕ → Popping → Thread
  leaving : ℕ → Thread
  signing : Thread
  consumed : Thread
  awaiting_producers : Thread
  stopping : ℕ → Pushing → Thread
  awaiting_consumers : Thread
  ended : Thread

unfoldable pub range_start : Options → ℕ → ℕ
range_start o p = u64 (p * o.items) / o.producers

unfoldable pub range_end : Options → ℕ → ℕ
range_end o p = u64 (u64 (p + 1) * o.items) / o.producers

unfoldable pub spawn_producers : Options → ℕ → ℕ → List Thread
unfolding range_start range_end
spawn_producers o p zero = []
spawn_producers o p (suc left) =
    producing (range_start o p) (range_end o p) reserving ∷ spawn_producers o (p + 1) left

module _ (Ph : Photon) where
  open Ph use {Sem, Mutex, make, wait, signal, free, lock, unlock}

  pub record Queue : Type 0 where
    pub ring : Ring
    pub mu : Mutex
    pub items : Sem
    pub space : Sem

  pub record Memory : Type 0 where
    pub queue : Queue
    pub producers_done : Sem
    pub consumers_done : Sem
    pub checksum : ℕ

  pub record State : Type 0 where
    pub memory : Memory
    pub threads : List Thread

  abbrev pub with_space : Queue → Option Sem → Option Queue
  with_space q none = none
  with_space q (some s) = some (record q { space = s })

  abbrev pub with_items : Queue → Option Sem → Option Queue
  with_items q none = none
  with_items q (some s) = some (record q { items = s })

  abbrev pub with_mu : Queue → Option Mutex → Option Queue
  with_mu q none = none
  with_mu q (some m) = some (record q { mu = m })

  -- `push`: `space.wait(1)`, the lock, the write with the unlock, `items.signal(1)`.
  unfoldable pub reserve : Queue → Option Queue
  reserve q = with_space q (wait 1 q.space)

  unfoldable pub acquire : Queue → Option Queue
  acquire q = with_mu q (lock q.mu)

  unfoldable pub put : Queue → ℕ → Queue
  put q v = record q { ring = write_slot q.ring v; mu = unlock q.mu }

  unfoldable pub post : Queue → Queue
  post q = record q { items = signal 1 q.items }

  -- `pop`: `items.wait(1)`, the lock, the read with the unlock, `space.signal(1)`.
  unfoldable pub fetch : Queue → Option Queue
  fetch q = with_items q (wait 1 q.items)

  unfoldable pub take : Queue → Queue × ℕ
  take q = let (r, v) = read_slot q.ring in (record q { ring = r; mu = unlock q.mu }, v)

  unfoldable pub give_back : Queue → Queue
  give_back q = record q { space = signal 1 q.space }

  abbrev pub resume : Memory → Thread → Option Queue → Option (Memory × Thread)
  resume m t none = none
  resume m t (some q) = some (record m { queue = q }, t)

  abbrev pub pass_producers : Memory → Option Sem → Option (Memory × Thread)
  pass_producers m none = none
  pass_producers m (some s) = some (record m { producers_done = s }, stopping 0 reserving)

  abbrev pub pass_consumers : Memory → Option Sem → Option (Memory × Thread)
  pass_consumers m none = none
  pass_consumers m (some s) = some (record m { consumers_done = s }, ended)

  -- `producer`: `q.push(i + 1)` in a loop, then `producers_done.signal(1)`.
  abbrev pub produce : Memory → ℕ → ℕ → Pushing → Option (Memory × Thread)
  produce m i end reserving =
      if ltb i end
      then resume m (producing i end locking) (reserve m.queue)
      else some (record m { producers_done = signal 1 m.producers_done }, produced)
  produce m i end locking = resume m (producing i end writing) (acquire m.queue)
  produce m i end writing =
      some (record m { queue = put m.queue (u64 (i + 1)) }, producing i end posting)
  produce m i end posting =
      some (record m { queue = post m.queue }, producing (u64 (i + 1)) end reserving)

  -- `consumer`: `q.pop()` and the work in a loop, up to a sentinel.
  abbrev pub consume : ℕ → Memory → ℕ → Popping → Option (Memory × Thread)
  consume iters m acc fetching = resume m (consuming acc entering) (fetch m.queue)
  consume iters m acc entering = resume m (consuming acc reading) (acquire m.queue)
  consume iters m acc reading =
      let (q, v) = take m.queue in some (record m { queue = q }, consuming acc (freeing v))
  consume iters m acc (freeing item) = some (
    record m { queue = give_back m.queue },
    (if item == 0 then leaving acc else consuming (bit_xor acc (work item iters)) fetching),
  )

  -- `main`: `q.push(0)` in a loop.
  abbrev pub stop : ℕ → Memory → ℕ → Pushing → Option (Memory × Thread)
  stop consumers m c reserving =
      if ltb c consumers
      then resume m (stopping c locking) (reserve m.queue)
      else some (m, awaiting_consumers)
  stop consumers m c locking = resume m (stopping c writing) (acquire m.queue)
  stop consumers m c writing = some (record m { queue = put m.queue 0 }, stopping c posting)
  stop consumers m c posting =
      some (record m { queue = post m.queue }, stopping (u64 (c + 1)) reserving)

  unfoldable pub thread_step : Options → Memory → Thread → Option (Memory × Thread)
  unfolding reserve acquire put post fetch take give_back
  thread_step o m (producing i end pc) = produce m i end pc
  thread_step o m produced = none
  thread_step o m (consuming acc pc) = consume o.work_iters m acc pc
  thread_step o m (leaving acc) = some (record m { checksum = bit_xor m.checksum acc }, signing)
  thread_step o m signing = some (record m { consumers_done = signal 1 m.consumers_done }, consumed)
  thread_step o m consumed = none
  thread_step o m awaiting_producers = pass_producers m (wait o.producers m.producers_done)
  thread_step o m (stopping c pc) = stop o.consumers m c pc
  thread_step o m awaiting_consumers = pass_consumers m (wait o.consumers m.consumers_done)
  thread_step o m ended = none

  abbrev pub put_thread : State → ℕ → Option (Memory × Thread) → Option State
  put_thread s k none = none
  put_thread s k (some (m, t)) = some (record s { memory = m; threads = set s.threads k t })

  -- One resumption of thread `k`; `none` if it has ended, is suspended, or does not exist.
  unfoldable pub step : Options → State → ℕ → Option State
  unfolding thread_step
  step o s k = elim (get_elem? s.threads k) [
    | none ↦ none
    | some t ↦ put_thread s k (thread_step o s.memory t)
  ]

  -- The queue `q` over the array `buf`, the semaphores, and the threads, `main` first.
  unfoldable pub init : Options → List ℕ → State
  unfolding spawn_producers
  init o buf = record {
    memory = record {
      queue = record { ring = new_ring buf; mu = free; items = make 0; space = make capacity };
      producers_done = make 0;
      consumers_done = make 0;
      checksum = 0;
    };
    threads =
        awaiting_producers
        ∷ (replicate o.consumers (consuming 0 fetching) ++ spawn_producers o 0 o.producers);
  }

-- A thread that has returned.
abbrev pub IsOver : Thread → Type 0
IsOver (producing i end pc) = ⊥
IsOver produced = Unit
IsOver (consuming acc pc) = ⊥
IsOver (leaving acc) = ⊥
IsOver signing = ⊥
IsOver consumed = Unit
IsOver awaiting_producers = ⊥
IsOver (stopping c pc) = ⊥
IsOver awaiting_consumers = ⊥
IsOver ended = Unit
