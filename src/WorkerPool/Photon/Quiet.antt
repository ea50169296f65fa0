-- ===== src/WorkerPool/Photon/Quiet.antt =====
-- A state of the Photon worker pool in which no thread is ready: what follows for the queue, and how a
-- consumer or a push goes on.
use native.Mathlib.Decide.{dec_lt}
use zio_benchmarks.Photon.{Photon}
use zio_benchmarks.Shared.{
  ℕ, ◌+◌, ◌<◌, ◌≡◌, refl, some, get_elem?, arith, total, le-total, find_positive,
}
use zio_benchmarks.WorkerPool.Asio.{Options}
use zio_benchmarks.WorkerPool.Photon.{
  fetching, entering, reading, freeing, Thread, producing, produced, consuming, leaving, signing,
  consumed, awaiting_producers, stopping, awaiting_consumers, ended, Memory, State, fetch,
  thread_step,
}
use zio_benchmarks.WorkerPool.Photon.Slots.{used}
use zio_benchmarks.WorkerPool.Photon.Weights.{
  reserved, pending, ready, is_consuming, is_consumer, is_busy, is_stopped,
}
use zio_benchmarks.WorkerPool.Photon.Invariant.{Inv}
use zio_benchmarks.WorkerPool.Photon.Going.{total_le, total_add, GoesOn, goes, resume_items}
use zio_benchmarks.WorkerPool.Photon.Roles.{
  reserved-le_ready, is_busy-le, is_consumer-le, is_stopped-le,
}

-- No thread is ready: each one waits on a semaphore, or has returned.
module _ (Ph : Photon) {o : Options} {s : State Ph} (inv : Inv Ph o s)
    (quiet : total ready s.threads ≡ 0) where
  open Ph use {count, signal}

  pub nothing_taken : total reserved s.threads + total pending s.threads ≡ 0
  nothing_taken = omega (
    arith,
    total_add reserved pending (λ t. reserved t + pending t) (λ t. refl) s.threads,
    total_le (λ t. reserved t + pending t) ready reserved-le_ready s.threads,
  )

  pub quiet_here : {t : Thread} (k : ℕ) → get_elem? s.threads k ≡ some t → ready t ≡ 0
  quiet_here {t} k at = omega (arith, le-total ready s.threads k t at)

  -- Busy consumers and those that have read a sentinel are all the consumers there are.
  pub crew : total is_stopped s.threads + total is_busy s.threads ≡ o.consumers
  crew = omega (
    arith,
    inv.all_consumers,
    total_add is_busy is_stopped (λ t. is_busy t + is_stopped t) (λ t. refl) s.threads,
    total_le is_consumer (λ t. is_busy t + is_stopped t) is_consumer-le s.threads,
    total_add is_stopped is_busy (λ t. is_stopped t + is_busy t) (λ t. refl) s.threads,
    total_add is_consumer ready (λ t. is_consumer t + ready t) (λ t. refl) s.threads,
    total_le (λ t. is_stopped t + is_busy t) (λ t. is_consumer t + ready t) is_stopped-le s.threads,
  )

  fetcher-some :
      (t : Thread)
      → 0 < is_consuming t
      → ready t ≡ 0
      → 0 < count s.memory.queue.items
      → (a : Memory Ph × Thread) × (thread_step Ph o s.memory t ≡ some a)
  unfolding thread_step fetch
  fetcher-some (producing i e pc) h z loaded = absurd (omega arith)
  fetcher-some produced h z loaded = absurd (omega arith)
  fetcher-some (consuming acc fetching) h z loaded =
      resume_items Ph inv (consuming acc entering) loaded _ refl
  fetcher-some (consuming acc entering) h z loaded = absurd (omega arith)
  fetcher-some (consuming acc reading) h z loaded = absurd (omega arith)
  fetcher-some (consuming acc (freeing v)) h z loaded = absurd (omega arith)
  fetcher-some (leaving acc) h z loaded = absurd (omega arith)
  fetcher-some signing h z loaded = absurd (omega arith)
  fetcher-some consumed h z loaded = absurd (omega arith)
  fetcher-some awaiting_producers h z loaded = absurd (omega arith)
  fetcher-some (stopping c pc) h z loaded = absurd (omega arith)
  fetcher-some awaiting_consumers h z loaded = absurd (omega arith)
  fetcher-some ended h z loaded = absurd (omega arith)

  -- With a value in the array and a consumer that has not returned, one can go on.
  pub consumer_goes : 0 < used s.memory.queue.ring → 0 < total is_busy s.threads → GoesOn Ph inv
  consumer_goes loaded busy =
      let (k, t, at, p) = find_positive is_consuming s.threads (
        omega (
          arith,
          total_add is_consuming ready (λ t. is_consuming t + ready t) (λ t. refl) s.threads,
          total_le is_busy (λ t. is_consuming t + ready t) is_busy-le s.threads,
        )) in
      goes Ph inv k at
        (fetcher-some t p (quiet_here k at) (omega (arith, inv.loads, nothing_taken))).1

  -- A push can begin, or the array is full and a consumer can go on.
  pub push_goes :
      total is_stopped s.threads < o.consumers
      → (0 < count s.memory.queue.space → GoesOn Ph inv)
      → GoesOn Ph inv
  push_goes left begins = elim (dec_lt 0 (count s.memory.queue.space)) [
    | yes p ↦ begins p
    | no p ↦ consumer_goes (omega (arith, inv.slots, nothing_taken)) (omega (arith, crew))
  ]
