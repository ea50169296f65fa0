-- ===== src/WorkerPool/Photon/Queueing.antt =====
-- The steps of the Photon worker pool inside `push` and `pop` that change a semaphore or take the
-- mutex keep the invariant.
use zio_benchmarks.Photon.{Photon}
use zio_benchmarks.Shared.{
  ℕ, ◌+◌, ◌≡◌, refl, ap, Option, none, some, WhenSome, get_elem?, set, arith,
}
use zio_benchmarks.WorkerPool.Asio.{Options}
use zio_benchmarks.WorkerPool.Photon.{
  fetching, entering, Thread, consuming, Queue, State, with_space, with_items, with_mu, resume,
  put_thread,
}
use zio_benchmarks.WorkerPool.Photon.Weights.{reserved, pending, holds}
use zio_benchmarks.WorkerPool.Photon.Invariant.{flag, Inv}
use zio_benchmarks.WorkerPool.Photon.Moves.{SameRole, queue-Inv}

module _ (Ph : Photon) {o : Options} {s : State Ph} (inv : Inv Ph o s) (k : ℕ) where
  open Ph use {Sem, Mutex, count, wait, signal, lock, is_locked, wait_done, count-signal, lock_done}

  abbrev Keeps : Option (State Ph) → Type 0
  Keeps = WhenSome (Inv Ph o)

  abbrev queue : Queue Ph
  queue = s.memory.queue

  -- `space.wait(1)`
  pub reserve-Keeps :
      (t u : Thread)
      → get_elem? s.threads k ≡ some t
      → SameRole Ph o t u
      → (reserved u ≡ reserved t + 1) × (pending u ≡ pending t) × (holds u ≡ holds t)
      → (r : Option Sem) → wait 1 queue.space ≡ r
      → Keeps (put_thread Ph s k (resume Ph s.memory u (with_space Ph queue r)))
  reserve-Keeps t u at role change none law = tt
  reserve-Keeps t u at role change (some w) law =
      queue-Inv Ph o inv k (record queue { space = w }) u at role refl
        (omega (arith, change, wait_done 1 queue.space w law)) (omega (arith, change))
        (omega (arith, change))

  -- `items.wait(1)`
  pub fetch-Keeps :
      (acc : ℕ)
      → get_elem? s.threads k ≡ some (consuming acc fetching)
      → (r : Option Sem) → wait 1 queue.items ≡ r
      → Keeps
          (put_thread Ph s k (resume Ph s.memory (consuming acc entering) (with_items Ph queue r)))
  fetch-Keeps acc at none law = tt
  fetch-Keeps acc at (some w) law =
      queue-Inv Ph o inv k (record queue { items = w }) (consuming acc entering) at
        (refl, refl, refl, refl, refl, refl, refl, refl, tt) refl refl
        (omega (arith, wait_done 1 queue.items w law)) refl

  -- `photon::scoped_lock l(mu)`
  pub lock-Keeps :
      (t u : Thread)
      → get_elem? s.threads k ≡ some t
      → SameRole Ph o t u
      → (reserved u ≡ reserved t) × (pending u ≡ pending t) × (holds u ≡ holds t + 1)
      → (r : Option Mutex) → lock queue.mu ≡ r
      → Keeps (put_thread Ph s k (resume Ph s.memory u (with_mu Ph queue r)))
  lock-Keeps t u at role change none law = tt
  lock-Keeps t u at role change (some w) law =
      let (was_free, now_held) = lock_done queue.mu w law in
      queue-Inv Ph o inv k (record queue { mu = w }) u at role refl (omega (arith, change))
        (omega (arith, change)) (omega (arith, change, ap flag was_free, ap flag now_held))

  -- `items.signal(1)`
  pub post-Inv :
      (t u : Thread)
      → get_elem? s.threads k ≡ some t
      → SameRole Ph o t u
      → (reserved u ≡ reserved t) × (pending u + 1 ≡ pending t) × (holds u ≡ holds t)
      → Inv Ph o (record s {
        memory = record s.memory { queue = record queue { items = signal 1 queue.items } };
        threads = set s.threads k u;
      })
  post-Inv t u at role change =
      queue-Inv Ph o inv k (record queue { items = signal 1 queue.items }) u at role refl
        (omega (arith, change)) (omega (arith, change, count-signal 1 queue.items))
        (omega (arith, change))

  -- `space.signal(1)`
  pub free-Inv :
      (t u : Thread)
      → get_elem? s.threads k ≡ some t
      → SameRole Ph o t u
      → (reserved u + 1 ≡ reserved t) × (pending u ≡ pending t) × (holds u ≡ holds t)
      → Inv Ph o (record s {
        memory = record s.memory { queue = record queue { space = signal 1 queue.space } };
        threads = set s.threads k u;
      })
  free-Inv t u at role change =
      queue-Inv Ph o inv k (record queue { space = signal 1 queue.space }) u at role refl
        (omega (arith, change, count-signal 1 queue.space)) (omega (arith, change))
        (omega (arith, change))
