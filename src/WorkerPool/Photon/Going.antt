-- ===== src/WorkerPool/Photon/Going.antt =====
-- Which threads of the Photon worker pool can go on, and when all have returned.
use zio_benchmarks.Photon.{Photon}
use zio_benchmarks.Schedule.{CanStep}
use zio_benchmarks.Shared.{
  ℕ, ◌+◌, ◌<◌, ◌≤◌, ◌≡◌, refl, false, List, [], ◌∷◌, Option, none, some, get_elem?, set, All, arith,
  total, find_positive,
}
use zio_benchmarks.WorkerPool.Asio.{Options}
use zio_benchmarks.WorkerPool.Photon.{
  reserving, locking, writing, posting, fetching, entering, reading, freeing, Thread, producing,
  produced, consuming, leaving, signing, consumed, awaiting_producers, stopping, awaiting_consumers,
  ended, Memory, State, with_space, with_items, with_mu, acquire, resume, pass_producers,
  pass_consumers, thread_step, step, IsOver,
}
use zio_benchmarks.WorkerPool.Photon.Weights.{holds, ready, is_producing, is_busy, is_unended}
use zio_benchmarks.WorkerPool.Photon.Invariant.{Inv}

-- A weight that is nowhere without another is 0 where that is 0.
pub total_none :
    (v w : Thread → ℕ)
    → ((t : Thread) → v t ≡ 0 → w t ≡ 0)
    → (ts : List Thread) → total v ts ≡ 0
    → total w ts ≡ 0
total_none v w only [] h = refl
total_none v w only (t ∷ ts) h =
    omega (arith, only t (omega arith), total_none v w only ts (omega arith))

pub total_le :
    (v w : Thread → ℕ) → ((t : Thread) → v t ≤ w t) → (ts : List Thread) → total v ts ≤ total w ts
total_le v w below [] = omega arith
total_le v w below (t ∷ ts) = omega (arith, below t, total_le v w below ts)

pub total_add :
    (u v w : Thread → ℕ)
    → ((t : Thread) → w t ≡ u t + v t)
    → (ts : List Thread) → total w ts ≡ total u ts + total v ts
total_add u v w sum [] = refl
total_add u v w sum (t ∷ ts) = omega (arith, sum t, total_add u v w sum ts)

over : (t : Thread) → is_producing t ≡ 0 → is_busy t ≡ 0 → is_unended t ≡ 0 → IsOver t
over (producing i e pc) h a b = absurd (omega arith)
over produced h a b = tt
over (consuming acc pc) h a b = absurd (omega arith)
over (leaving acc) h a b = absurd (omega arith)
over signing h a b = absurd (omega arith)
over consumed h a b = tt
over awaiting_producers h a b = absurd (omega arith)
over (stopping c pc) h a b = absurd (omega arith)
over awaiting_consumers h a b = absurd (omega arith)
over ended h a b = tt

-- Every thread has returned if none is a producer, a busy consumer or `main` before its end.
pub All-IsOver :
    (ts : List Thread)
    → total is_producing ts ≡ 0
    → total is_busy ts ≡ 0
    → total is_unended ts ≡ 0
    → All IsOver ts
All-IsOver [] h a b = tt
All-IsOver (t ∷ ts) h a b = (
  over t (omega arith) (omega arith) (omega arith),
  All-IsOver ts (omega arith) (omega arith) (omega arith),
)

module _ (Ph : Photon) {o : Options} {s : State Ph} (inv : Inv Ph o s) where
  open Ph use {Sem, Mutex, count, wait, lock, is_locked, wait_blocked, lock_blocked}

  abbrev pub GoesOn : Type 0
  GoesOn = (k : ℕ) × CanStep (step Ph o) s k

  pub goes :
      (k : ℕ) {t : Thread} {r : Memory Ph × Thread}
      → get_elem? s.threads k ≡ some t
      → thread_step Ph o s.memory t ≡ some r
      → GoesOn
  unfolding step
  goes k {t} {r} at e =
      (k, (record s { memory = r.0; threads = set s.threads k r.1 }, rw (at, step, e)))

  pub resume_space :
      (u : Thread)
      → 0 < count s.memory.queue.space
      → (r : Option Sem) → wait 1 s.memory.queue.space ≡ r
      → (a : Memory Ph × Thread) × (resume Ph s.memory u (with_space Ph s.memory.queue r) ≡ some a)
  resume_space u h none law = absurd (omega (arith, wait_blocked 1 s.memory.queue.space law))
  resume_space u h (some w) law = (_, refl)

  pub resume_items :
      (u : Thread)
      → 0 < count s.memory.queue.items
      → (r : Option Sem) → wait 1 s.memory.queue.items ≡ r
      → (a : Memory Ph × Thread) × (resume Ph s.memory u (with_items Ph s.memory.queue r) ≡ some a)
  resume_items u h none law = absurd (omega (arith, wait_blocked 1 s.memory.queue.items law))
  resume_items u h (some w) law = (_, refl)

  resume_mu :
      (u : Thread)
      → is_locked s.memory.queue.mu ≡ false
      → (r : Option Mutex) → lock s.memory.queue.mu ≡ r
      → (a : Memory Ph × Thread) × (resume Ph s.memory u (with_mu Ph s.memory.queue r) ≡ some a)
  resume_mu u h none law = cc (h, lock_blocked s.memory.queue.mu law)
  resume_mu u h (some w) law = (_, refl)

  pub pass_producers-some :
      o.producers ≤ count s.memory.producers_done
      → (r : Option Sem) → wait o.producers s.memory.producers_done ≡ r
      → (a : Memory Ph × Thread) × (pass_producers Ph s.memory r ≡ some a)
  pass_producers-some h none law =
      absurd (omega (arith, wait_blocked o.producers s.memory.producers_done law))
  pass_producers-some h (some w) law = (_, refl)

  pub pass_consumers-some :
      o.consumers ≤ count s.memory.consumers_done
      → (r : Option Sem) → wait o.consumers s.memory.consumers_done ≡ r
      → (a : Memory Ph × Thread) × (pass_consumers Ph s.memory r ≡ some a)
  pass_consumers-some h none law =
      absurd (omega (arith, wait_blocked o.consumers s.memory.consumers_done law))
  pass_consumers-some h (some w) law = (_, refl)

  -- The thread under the mutex goes on, and if there is none, so does any that is ready.
  holder-some :
      (t : Thread) → 0 < holds t → (a : Memory Ph × Thread) × (thread_step Ph o s.memory t ≡ some a)
  unfolding thread_step
  holder-some (producing i e reserving) h = absurd (omega arith)
  holder-some (producing i e locking) h = absurd (omega arith)
  holder-some (producing i e writing) h = (_, refl)
  holder-some (producing i e posting) h = absurd (omega arith)
  holder-some produced h = absurd (omega arith)
  holder-some (consuming acc fetching) h = absurd (omega arith)
  holder-some (consuming acc entering) h = absurd (omega arith)
  holder-some (consuming acc reading) h = (_, refl)
  holder-some (consuming acc (freeing v)) h = absurd (omega arith)
  holder-some (leaving acc) h = absurd (omega arith)
  holder-some signing h = absurd (omega arith)
  holder-some consumed h = absurd (omega arith)
  holder-some awaiting_producers h = absurd (omega arith)
  holder-some (stopping c reserving) h = absurd (omega arith)
  holder-some (stopping c locking) h = absurd (omega arith)
  holder-some (stopping c writing) h = (_, refl)
  holder-some (stopping c posting) h = absurd (omega arith)
  holder-some awaiting_consumers h = absurd (omega arith)
  holder-some ended h = absurd (omega arith)

  ready-some :
      (t : Thread)
      → 0 < ready t
      → is_locked s.memory.queue.mu ≡ false
      → (a : Memory Ph × Thread) × (thread_step Ph o s.memory t ≡ some a)
  unfolding thread_step acquire
  ready-some (producing i e reserving) h open_ = absurd (omega arith)
  ready-some (producing i e locking) h open_ = resume_mu (producing i e writing) open_ _ refl
  ready-some (producing i e writing) h open_ = (_, refl)
  ready-some (producing i e posting) h open_ = (_, refl)
  ready-some produced h open_ = absurd (omega arith)
  ready-some (consuming acc fetching) h open_ = absurd (omega arith)
  ready-some (consuming acc entering) h open_ = resume_mu (consuming acc reading) open_ _ refl
  ready-some (consuming acc reading) h open_ = (_, refl)
  ready-some (consuming acc (freeing v)) h open_ = (_, refl)
  ready-some (leaving acc) h open_ = (_, refl)
  ready-some signing h open_ = (_, refl)
  ready-some consumed h open_ = absurd (omega arith)
  ready-some awaiting_producers h open_ = absurd (omega arith)
  ready-some (stopping c reserving) h open_ = absurd (omega arith)
  ready-some (stopping c locking) h open_ = resume_mu (stopping c writing) open_ _ refl
  ready-some (stopping c writing) h open_ = (_, refl)
  ready-some (stopping c posting) h open_ = (_, refl)
  ready-some awaiting_consumers h open_ = absurd (omega arith)
  ready-some ended h open_ = absurd (omega arith)

  pub holder_goes : 0 < total holds s.threads → GoesOn
  holder_goes h =
      let (k, t, at, p) = find_positive holds s.threads h in goes k at (holder-some t p).1

  pub ready_goes : is_locked s.memory.queue.mu ≡ false → 0 < total ready s.threads → GoesOn
  ready_goes open_ h =
      let (k, t, at, p) = find_positive ready s.threads h in goes k at (ready-some t p open_).1
