-- ===== src/WorkerPool/Photon/Termination.antt =====
-- Every step of the Photon worker pool uses up work.
use zio_benchmarks.Photon.{Photon}
use zio_benchmarks.Shared.{
  ℕ, ◌+◌, ◌*◌, ◌-◌, ◌<◌, ◌≡◌, refl, inl, inr, Option, none, some, Bool-cases, Option-cases, ltb,
  ◌==◌, WhenSome, get_elem?, set, All-get_elem?, bit_xor, arith, total, total-set,
}
use zio_benchmarks.Shared.Words.{u64}
use zio_benchmarks.WorkerPool.Hash.{work}
use zio_benchmarks.WorkerPool.Asio.{Options}
use zio_benchmarks.WorkerPool.Asio.Ranges.{IsBounded}
use zio_benchmarks.WorkerPool.Photon.{
  Pushing, reserving, locking, writing, posting, Popping, fetching, entering, reading, freeing,
  Thread, producing, produced, consuming, leaving, signing, consumed, awaiting_producers, stopping,
  awaiting_consumers, ended, Memory, State, with_space, with_items, with_mu, reserve, acquire, put,
  post, fetch, take, give_back, resume, pass_producers, pass_consumers, thread_step, put_thread,
  step,
}
use zio_benchmarks.WorkerPool.Photon.Slots.{used, write_slot_lem, read_slot_lem}
use zio_benchmarks.WorkerPool.Photon.Weights.{Fits}
use zio_benchmarks.WorkerPool.Photon.Invariant.{Inv}
use zio_benchmarks.WorkerPool.Photon.Slotting.{room, loaded}

-- The steps that are left when `k` pushes are, this one counted, a pop and its end with each.
abbrev push_steps : ℕ → Pushing → ℕ
push_steps k reserving = 9 * k + 1
push_steps k locking = 9 * k
push_steps k writing = 9 * k - 1
push_steps k posting = 9 * k - 7

abbrev pop_steps : Popping → ℕ
pop_steps fetching = 4
pop_steps entering = 3
pop_steps reading = 2
pop_steps (freeing v) = 5

abbrev pub steps_left : ℕ → Thread → ℕ
steps_left consumers (producing i end pc) = push_steps (end - i) pc
steps_left consumers produced = 0
steps_left consumers (consuming acc pc) = pop_steps pc
steps_left consumers (leaving acc) = 2
steps_left consumers signing = 1
steps_left consumers consumed = 0
steps_left consumers awaiting_producers = 9 * consumers + 3
steps_left consumers (stopping c pc) = push_steps (consumers - c) pc + 1
steps_left consumers awaiting_consumers = 1
steps_left consumers ended = 0

module _ (Ph : Photon) (o : Options) where
  abbrev pub measure : State Ph → ℕ
  measure s = total (steps_left o.consumers) s.threads + 5 * used s.memory.queue.ring

module _ (Ph : Photon) {o : Options} (fit : IsBounded o) {s : State Ph} (inv : Inv Ph o s)
    (k : ℕ) where
  open Ph use {Sem, Mutex, signal}

  abbrev Lowers : Option (State Ph) → Type 0
  Lowers = WhenSome (λ t. measure Ph o t < measure Ph o s)

  Fits-here : {t : Thread} → get_elem? s.threads k ≡ some t → Fits o.consumers t
  Fits-here at = All-get_elem? (Fits o.consumers) s.threads k inv.fits at

  lower :
      (n : Memory Ph) {t : Thread} (u : Thread)
      → get_elem? s.threads k ≡ some t
      → steps_left o.consumers u + 5 * used n.queue.ring
        < steps_left o.consumers t + 5 * used s.memory.queue.ring
      → measure Ph o (record s { memory = n; threads = set s.threads k u }) < measure Ph o s
  lower n {t} u at fewer =
      omega (arith, total-set (steps_left o.consumers) s.threads k t u at, fewer)

  module _ {t : Thread} (u : Thread) (at : get_elem? s.threads k ≡ some t)
      (fewer : steps_left o.consumers u < steps_left o.consumers t) where
    resume_space :
        (r : Option Sem)
        → Lowers (put_thread Ph s k (resume Ph s.memory u (with_space Ph s.memory.queue r)))
    resume_space none = tt
    resume_space (some w) =
        lower (record s.memory { queue = record s.memory.queue { space = w } }) u at
          (omega (arith, fewer))

    resume_items :
        (r : Option Sem)
        → Lowers (put_thread Ph s k (resume Ph s.memory u (with_items Ph s.memory.queue r)))
    resume_items none = tt
    resume_items (some w) =
        lower (record s.memory { queue = record s.memory.queue { items = w } }) u at
          (omega (arith, fewer))

    resume_mu :
        (r : Option Mutex)
        → Lowers (put_thread Ph s k (resume Ph s.memory u (with_mu Ph s.memory.queue r)))
    resume_mu none = tt
    resume_mu (some w) =
        lower (record s.memory { queue = record s.memory.queue { mu = w } }) u at
          (omega (arith, fewer))

  pass_producers-Lowers :
      get_elem? s.threads k ≡ some awaiting_producers
      → (r : Option Sem) → Lowers (put_thread Ph s k (pass_producers Ph s.memory r))
  pass_producers-Lowers at none = tt
  pass_producers-Lowers at (some w) =
      lower (record s.memory { producers_done = w }) (stopping 0 reserving) at (omega arith)

  pass_consumers-Lowers :
      get_elem? s.threads k ≡ some awaiting_consumers
      → (r : Option Sem) → Lowers (put_thread Ph s k (pass_consumers Ph s.memory r))
  pass_consumers-Lowers at none = tt
  pass_consumers-Lowers at (some w) =
      lower (record s.memory { consumers_done = w }) ended at (omega arith)

  thread_step-Lowers :
      (t : Thread)
      → get_elem? s.threads k ≡ some t
      → Lowers (put_thread Ph s k (thread_step Ph o s.memory t))
  unfolding thread_step reserve acquire put post fetch take give_back
  thread_step-Lowers (producing i e reserving) at = elim (Bool-cases (ltb i e)) [
    | inl below ↦ rw below (resume_space (producing i e locking) at (omega arith) _)
    | inr past ↦ rw past (
        lower (record s.memory { producers_done = signal 1 s.memory.producers_done }) produced at
          (omega arith))
  ]
  thread_step-Lowers (producing i e locking) at =
      resume_mu (producing i e writing) at (omega (arith, Fits-here at)) _
  thread_step-Lowers (producing i e writing) at =
      lower (record s.memory { queue = put Ph s.memory.queue (u64 (i + 1)) })
        (producing i e posting) at
        (omega (
          arith,
          Fits-here at,
          (write_slot_lem inv.valid (u64 (i + 1))
              (room Ph inv k (producing i e writing) at refl)).2,
        ))
  thread_step-Lowers (producing i e posting) at =
      lower (record s.memory { queue = post Ph s.memory.queue })
        (producing (u64 (i + 1)) e reserving) at (omega (arith, Fits-here at))
  thread_step-Lowers produced at = tt
  thread_step-Lowers (consuming acc fetching) at =
      resume_items (consuming acc entering) at (omega arith) _
  thread_step-Lowers (consuming acc entering) at =
      resume_mu (consuming acc reading) at (omega arith) _
  thread_step-Lowers (consuming acc reading) at =
      lower (record s.memory { queue = (take Ph s.memory.queue).0 })
        (consuming acc (freeing (take Ph s.memory.queue).1)) at
        (omega (arith, (read_slot_lem inv.valid (loaded Ph inv k acc at)).2))
  thread_step-Lowers (consuming acc (freeing v)) at = elim (Bool-cases (v == 0)) [
    | inl stop ↦ rw stop (
        lower (record s.memory { queue = give_back Ph s.memory.queue }) (leaving acc) at
          (omega arith))
    | inr item ↦ rw item (
        lower (record s.memory { queue = give_back Ph s.memory.queue })
          (consuming (bit_xor acc (work v o.work_iters)) fetching) at (omega arith))
  ]
  thread_step-Lowers (leaving acc) at =
      lower (record s.memory { checksum = bit_xor s.memory.checksum acc }) signing at (omega arith)
  thread_step-Lowers signing at =
      lower (record s.memory { consumers_done = signal 1 s.memory.consumers_done }) consumed at
        (omega arith)
  thread_step-Lowers consumed at = tt
  thread_step-Lowers awaiting_producers at = pass_producers-Lowers at _
  thread_step-Lowers (stopping c reserving) at = elim (Bool-cases (ltb c o.consumers)) [
    | inl below ↦ rw below (resume_space (stopping c locking) at (omega arith) _)
    | inr past ↦ rw past (lower s.memory awaiting_consumers at (omega arith))
  ]
  thread_step-Lowers (stopping c locking) at =
      resume_mu (stopping c writing) at (omega (arith, Fits-here at)) _
  thread_step-Lowers (stopping c writing) at =
      lower (record s.memory { queue = put Ph s.memory.queue 0 }) (stopping c posting) at
        (omega (
          arith,
          Fits-here at,
          (write_slot_lem inv.valid 0 (room Ph inv k (stopping c writing) at refl)).2,
        ))
  thread_step-Lowers (stopping c posting) at =
      lower (record s.memory { queue = post Ph s.memory.queue }) (stopping (u64 (c + 1)) reserving)
        at (omega (arith, Fits-here at))
  thread_step-Lowers awaiting_consumers at = pass_consumers-Lowers at _
  thread_step-Lowers ended at = tt

  pub step-Lowers : Lowers (step Ph o s k)
  unfolding step
  step-Lowers = elim (Option-cases (get_elem? s.threads k)) [
    | inl out ↦ rw (out, step) tt
    | inr (t, at) ↦ rw (at, step) (thread_step-Lowers t at)
  ]
