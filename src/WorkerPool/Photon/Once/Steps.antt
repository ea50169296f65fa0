-- ===== src/WorkerPool/Photon/Once/Steps.antt =====
-- Where an item of the Photon worker pool is: with its producer, in the array, with a consumer, or
-- handed to `work`.
use zio_benchmarks.Photon.{Photon}
use zio_benchmarks.Schedule.{or_stay}
use zio_benchmarks.Shared.{
  ℕ, suc, ◌+◌, ◌<◌, ◌≡◌, refl, sym, ap, inl, inr, [], ◌∷◌, ◌++◌, Option, none, some, get_elem?, set,
  total, total-set, ltb, ◌==◌, arith, Bool-cases, Option-cases, All-get_elem?, bit_xor,
}
use zio_benchmarks.Shared.Words.{u64}
use zio_benchmarks.WorkerPool.Hash.{work}
use zio_benchmarks.WorkerPool.Buffer.{total-append}
use zio_benchmarks.WorkerPool.Items.{is_value, count, ahead, ahead_none, is_value_none}
use zio_benchmarks.WorkerPool.Asio.{Options}
use zio_benchmarks.WorkerPool.Photon.{
  reserving, locking, writing, posting, fetching, entering, reading, freeing, Thread, producing,
  produced, consuming, leaving, signing, consumed, awaiting_producers, stopping, awaiting_consumers,
  ended, Memory, State, with_space, with_items, with_mu, reserve, acquire, put, post, fetch, take,
  give_back, resume, pass_producers, pass_consumers, thread_step, put_thread, step,
}
use zio_benchmarks.WorkerPool.Photon.Slots.{
  contents, read_slot, write_slot, write_slot_lem, read_slot_lem,
}
use zio_benchmarks.WorkerPool.Photon.Weights.{Fits}
use zio_benchmarks.WorkerPool.Photon.Invariant.{Inv}
use zio_benchmarks.WorkerPool.Photon.Slotting.{room, loaded}
use zio_benchmarks.WorkerPool.Photon.Once.{carried, worked_on, handed}

module _ (Ph : Photon) {o : Options} {s : State Ph} (inv : Inv Ph o s) (n k : ℕ) where
  open Ph use {Sem, Mutex, wait, lock}

  -- How often item `n` is with a thread or in the array.
  abbrev pub left : State Ph → ℕ
  left t = total (carried n) t.threads + count (suc n) (contents t.memory.queue.ring)

  abbrev after : Option (Memory Ph × Thread) → State Ph
  after r = or_stay s (put_thread Ph s k r)

  module _ (t u : Thread) (at : get_elem? s.threads k ≡ some t) where
    -- The array is left alone.
    same-left :
        carried n u ≡ carried n t
        → total (carried n) (set s.threads k u) + count (suc n) (contents s.memory.queue.ring)
          ≡ left s
    same-left same = omega (arith, same, total-set (carried n) s.threads k t u at)

    space-left :
        carried n u ≡ carried n t
        → (w : Option Sem)
        → left (after (resume Ph s.memory u (with_space Ph s.memory.queue w))) ≡ left s
    space-left same none = refl
    space-left same (some e) = same-left same

    items-left :
        carried n u ≡ carried n t
        → (w : Option Sem)
        → left (after (resume Ph s.memory u (with_items Ph s.memory.queue w))) ≡ left s
    items-left same none = refl
    items-left same (some e) = same-left same

    mu-left :
        carried n u ≡ carried n t
        → (w : Option Mutex)
        → left (after (resume Ph s.memory u (with_mu Ph s.memory.queue w))) ≡ left s
    mu-left same none = refl
    mu-left same (some e) = same-left same

    -- A value is written to the array.
    put-left :
        (v : ℕ)
        → carried n u + is_value (suc n) v ≡ carried n t
        → contents (write_slot s.memory.queue.ring v) ≡ contents s.memory.queue.ring ++ v ∷ []
        → total (carried n) (set s.threads k u)
            + count (suc n) (contents (write_slot s.memory.queue.ring v))
          ≡ left s
    put-left v same longer = omega (
      arith,
      same,
      total-set (carried n) s.threads k t u at,
      ap (count (suc n)) longer,
      total-append (is_value (suc n)) (contents s.memory.queue.ring) (v ∷ []),
    )

  read-left :
      (acc : ℕ)
      → get_elem? s.threads k ≡ some (consuming acc reading)
      → left (after (thread_step Ph o s.memory (consuming acc reading))) ≡ left s
  unfolding thread_step take
  read-left acc at = omega (
    arith,
    total-set (carried n) s.threads k (consuming acc reading)
        (consuming acc (freeing (read_slot s.memory.queue.ring).1)) at,
    ap (count (suc n)) (read_slot_lem inv.valid (loaded Ph inv k acc at)).1,
  )

  freed-left :
      (acc v : ℕ)
      → get_elem? s.threads k ≡ some (consuming acc (freeing v))
      → left (after (thread_step Ph o s.memory (consuming acc (freeing v))))
          + count (suc n) (worked_on (consuming acc (freeing v)))
        ≡ left s
  unfolding thread_step give_back
  freed-left acc v at = elim (Bool-cases (v == 0)) [
    | inl stop ↦ rw stop (
        omega (
          arith,
          is_value_none n v (ground arith),
          total-set (carried n) s.threads k (consuming acc (freeing v)) (leaving acc) at,
        ))
    | inr item ↦ rw item (
        omega (
          arith,
          total-set (carried n) s.threads k (consuming acc (freeing v))
              (consuming (bit_xor acc (work v o.work_iters)) fetching) at,
        ))
  ]

  producers-left :
      get_elem? s.threads k ≡ some awaiting_producers
      → (w : Option Sem) → left (after (pass_producers Ph s.memory w)) ≡ left s
  producers-left at none = refl
  producers-left at (some d) = same-left awaiting_producers (stopping 0 reserving) at refl

  consumers-left :
      get_elem? s.threads k ≡ some awaiting_consumers
      → (w : Option Sem) → left (after (pass_consumers Ph s.memory w)) ≡ left s
  consumers-left at none = refl
  consumers-left at (some d) = same-left awaiting_consumers ended at refl

  -- Before a push, where the loop goes on or ends.
  reserving-left :
      (i e : ℕ)
      → get_elem? s.threads k ≡ some (producing i e reserving)
      → left (after (thread_step Ph o s.memory (producing i e reserving))) ≡ left s
  unfolding thread_step reserve
  reserving-left i e at = elim (Bool-cases (ltb i e)) [
    | inl below ↦ rw below (
        space-left (producing i e reserving) (producing i e locking) at refl
          (wait 1 s.memory.queue.space))
    | inr past ↦ rw past (
        same-left (producing i e reserving) produced at
          (sym (ahead_none n (i + 0) e (ground arith))))
  ]

  stopping-left :
      (c : ℕ)
      → get_elem? s.threads k ≡ some (stopping c reserving)
      → left (after (thread_step Ph o s.memory (stopping c reserving))) ≡ left s
  unfolding thread_step reserve
  stopping-left c at = elim (Bool-cases (ltb c o.consumers)) [
    | inl below ↦ rw below (
        space-left (stopping c reserving) (stopping c locking) at refl
          (wait 1 s.memory.queue.space))
    | inr past ↦ rw past (same-left (stopping c reserving) awaiting_consumers at refl)
  ]

  Fits-here : {t : Thread} → get_elem? s.threads k ≡ some t → Fits o.consumers t
  Fits-here at = All-get_elem? (Fits o.consumers) s.threads k inv.fits at

  -- An item is written to the array.
  written-left :
      (i e v : ℕ)
      → get_elem? s.threads k ≡ some (producing i e writing)
      → v ≡ i + 1
      → total (carried n) (set s.threads k (producing i e posting))
          + count (suc n) (contents (write_slot s.memory.queue.ring v))
        ≡ left s
  written-left i e v at next =
      put-left (producing i e writing) (producing i e posting) at v
        (written i e v (omega (arith, Fits-here at)) next)
        (write_slot_lem inv.valid v (room Ph inv k (producing i e writing) at refl)).1
    where
      written :
          (i e v : ℕ)
          → i < e
          → v ≡ i + 1
          → ahead n (i + 1) e + is_value (suc n) v ≡ ahead n (i + 0) e
      written i e v inside next = ground arith

  thread_step-left :
      (t : Thread)
      → get_elem? s.threads k ≡ some t
      → left (after (thread_step Ph o s.memory t)) + count (suc n) (worked_on t) ≡ left s
  unfolding thread_step acquire put post fetch
  thread_step-left (producing i e reserving) at = omega (arith, reserving-left i e at)
  thread_step-left (producing i e locking) at = omega (
    arith,
    mu-left (producing i e locking) (producing i e writing) at refl (lock s.memory.queue.mu),
  )
  thread_step-left (producing i e writing) at =
      omega (arith, written-left i e (u64 (i + 1)) at (omega (arith, Fits-here at)))
  thread_step-left (producing i e posting) at =
      let next : u64 (i + 1) + 0 ≡ i + 1 = omega (arith, Fits-here at) in
      omega (
        arith,
        same-left (producing i e posting) (producing (u64 (i + 1)) e reserving) at
            (ap (λ m. ahead n m e) next),
      )
  thread_step-left produced at = omega arith
  thread_step-left (consuming acc fetching) at = omega (
    arith,
    items-left (consuming acc fetching) (consuming acc entering) at refl
        (wait 1 s.memory.queue.items),
  )
  thread_step-left (consuming acc entering) at = omega (
    arith,
    mu-left (consuming acc entering) (consuming acc reading) at refl (lock s.memory.queue.mu),
  )
  thread_step-left (consuming acc reading) at = omega (arith, read-left acc at)
  thread_step-left (consuming acc (freeing v)) at = freed-left acc v at
  thread_step-left (leaving acc) at = omega (arith, same-left (leaving acc) signing at refl)
  thread_step-left signing at = omega (arith, same-left signing consumed at refl)
  thread_step-left consumed at = omega arith
  thread_step-left awaiting_producers at =
      omega (arith, producers-left at (wait o.producers s.memory.producers_done))
  thread_step-left (stopping c reserving) at = omega (arith, stopping-left c at)
  thread_step-left (stopping c locking) at =
      omega
        (arith, mu-left (stopping c locking) (stopping c writing) at refl (lock s.memory.queue.mu))
  thread_step-left (stopping c writing) at = omega (
    arith,
    put-left (stopping c writing) (stopping c posting) at 0 (omega (arith, is_value_none n 0 refl))
        (write_slot_lem inv.valid 0 (room Ph inv k (stopping c writing) at refl)).1,
  )
  thread_step-left (stopping c posting) at =
      omega (arith, same-left (stopping c posting) (stopping (u64 (c + 1)) reserving) at refl)
  thread_step-left awaiting_consumers at =
      omega (arith, consumers-left at (wait o.consumers s.memory.consumers_done))
  thread_step-left ended at = omega arith

  -- Whoever is resumed: what is handed to `work` is left no more, and nothing else is lost.
  pub step-left : left (or_stay s (step Ph o s k)) + count (suc n) (handed Ph s k) ≡ left s
  unfolding step handed
  step-left = elim (Option-cases (get_elem? s.threads k)) [
    | inl out ↦ rw (out, step, handed) (omega arith)
    | inr (t, at) ↦ rw (at, step, handed) (thread_step-left t at)
  ]
