-- ===== src/WorkerPool/Photon/Preservation.antt =====
-- Every step of the Photon worker pool keeps its invariant.
use zio_benchmarks.Photon.{Photon}
use zio_benchmarks.Shared.{
  ℕ, ◌+◌, ◌-◌, ◌<◌, ◌≡◌, refl, ap, ◌∙◌, sym, inl, inr, Option, some, Bool-cases, Option-cases, ltb,
  ◌==◌, WhenSome, get_elem?, All-get_elem?, bit_xor, arith,
}
use zio_benchmarks.Shared.Words.{u64}
use zio_benchmarks.Shared.Xor.{xor-zero}
use zio_benchmarks.WorkerPool.Hash.{work}
use zio_benchmarks.WorkerPool.Buffer.{is_sentinel, value_work}
use zio_benchmarks.WorkerPool.Expected.{range_work}
use zio_benchmarks.WorkerPool.Asio.{Options}
use zio_benchmarks.WorkerPool.Asio.Ranges.{IsBounded}
use zio_benchmarks.WorkerPool.Photon.{
  reserving, locking, writing, posting, fetching, entering, reading, freeing, Thread, producing,
  produced, consuming, leaving, signing, consumed, awaiting_producers, stopping, awaiting_consumers,
  ended, State, reserve, acquire, post, fetch, give_back, thread_step, put_thread, step,
}
use zio_benchmarks.WorkerPool.Photon.Weights.{Fits}
use zio_benchmarks.WorkerPool.Photon.Invariant.{Inv}
use zio_benchmarks.WorkerPool.Photon.Queueing.{
  reserve-Keeps, fetch-Keeps, lock-Keeps, post-Inv, free-Inv,
}
use zio_benchmarks.WorkerPool.Photon.Finishing.{
  produced-Inv, leave-Inv, consumed-Inv, pass_producers-Keeps, pass_consumers-Keeps, stopped-Inv,
}
use zio_benchmarks.WorkerPool.Photon.Slotting.{write_item-Inv, write_sentinel-Inv}
use zio_benchmarks.WorkerPool.Photon.Reading.{read-Inv}

module _ (Ph : Photon) {o : Options} (fit : IsBounded o) {s : State Ph} (inv : Inv Ph o s)
    (k : ℕ) where
  open fit use {consumers_fit}

  abbrev Keeps : Option (State Ph) → Type 0
  Keeps = WhenSome (Inv Ph o)

  Fits-here : {t : Thread} → get_elem? s.threads k ≡ some t → Fits o.consumers t
  Fits-here at = All-get_elem? (Fits o.consumers) s.threads k inv.fits at

  -- A value is freed: it was a sentinel, or the work on it is done.
  freed-Keeps :
      (acc v : ℕ)
      → get_elem? s.threads k ≡ some (consuming acc (freeing v))
      → Keeps (put_thread Ph s k (thread_step Ph o s.memory (consuming acc (freeing v))))
  unfolding thread_step give_back
  freed-Keeps acc v at = elim (Bool-cases (v == 0)) [
    | inl stop ↦
        let sentinel : is_sentinel v ≡ 1 = ground arith in
        let idle : value_work o.work_iters v ≡ 0 = ground arith in
        rw stop (
          free-Inv Ph inv k (consuming acc (freeing v)) (leaving acc) at
            (
              refl,
              refl,
              sym sentinel,
              refl,
              refl,
              refl,
              refl,
              ap (bit_xor acc) idle ∙ xor-zero acc,
              tt,
            )
            (refl, refl, refl))
    | inr item ↦
        let plain : is_sentinel v ≡ 0 = ground arith in
        let busy : value_work o.work_iters v ≡ work v o.work_iters = ground arith in
        rw item (
          free-Inv Ph inv k (consuming acc (freeing v))
            (consuming (bit_xor acc (work v o.work_iters)) fetching) at
            (refl, refl, sym plain, refl, refl, refl, refl, ap (bit_xor acc) busy, tt)
            (refl, refl, refl))
  ]

  producer-Keeps :
      (i e : ℕ)
      → get_elem? s.threads k ≡ some (producing i e reserving)
      → Keeps (put_thread Ph s k (thread_step Ph o s.memory (producing i e reserving)))
  unfolding thread_step reserve
  producer-Keeps i e at = elim (Bool-cases (ltb i e)) [
    | inl below ↦ rw below (
        reserve-Keeps Ph inv k (producing i e reserving) (producing i e locking) at
          (
            refl,
            refl,
            refl,
            refl,
            refl,
            refl,
            refl,
            refl,
            ((Fits-here at).0, (let inside : i < e = ground arith in omega arith)),
          )
          (refl, refl, refl) _ refl)
    | inr past ↦ rw past (produced-Inv Ph inv k i e at (ground arith))
  ]

  main-Keeps :
      (c : ℕ)
      → get_elem? s.threads k ≡ some (stopping c reserving)
      → Keeps (put_thread Ph s k (thread_step Ph o s.memory (stopping c reserving)))
  unfolding thread_step reserve
  main-Keeps c at = elim (Bool-cases (ltb c o.consumers)) [
    | inl below ↦ rw below (
        reserve-Keeps Ph inv k (stopping c reserving) (stopping c locking) at
          (
            refl,
            refl,
            refl,
            refl,
            refl,
            refl,
            refl,
            refl,
            ((Fits-here at).0, (let inside : c < o.consumers = ground arith in omega arith)),
          )
          (refl, refl, refl) _ refl)
    | inr past ↦ rw past (stopped-Inv Ph inv k c at (ground arith))
  ]

  thread_step-Keeps :
      (t : Thread)
      → get_elem? s.threads k ≡ some t
      → Keeps (put_thread Ph s k (thread_step Ph o s.memory t))
  unfolding thread_step acquire post fetch
  thread_step-Keeps (producing i e reserving) at = producer-Keeps i e at
  thread_step-Keeps (producing i e locking) at =
      lock-Keeps Ph inv k (producing i e locking) (producing i e writing) at
        (refl, refl, refl, refl, refl, refl, refl, refl, Fits-here at) (refl, refl, refl) _ refl
  thread_step-Keeps (producing i e writing) at =
      write_item-Inv Ph inv k i e (u64 (i + 1)) at (omega (arith, Fits-here at))
  thread_step-Keeps (producing i e posting) at =
      post-Inv Ph inv k (producing i e posting) (producing (u64 (i + 1)) e reserving) at
        (
          refl,
          refl,
          refl,
          refl,
          refl,
          refl,
          refl,
          ap (λ n. range_work o.work_iters n (e - n)) next,
          (omega (arith, Fits-here at)),
        )
        (refl, refl, refl)
    where
      next : i + 1 ≡ u64 (i + 1) + 0
      next = omega (arith, Fits-here at)
  thread_step-Keeps produced at = tt
  thread_step-Keeps (consuming acc fetching) at = fetch-Keeps Ph inv k acc at _ refl
  thread_step-Keeps (consuming acc entering) at =
      lock-Keeps Ph inv k (consuming acc entering) (consuming acc reading) at
        (refl, refl, refl, refl, refl, refl, refl, refl, tt) (refl, refl, refl) _ refl
  thread_step-Keeps (consuming acc reading) at = read-Inv Ph inv k acc at
  thread_step-Keeps (consuming acc (freeing v)) at = freed-Keeps acc v at
  thread_step-Keeps (leaving acc) at = leave-Inv Ph inv k acc at
  thread_step-Keeps signing at = consumed-Inv Ph inv k at
  thread_step-Keeps consumed at = tt
  thread_step-Keeps awaiting_producers at = pass_producers-Keeps Ph inv k at _ refl
  thread_step-Keeps (stopping c reserving) at = main-Keeps c at
  thread_step-Keeps (stopping c locking) at =
      lock-Keeps Ph inv k (stopping c locking) (stopping c writing) at
        (refl, refl, refl, refl, refl, refl, refl, refl, Fits-here at) (refl, refl, refl) _ refl
  thread_step-Keeps (stopping c writing) at = write_sentinel-Inv Ph inv k c at
  thread_step-Keeps (stopping c posting) at =
      post-Inv Ph inv k (stopping c posting) (stopping (u64 (c + 1)) reserving) at
        (
          refl,
          refl,
          refl,
          refl,
          refl,
          refl,
          omega (arith, Fits-here at),
          refl,
          (omega (arith, Fits-here at)),
        )
        (refl, refl, refl)
  thread_step-Keeps awaiting_consumers at = pass_consumers-Keeps Ph inv k at _ refl
  thread_step-Keeps ended at = tt

  -- Whatever thread is resumed, the invariant is kept.
  pub step-Inv : Keeps (step Ph o s k)
  unfolding step
  step-Inv = elim (Option-cases (get_elem? s.threads k)) [
    | inl out ↦ rw (out, step) tt
    | inr (t, at) ↦ rw (at, step) (thread_step-Keeps t at)
  ]
