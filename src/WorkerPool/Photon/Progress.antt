-- ===== src/WorkerPool/Photon/Progress.antt =====
-- The Photon worker pool never deadlocks: until every thread has returned, one can go on.
use native.Mathlib.Decide.{dec_lt}
use zio_benchmarks.Photon.{Photon}
use zio_benchmarks.Shared.{
  ℕ, ◌<◌, ◌≡◌, ◌⊎◌, refl, ap, inl, inr, some, Bool-cases, ltb, get_elem?, All, arith, total,
  le-total, find_positive,
}
use zio_benchmarks.WorkerPool.Buffer.{length-total}
use zio_benchmarks.WorkerPool.Asio.{Options}
use zio_benchmarks.WorkerPool.Photon.{
  reserving, locking, writing, posting, Thread, producing, produced, consuming, leaving, signing,
  consumed, awaiting_producers, stopping, awaiting_consumers, ended, State, reserve, thread_step,
  IsOver,
}
use zio_benchmarks.WorkerPool.Photon.Slots.{used, contents, length-contents}
use zio_benchmarks.WorkerPool.Photon.Weights.{
  ready, is_producing, is_busy, is_stopped, took, took_last, is_main, is_waiting, is_ended,
  is_unended, is_past, is_owing, is_settled, owed,
}
use zio_benchmarks.WorkerPool.Photon.Invariant.{flag, Inv}
use zio_benchmarks.WorkerPool.Photon.Going.{
  total_none, total_add, GoesOn, goes, resume_space, pass_producers-some, pass_consumers-some,
  holder_goes, ready_goes,
}
use zio_benchmarks.WorkerPool.Photon.Ending.{main_last}
use zio_benchmarks.WorkerPool.Photon.Roles.{is_main-split, in_main_none}
use zio_benchmarks.WorkerPool.Photon.Quiet.{quiet_here, crew, consumer_goes, push_goes}

-- No thread is ready: each one waits on a semaphore, or has returned.
module _ (Ph : Photon) {o : Options} {s : State Ph} (inv : Inv Ph o s)
    (quiet : total ready s.threads ≡ 0) where
  open Ph use {count, signal}

  producer_goes :
      0 < o.consumers
      → (k : ℕ) (t : Thread) → get_elem? s.threads k ≡ some t
      → 0 < is_producing t
      → GoesOn Ph inv
  unfolding thread_step reserve
  producer_goes some_consumer k (producing i e reserving) at h = elim (Bool-cases (ltb i e)) [
    | inl below ↦ push_goes Ph inv quiet unstopped (λ p.
        let (a, e') = resume_space Ph inv (producing i e locking) p _ refl in
        goes Ph inv k {r = a} at (rw (below, thread_step) e'))
    | inr past ↦
        goes Ph inv k
          {r = (record s.memory { producers_done = signal 1 s.memory.producers_done }, produced)} at
          (rw (past, thread_step))
  ]
    where
      unstopped : total is_stopped s.threads < o.consumers
      unstopped = omega (
        arith,
        some_consumer,
        inv.sentinels,
        inv.early (omega (arith, le-total is_producing s.threads k (producing i e reserving) at)),
      )
  producer_goes some_consumer k (producing i e locking) at h =
      absurd (omega (arith, quiet_here Ph inv quiet k at))
  producer_goes some_consumer k (producing i e writing) at h =
      absurd (omega (arith, quiet_here Ph inv quiet k at))
  producer_goes some_consumer k (producing i e posting) at h =
      absurd (omega (arith, quiet_here Ph inv quiet k at))
  producer_goes some_consumer k produced at h = absurd (omega arith)
  producer_goes some_consumer k (consuming acc pc) at h = absurd (omega arith)
  producer_goes some_consumer k (leaving acc) at h = absurd (omega arith)
  producer_goes some_consumer k signing at h = absurd (omega arith)
  producer_goes some_consumer k consumed at h = absurd (omega arith)
  producer_goes some_consumer k awaiting_producers at h = absurd (omega arith)
  producer_goes some_consumer k (stopping c pc) at h = absurd (omega arith)
  producer_goes some_consumer k awaiting_consumers at h = absurd (omega arith)
  producer_goes some_consumer k ended at h = absurd (omega arith)

  -- Once no producer is left, `main` can go on, or a consumer, or every thread has returned.
  module _ (none_left : total is_producing s.threads ≡ 0) where
    at_start : (k : ℕ) → get_elem? s.threads k ≡ some awaiting_producers → GoesOn Ph inv
    unfolding thread_step
    at_start k at =
        let not_past : total is_past s.threads ≡ 0 = omega (
          arith,
          total_add is_past is_waiting is_main (is_main-split 0 1 1 1 1 0 0 0 refl refl refl refl)
              s.threads,
          inv.one_main,
          le-total is_waiting s.threads k awaiting_producers at,
        ) in
        let not_taken : total (took o.producers) s.threads ≡ 0 =
          total_none is_past (took o.producers)
            (in_main_none 0 1 1 1 0 o.producers o.producers _ (λ z. refl)
              (λ z. absurd (omega arith)) (λ z. absurd (omega arith)) (λ z. absurd (omega arith)))
            s.threads not_past in
        goes Ph inv k at
          (pass_producers-some Ph inv (omega (arith, inv.producers_left, not_taken)) _ refl).1

    at_end : (k : ℕ) → get_elem? s.threads k ≡ some awaiting_consumers → GoesOn Ph inv
    unfolding thread_step
    at_end k at = elim (dec_lt (count s.memory.consumers_done) o.consumers) [
      | no p ↦ goes Ph inv k at (pass_consumers-some Ph inv (omega (arith, p)) _ refl).1
      | yes p ↦ consumer_goes Ph inv quiet (loaded (busy p)) (busy p)
    ]
      where
        not_ended : total is_ended s.threads ≡ 0
        not_ended = omega (
          arith,
          total_add is_unended is_ended is_main (is_main-split 1 1 1 0 0 0 0 1 refl refl refl refl)
              s.threads,
          inv.one_main,
          le-total is_unended s.threads k awaiting_consumers at,
        )

        not_owing : total is_owing s.threads ≡ 0
        not_owing = omega (
          arith,
          total_add is_owing is_settled is_main (is_main-split 1 1 0 0 0 0 1 1 refl refl refl refl)
              s.threads,
          inv.one_main,
          le-total is_settled s.threads k awaiting_consumers at,
        )

        not_taken : total (took_last o.consumers) s.threads ≡ 0
        not_taken =
            total_none is_ended (took_last o.consumers)
              (in_main_none 0 0 0 1 0 0 o.consumers _ (λ z. refl) (λ z n pc. refl) (λ z. refl)
                (λ z. absurd (omega arith)))
              s.threads not_ended

        none_owed : total (owed o.consumers) s.threads ≡ 0
        none_owed =
            total_none is_owing (owed o.consumers)
              (in_main_none 1 1 0 0 o.consumers 0 0 _ (λ z. absurd (omega arith))
                (λ z. absurd (omega arith)) (λ z. refl) (λ z. refl))
              s.threads not_owing

        busy : count s.memory.consumers_done < o.consumers → 0 < total is_busy s.threads
        busy p = omega (arith, inv.consumers_left, not_taken, p)

        loaded : 0 < total is_busy s.threads → 0 < used s.memory.queue.ring
        loaded b = omega (
          arith,
          inv.sentinels,
          none_owed,
          crew Ph inv quiet,
          b,
          length-total (contents s.memory.queue.ring),
          length-contents s.memory.queue.ring,
        )

    main_goes :
        (k : ℕ) (t : Thread)
        → get_elem? s.threads k ≡ some t
        → 0 < is_main t
        → All IsOver s.threads ⊎ GoesOn Ph inv
    unfolding thread_step reserve
    main_goes k (producing i e pc) at h = absurd (omega arith)
    main_goes k produced at h = absurd (omega arith)
    main_goes k (consuming acc pc) at h = absurd (omega arith)
    main_goes k (leaving acc) at h = absurd (omega arith)
    main_goes k signing at h = absurd (omega arith)
    main_goes k consumed at h = absurd (omega arith)
    main_goes k awaiting_producers at h = inr (at_start k at)
    main_goes k (stopping c reserving) at h = inr (elim (Bool-cases (ltb c o.consumers)) [
      | inl below ↦
          push_goes Ph inv quiet
            (let inside : c < o.consumers = ground arith in
              omega (
                arith,
                inside,
                inv.sentinels,
                le-total (owed o.consumers) s.threads k (stopping c reserving) at,
              ))
            (λ p.
              let (a, e') = resume_space Ph inv (stopping c locking) p _ refl in
              goes Ph inv k {r = a} at (rw (below, thread_step) e'))
      | inr past ↦ goes Ph inv k {r = (s.memory, awaiting_consumers)} at (rw (past, thread_step))
    ])
    main_goes k (stopping c locking) at h = absurd (omega (arith, quiet_here Ph inv quiet k at))
    main_goes k (stopping c writing) at h = absurd (omega (arith, quiet_here Ph inv quiet k at))
    main_goes k (stopping c posting) at h = absurd (omega (arith, quiet_here Ph inv quiet k at))
    main_goes k awaiting_consumers at h = inr (at_end k at)
    main_goes k ended at h = inl (main_last Ph inv k at)

module _ (Ph : Photon) {o : Options} (some_consumer : 0 < o.consumers) {s : State Ph}
    (inv : Inv Ph o s) where
  open Ph use {is_locked}

  pub All-IsOver-or_goes_on : All IsOver s.threads ⊎ GoesOn Ph inv
  All-IsOver-or_goes_on = elim (Bool-cases (is_locked s.memory.queue.mu)) [
    | inl shut ↦ inr (holder_goes Ph inv (omega (arith, inv.locked, ap flag shut)))
    | inr open_ ↦ elim (dec_lt 0 (total ready s.threads)) [
      | yes p ↦ inr (ready_goes Ph inv open_ p)
      | no p ↦ elim (dec_lt 0 (total is_producing s.threads)) [
        | yes q ↦
            let (k, t, at, h) = find_positive is_producing s.threads q in
            inr (producer_goes Ph inv (omega arith) some_consumer k t at h)
        | no q ↦
            let (k, t, at, h) = find_positive is_main s.threads (omega (arith, inv.one_main)) in
            main_goes Ph inv (omega arith) (omega arith) k t at h
      ]
    ]
  ]
