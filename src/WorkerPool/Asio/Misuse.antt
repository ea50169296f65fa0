-- ===== src/WorkerPool/Asio/Misuse.antt =====
-- Options that worker_pool_asio.cpp accepts and cannot serve.
use native.Mathlib.Nat.{div-lt_iff_lt-mul, mul_comm}
use zio_benchmarks.Channel.{Channel, Received, empty, drained, received}
use zio_benchmarks.Schedule.{run}
use zio_benchmarks.Shared.{
  ℕ, zero, suc, ◌+◌, ◌-◌, ◌*◌, ◌^◌, ◌≤◌, ◌<◌, ◌≡◌, ◌⊎◌, refl, List, [], ◌∷◌, none, some, arith,
  get_elem?, replicate, All, inl, inr, subst,
}
use zio_benchmarks.Shared.Words.{u64}
use zio_benchmarks.WorkerPool.Asio.{
  Options, Memory, receiving, finished, Coroutine, producer, consumer, after_receive,
  spawn_producers, consumer_step, range_end, step, init, IsJoined,
}

-- Every consumer that was never resumed is at its first receive.
get_elem?-replicate {ℓ} :
    {A : Type ℓ} (n i : ℕ) (a : A)
    → (get_elem? (replicate n a) i ≡ none) ⊎ (get_elem? (replicate n a) i ≡ some a)
get_elem?-replicate zero i a = inl refl
get_elem?-replicate (suc n) zero a = inr refl
get_elem?-replicate (suc n) (suc i) a = get_elem?-replicate n i a

module _ (C : Channel) (o : Options) (none_produce : o.producers ≡ 0) where
  open C use {Chan, make, buffered, receive, make_lem, empty_lem, drained_lem, received_lem}

  -- A receive from the new channel does not complete.
  new_channel_waits :
      (m : Memory Chan) (r : Received Chan)
      → receive (make 256) ≡ r
      → after_receive o.work_iters m 0 r ≡ none
  unfolding after_receive
  new_channel_waits m empty law = refl
  new_channel_waits m drained law = cc ((drained_lem (make 256) law).1, (make_lem 256).1)
  new_channel_waits m (received v d) law =
      cc ((received_lem (make 256) v d law).0, (make_lem 256).0)

  all_blocked : (k : Coroutine) → step C o (init C o) k ≡ none
  unfolding step init consumer_step
  all_blocked (producer i) = rw (none_produce, spawn_producers)
  all_blocked (consumer j) = elim (get_elem?-replicate o.consumers j (receiving 0)) [
    | inl out ↦ rw (out, step)
    | inr at ↦ rw (at, step, new_channel_waits (init C o).memory (receive (make 256)) refl)
  ]

  -- With no producer nobody sends the sentinels: whatever the schedule, the pool stays as it is.
  no_producer_stuck : (ks : List Coroutine) → run (step C o) (init C o) ks ≡ init C o
  unfolding run
  no_producer_stuck [] = refl
  no_producer_stuck (k ∷ ks) = rw (all_blocked k) (no_producer_stuck ks)

one_unfinished : (n : ℕ) → 0 < n → All (λ c. c ≡ finished) (replicate n (receiving 0)) → ⊥
one_unfinished zero pos all = absurd (omega arith)
one_unfinished (suc n) pos all = cc (all.0)

-- With no producer and some consumer, `pool.join()` never returns, whatever the schedule.
pub no_producer_hangs :
    (C : Channel) (o : Options)
    → o.producers ≡ 0
    → 0 < o.consumers
    → (ks : List Coroutine) → ¬ IsJoined (run (step C o) (init C o) ks)
unfolding init
no_producer_hangs C o none_produce some_consumer ks joined =
    one_unfinished o.consumers some_consumer
      (subst IsJoined (no_producer_stuck C o none_produce ks) joined).1

-- Where the product of the split exceeds 64 bits, the last range ends before the last item.
pub split_overflows :
    (o : Options)
    → 0 < o.producers
    → o.producers < 2 ^ 64
    → 2 ^ 64 ≤ o.producers * o.items
    → range_end o (o.producers - 1) < o.items
unfolding range_end
split_overflows o pos small large =
    let whole : u64 (o.producers - 1 + 1) ≡ o.producers = omega arith in
    rw whole ((div-lt_iff_lt-mul pos).1 (omega (arith, mul_comm o.items o.producers)))
