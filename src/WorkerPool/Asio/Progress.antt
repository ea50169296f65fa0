-- ===== src/WorkerPool/Asio/Progress.antt =====
-- The Asio worker pool never deadlocks: until all coroutines have returned, one can go on.
use native.Mathlib.Decide.{ℕ_discrete, dec_lt}
use zio_benchmarks.Channel.{Channel, Sent, full, refused, sent, Received, empty, drained, received}
use zio_benchmarks.Schedule.{CanStep}
use zio_benchmarks.Shared.{
  ℕ, zero, suc, ◌+◌, ◌<◌, ◌≤◌, ◌≡◌, ◌≢◌, ◌⊎◌, refl, ap, ◌∙◌, List, [], ◌∷◌, some, arith, All, total,
  length, inl, inr, get_elem?, find_other, Bool-cases, ltb, total-All_same, set,
}
use zio_benchmarks.Shared.Words.{u64}
use zio_benchmarks.WorkerPool.Buffer.{length-total}
use zio_benchmarks.WorkerPool.Asio.{
  Options, Memory, Producer, sending, stopping, returned, Consumer, receiving, leaving, finished,
  Pool, Coroutine, producer, consumer, after_send, after_receive, fetch_sub, producer_step,
  consumer_step, step, IsJoined, channel_capacity,
}
use zio_benchmarks.WorkerPool.Asio.Measures.{is_sending, owed, is_stopped}
use zio_benchmarks.WorkerPool.Asio.Invariant.{Inv}
use zio_benchmarks.WorkerPool.Asio.Safety.{All-stopped}

pub Producer-discrete : Discrete Producer
Producer-discrete = hlevel ℕ_discrete

pub Consumer-discrete : Discrete Consumer
Consumer-discrete = hlevel ℕ_discrete

module _ (C : Channel) {o : Options} {s : Pool C.Chan} (inv : Inv C o s) where
  open C use {
    Chan, buffered, is_open, capacity, send, receive, full_lem, refused_lem, empty_lem, drained_lem,
  }

  -- A send goes through while fewer values are buffered than the capacity.
  after_send-some :
      (v : ℕ) (next : Producer)
      → length (buffered s.memory.chan) < channel_capacity
      → (r : Sent Chan) → send s.memory.chan v ≡ r
      → (a : Memory Chan × Producer) × (after_send s.memory next r ≡ some a)
  unfolding after_send
  after_send-some v next room full law =
      absurd (omega (arith, full_lem s.memory.chan v law, inv.room))
  after_send-some v next room refused law = cc (refused_lem s.memory.chan v law, inv.opened)
  after_send-some v next room (sent d) law = (_, refl)

  producer_step-some :
      (p : Producer)
      → p ≢ returned
      → length (buffered s.memory.chan) < channel_capacity
      → (a : Memory Chan × Producer) × (producer_step C o.consumers s.memory p ≡ some a)
  unfolding producer_step
  producer_step-some (sending n e) alive room = elim (Bool-cases (ltb n e)) [
    | inl below ↦
        rw (below, producer_step)
          (after_send-some (u64 (n + 1)) (sending (u64 (n + 1)) e) room _ refl)
    | inr past ↦ (fetch_sub s.memory, rw (past, producer_step))
  ]
  producer_step-some (stopping c) alive room = elim (Bool-cases (ltb c o.consumers)) [
    | inl below ↦ rw (below, producer_step) (after_send-some 0 (stopping (u64 (c + 1))) room _ refl)
    | inr past ↦ ((s.memory, returned), rw (past, producer_step))
  ]
  producer_step-some returned alive room = absurd (alive refl)

  after_receive-some :
      (acc : ℕ)
      → 0 < length (buffered s.memory.chan)
      → (r : Received Chan) → receive s.memory.chan ≡ r
      → (a : Memory Chan × Consumer) × (after_receive o.work_iters s.memory acc r ≡ some a)
  unfolding after_receive
  after_receive-some acc loaded empty law =
      absurd (omega (arith, loaded, ap length (empty_lem s.memory.chan law).0))
  after_receive-some acc loaded drained law = (_, refl)
  after_receive-some acc loaded (received v d) law = (_, refl)

  consumer_step-some :
      (c : Consumer)
      → c ≢ finished
      → (is_stopped c ≡ 1) ⊎ (0 < length (buffered s.memory.chan))
      → (a : Memory Chan × Consumer) × (consumer_step C o.work_iters s.memory c ≡ some a)
  unfolding consumer_step
  consumer_step-some (receiving acc) alive (inl stopped) = absurd (omega arith)
  consumer_step-some (receiving acc) alive (inr loaded) = after_receive-some acc loaded _ refl
  consumer_step-some (leaving acc) alive why = (_, refl)
  consumer_step-some finished alive why = absurd (alive refl)

  producer_can :
      (i : ℕ) (p : Producer)
      → get_elem? s.producers i ≡ some p
      → p ≢ returned
      → length (buffered s.memory.chan) < channel_capacity
      → CanStep (step C o) s (producer i)
  unfolding step
  producer_can i p at alive room =
      let ((m, q), e) = producer_step-some p alive room in
      (record s { memory = m; producers = set s.producers i q }, rw (at, step, e))

  consumer_can :
      (j : ℕ) (c : Consumer)
      → get_elem? s.consumers j ≡ some c
      → c ≢ finished
      → (is_stopped c ≡ 1) ⊎ (0 < length (buffered s.memory.chan))
      → CanStep (step C o) s (consumer j)
  unfolding step
  consumer_can j c at alive why =
      let ((m, q), e) = consumer_step-some c alive why in
      (record s { memory = m; consumers = set s.consumers j q }, rw (at, step, e))

-- A consumer that still receives has not stopped.
stopped-lt_length :
    (cs : List Consumer) (j acc : ℕ)
    → get_elem? cs j ≡ some (receiving acc)
    → total is_stopped cs < length cs
stopped-lt_length cs j acc at = omega (arith, one_receives cs j at)
  where
    stopped-le : (xs : List Consumer) → total is_stopped xs ≤ length xs
    stopped-le [] = omega arith
    stopped-le (receiving a ∷ xs) = omega (arith, stopped-le xs)
    stopped-le (leaving a ∷ xs) = omega (arith, stopped-le xs)
    stopped-le (finished ∷ xs) = omega (arith, stopped-le xs)

    one_receives :
        (xs : List Consumer) (i : ℕ)
        → get_elem? xs i ≡ some (receiving acc)
        → total is_stopped xs + 1 ≤ length xs
    one_receives [] i e = cc
    one_receives (x ∷ xs) zero e =
        let same : x ≡ receiving acc = cc in omega (arith, ap is_stopped same, stopped-le xs)
    one_receives (receiving a ∷ xs) (suc i) e = omega (arith, one_receives xs i e)
    one_receives (leaving a ∷ xs) (suc i) e = omega (arith, one_receives xs i e)
    one_receives (finished ∷ xs) (suc i) e = omega (arith, one_receives xs i e)

module _ (C : Channel) {o : Options} (some_consumer : 0 < o.consumers) {s : Pool C.Chan}
    (inv : Inv C o s) where
  open C use {Chan, buffered}

  -- With every consumer at its end the channel is empty, so that a producer can go on.
  room_after_stop : total is_stopped s.consumers ≡ o.consumers → length (buffered s.memory.chan) ≡ 0
  room_after_stop stopped = omega (
    arith,
    length-total (buffered s.memory.chan),
    inv.cleared (omega (arith, some_consumer)),
    inv.late none_sending,
  )
    where
      none_sending : total is_sending s.producers ≡ 0
      none_sending = ground (arith, inv.early)

  -- All producers have returned, the channel is empty, and yet a consumer receives: impossible.
  no_starvation :
      (j acc : ℕ)
      → get_elem? s.consumers j ≡ some (receiving acc)
      → All (λ p. p ≡ returned) s.producers
      → length (buffered s.memory.chan) ≡ 0
      → ⊥
  no_starvation j acc at all none_left = omega (
    arith,
    stopped-lt_length s.consumers j acc at,
    inv.all_consumers,
    length-total (buffered s.memory.chan),
    total-All_same returned (owed o.consumers) s.producers all refl,
    inv.late (total-All_same returned is_sending s.producers all refl),
  )

  producers_go_on :
      length (buffered s.memory.chan) ≡ 0
      → All (λ p. p ≡ returned) s.producers ⊎ ((k : Coroutine) × CanStep (step C o) s k)
  producers_go_on none_left = elim (find_other Producer-discrete returned s.producers) [
    | inl all ↦ inl all
    | inr (i, p, at, alive) ↦ inr (producer i, producer_can C inv i p at alive (omega arith))
  ]

  consumer_goes_on :
      (j : ℕ) (c : Consumer)
      → get_elem? s.consumers j ≡ some c
      → c ≢ finished
      → (k : Coroutine) × CanStep (step C o) s k
  consumer_goes_on j (receiving acc) at alive = elim (dec_lt 0 (length (buffered s.memory.chan))) [
    | yes loaded ↦ (consumer j, consumer_can C inv j (receiving acc) at alive (inr loaded))
    | no none_left ↦ elim (producers_go_on (omega arith)) [
      | inl all ↦ absurd (no_starvation j acc at all (omega arith))
      | inr can ↦ can
    ]
  ]
  consumer_goes_on j (leaving acc) at alive =
      (consumer j, consumer_can C inv j (leaving acc) at alive (inl refl))
  consumer_goes_on j finished at alive = absurd (alive refl)

  pub IsJoined-or_goes_on : IsJoined s ⊎ ((k : Coroutine) × CanStep (step C o) s k)
  IsJoined-or_goes_on = elim (find_other Consumer-discrete finished s.consumers) [
    | inr (j, c, at, alive) ↦ inr (consumer_goes_on j c at alive)
    | inl all ↦
        elim (producers_go_on (room_after_stop (All-stopped s.consumers all ∙ inv.all_consumers))) [
          | inl returned_all ↦ inl (returned_all, all)
          | inr can ↦ inr can
        ]
  ]
