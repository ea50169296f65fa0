-- ===== src/WorkerPool/Asio/Termination.antt =====
-- The Asio worker pool comes to an end: every step uses up work, and any fair schedule is enough.
use zio_benchmarks.Channel.{Channel, Sent, full, refused, sent, Received, empty, drained, received}
use zio_benchmarks.Shared.{
  ℕ, ◌+◌, ◌*◌, ◌-◌, ◌<◌, ◌≤◌, ◌≡◌, refl, ap, ◌∙◌, [], ◌∷◌, Option, some, arith, total, length, inl,
  inr, get_elem?, set, Bool-cases, Option-cases, ltb, ◌==◌, total-set, length-append, WhenSome,
  All-get_elem?, bit_xor,
}
use zio_benchmarks.Shared.Words.{u64}
use zio_benchmarks.WorkerPool.Hash.{work}
use zio_benchmarks.WorkerPool.Asio.{
  Options, Producer, sending, stopping, returned, Consumer, receiving, leaving, finished, Pool,
  Coroutine, producer, consumer, after_send, after_receive, fetch_sub, fetch_xor, producer_step,
  consumer_step, put_producer, put_consumer, step,
}
use zio_benchmarks.WorkerPool.Asio.Measures.{Fits}
use zio_benchmarks.WorkerPool.Asio.Invariant.{Inv}
use zio_benchmarks.WorkerPool.Asio.Ranges.{IsBounded}

-- What a coroutine may still do, a receive and its end counted with each send.
abbrev pub producer_steps : ℕ → Producer → ℕ
producer_steps consumers (sending n e) = 2 * (e - n) + 2 * consumers + 2
producer_steps consumers (stopping c) = 2 * (consumers - c) + 1
producer_steps consumers returned = 0

abbrev pub consumer_steps : Consumer → ℕ
consumer_steps (receiving acc) = 2
consumer_steps (leaving acc) = 1
consumer_steps finished = 0

module _ (C : Channel) (o : Options) where
  open C use {Chan, buffered, send, receive, sent_lem, received_lem, drained_lem}

  abbrev pub measure : Pool Chan → ℕ
  measure s =
      total (producer_steps o.consumers) s.producers
      + length (buffered s.memory.chan)
      + total consumer_steps s.consumers

module _ (C : Channel) {o : Options} (fit : IsBounded o) {s : Pool C.Chan} (inv : Inv C o s) where
  open C use {
    Chan, buffered, is_open, capacity, send, receive, sent_lem, refused_lem, received_lem,
    drained_lem,
  }

  abbrev Lowers : Option (Pool Chan) → Type 0
  Lowers = WhenSome (λ t. measure C o t < measure C o s)

  after_send-Lowers :
      (i : ℕ) (p next : Producer) (v : ℕ)
      → get_elem? s.producers i ≡ some p
      → producer_steps o.consumers next + 2 ≤ producer_steps o.consumers p
      → (r : Sent Chan) → send s.memory.chan v ≡ r
      → Lowers (put_producer C s i (after_send s.memory next r))
  unfolding after_send
  after_send-Lowers i p next v at fewer full law = tt
  after_send-Lowers i p next v at fewer refused law =
      cc (refused_lem s.memory.chan v law, inv.opened)
  after_send-Lowers i p next v at fewer (sent d) law = omega (
    arith,
    total-set (producer_steps o.consumers) s.producers i p next at,
    ap length (sent_lem s.memory.chan v d law).0,
    length-append (buffered s.memory.chan) (v ∷ []),
  )

  ends-Lowers :
      (i : ℕ) (p q : Producer)
      → get_elem? s.producers i ≡ some p
      → producer_steps o.consumers q < producer_steps o.consumers p
      → measure C o (record s { producers = set s.producers i q }) < measure C o s
  ends-Lowers i p q at fewer =
      omega (arith, total-set (producer_steps o.consumers) s.producers i p q at)

  fetch_sub-Lowers :
      (i n e : ℕ)
      → get_elem? s.producers i ≡ some (sending n e)
      → Lowers (put_producer C s i (some (fetch_sub s.memory)))
  unfolding fetch_sub
  fetch_sub-Lowers i n e at = elim (Bool-cases (s.memory.remaining == 1)) [
    | inl last ↦ rw last (ends-Lowers i (sending n e) (stopping 0) at (omega arith))
    | inr more ↦ rw more (ends-Lowers i (sending n e) returned at (omega arith))
  ]

  producer_step-Lowers :
      (i : ℕ) (p : Producer)
      → get_elem? s.producers i ≡ some p
      → Lowers (put_producer C s i (producer_step C o.consumers s.memory p))
  unfolding producer_step
  producer_step-Lowers i (sending n e) at = elim (Bool-cases (ltb n e)) [
    | inl below ↦ rw below (
        after_send-Lowers i (sending n e) (sending (u64 (n + 1)) e) (u64 (n + 1)) at
          (next_round (ground arith)) _ refl)
    | inr past ↦ rw past (fetch_sub-Lowers i n e at)
  ]
    where
      next_round :
          n < e
          → 2 * (e - u64 (n + 1)) + 2 * o.consumers + 2 + 2 ≤ 2 * (e - n) + 2 * o.consumers + 2
      next_round below = omega (arith, All-get_elem? (Fits o.consumers) s.producers i inv.fits at)
  producer_step-Lowers i (stopping c) at = elim (Bool-cases (ltb c o.consumers)) [
    | inl below ↦ rw below (
        after_send-Lowers i (stopping c) (stopping (u64 (c + 1))) 0 at (next_round (ground arith)) _
          refl)
    | inr past ↦ rw past (ends-Lowers i (stopping c) returned at (omega arith))
  ]
    where
      next_round :
          c < o.consumers → 2 * (o.consumers - u64 (c + 1)) + 1 + 2 ≤ 2 * (o.consumers - c) + 1
      next_round below = omega (arith, fit.consumers_fit)
  producer_step-Lowers i returned at = tt

  receive-Lowers :
      (j acc : ℕ)
      → get_elem? s.consumers j ≡ some (receiving acc)
      → (r : Received Chan) → receive s.memory.chan ≡ r
      → Lowers (put_consumer C s j (after_receive o.work_iters s.memory acc r))
  unfolding after_receive
  receive-Lowers j acc at empty law = tt
  receive-Lowers j acc at drained law = cc ((drained_lem s.memory.chan law).1, inv.opened)
  receive-Lowers j acc at (received v d) law = elim (Bool-cases (v == 0)) [
    | inl stop ↦ rw stop (
        omega
          (arith, shorter, total-set consumer_steps s.consumers j (receiving acc) (leaving acc) at))
    | inr item ↦ rw item (
        omega (
          arith,
          shorter,
          total-set consumer_steps s.consumers j (receiving acc)
              (receiving (bit_xor acc (work v o.work_iters))) at,
        ))
  ]
    where
      shorter : length (buffered s.memory.chan) ≡ 1 + length (buffered d)
      shorter = ap length (received_lem s.memory.chan v d law).0 ∙ omega arith

  consumer_step-Lowers :
      (j : ℕ) (c : Consumer)
      → get_elem? s.consumers j ≡ some c
      → Lowers (put_consumer C s j (consumer_step C o.work_iters s.memory c))
  unfolding consumer_step fetch_xor
  consumer_step-Lowers j (receiving acc) at = receive-Lowers j acc at _ refl
  consumer_step-Lowers j (leaving acc) at =
      omega (arith, total-set consumer_steps s.consumers j (leaving acc) finished at)
  consumer_step-Lowers j finished at = tt

  pub step-Lowers : (k : Coroutine) → Lowers (step C o s k)
  unfolding step
  step-Lowers (producer i) = elim (Option-cases (get_elem? s.producers i)) [
    | inl out ↦ rw (out, step) tt
    | inr (p, at) ↦ rw (at, step) (producer_step-Lowers i p at)
  ]
  step-Lowers (consumer j) = elim (Option-cases (get_elem? s.consumers j)) [
    | inl out ↦ rw (out, step) tt
    | inr (c, at) ↦ rw (at, step) (consumer_step-Lowers j c at)
  ]

-- A bound on the steps of a whole run, in terms of the options.
abbrev pub step_bound : Options → ℕ
step_bound o = 2 * o.items + o.producers * (2 * o.consumers + 2) + 2 * o.consumers
