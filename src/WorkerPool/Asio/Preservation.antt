-- ===== src/WorkerPool/Asio/Preservation.antt =====
-- Every step of the Asio worker pool keeps its invariant, which holds at the start.
use zio_benchmarks.Channel.{Channel, Sent, full, refused, sent, Received, empty, drained, received}
use zio_benchmarks.Shared.{
  ℕ, ◌+◌, ◌≤◌, ◌<◌, ◌≡◌, refl, sym, ap, ap₂, subst, ◌∙◌, true, inl, inr, [], ◌∷◌, Option, some,
  arith, get_elem?, WhenSome, All-get_elem?, total, Bool-cases, Option-cases, ltb, ◌==◌, bit_xor,
  total-replicate_zero, replicate, length-replicate,
}
use zio_benchmarks.Shared.Words.{u64}
use zio_benchmarks.Shared.Xor.{xor-zero}
use zio_benchmarks.Shared.XorTotal.{xor_total, xor_total-replicate_zero}
use zio_benchmarks.WorkerPool.Buffer.{is_sentinel, value_work, ItemsFirst}
use zio_benchmarks.WorkerPool.Asio.{
  Options, Producer, sending, stopping, returned, Consumer, receiving, leaving, finished, Pool,
  after_send, after_receive, fetch_sub, spawn_producers, Coroutine, producer, consumer,
  producer_step, consumer_step, init, put_producer, put_consumer, step,
}
use zio_benchmarks.WorkerPool.Asio.Measures.{Fits, is_stopped, held, unsent_work}
use zio_benchmarks.WorkerPool.Asio.Invariant.{Inv}
use zio_benchmarks.WorkerPool.Asio.Ranges.{
  IsBounded, spawned_work_all, spawn_sending, spawn_owed, spawn-Fits, length-spawn_producers,
}
use zio_benchmarks.WorkerPool.Asio.Producing.{
  send_item-Inv, other_sender-Inv, last_sender-Inv, send_sentinel-Inv, stop-Inv,
}
use zio_benchmarks.WorkerPool.Asio.Consuming.{receive_item-Inv, receive_sentinel-Inv, leave-Inv}

module _ (C : Channel) {o : Options} (fit : IsBounded o) {s : Pool C.Chan} (inv : Inv C o s) where
  open C use {
    Chan, buffered, is_open, capacity, send, receive, sent_lem, refused_lem, received_lem,
    drained_lem,
  }
  open fit use {consumers_fit}

  abbrev Keeps : Option (Pool Chan) → Type 0
  Keeps = WhenSome (Inv C o)

  sent_item-Inv :
      (i n e : ℕ)
      → get_elem? s.producers i ≡ some (sending n e)
      → n < e
      → (r : Sent Chan) → send s.memory.chan (u64 (n + 1)) ≡ r
      → Keeps (put_producer C s i (after_send s.memory (sending (u64 (n + 1)) e) r))
  unfolding after_send
  sent_item-Inv i n e at below full law = tt
  sent_item-Inv i n e at below refused law =
      cc (refused_lem s.memory.chan (u64 (n + 1)) law, inv.opened)
  sent_item-Inv i n e at below (sent d) law =
      send_item-Inv C o s inv i n e (u64 (n + 1)) d at below
        (omega (arith, All-get_elem? (Fits o.consumers) s.producers i inv.fits at))
        (sent_lem s.memory.chan (u64 (n + 1)) d law)

  sent_sentinel-Inv :
      (i c : ℕ)
      → get_elem? s.producers i ≡ some (stopping c)
      → c < o.consumers
      → (r : Sent Chan) → send s.memory.chan 0 ≡ r
      → Keeps (put_producer C s i (after_send s.memory (stopping (u64 (c + 1))) r))
  unfolding after_send
  sent_sentinel-Inv i c at below full law = tt
  sent_sentinel-Inv i c at below refused law = cc (refused_lem s.memory.chan 0 law, inv.opened)
  sent_sentinel-Inv i c at below (sent d) law =
      send_sentinel-Inv C o s inv i c (u64 (c + 1)) d at below (omega (arith, consumers_fit))
        (sent_lem s.memory.chan 0 d law)

  fetch_sub-Inv :
      (i n e : ℕ)
      → get_elem? s.producers i ≡ some (sending n e)
      → e ≤ n
      → Keeps (put_producer C s i (some (fetch_sub s.memory)))
  unfolding fetch_sub
  fetch_sub-Inv i n e at past = elim (Bool-cases (s.memory.remaining == 1)) [
    | inl last ↦ rw last (last_sender-Inv C o s inv i n e at past (ground arith))
    | inr more ↦ rw more (other_sender-Inv C o s inv i n e at past (ground arith))
  ]

  producer_step-Inv :
      (i : ℕ) (p : Producer)
      → get_elem? s.producers i ≡ some p
      → Keeps (put_producer C s i (producer_step C o.consumers s.memory p))
  unfolding producer_step
  producer_step-Inv i (sending n e) at = elim (Bool-cases (ltb n e)) [
    | inl below ↦ rw below (sent_item-Inv i n e at (ground arith) _ refl)
    | inr past ↦ rw past (fetch_sub-Inv i n e at (ground arith))
  ]
  producer_step-Inv i (stopping c) at = elim (Bool-cases (ltb c o.consumers)) [
    | inl below ↦ rw below (sent_sentinel-Inv i c at (ground arith) _ refl)
    | inr past ↦ rw past (stop-Inv C o s inv i c at (ground arith))
  ]
  producer_step-Inv i returned at = tt

  receive-Inv :
      (j acc : ℕ)
      → get_elem? s.consumers j ≡ some (receiving acc)
      → (r : Received Chan) → receive s.memory.chan ≡ r
      → Keeps (put_consumer C s j (after_receive o.work_iters s.memory acc r))
  unfolding after_receive
  receive-Inv j acc at empty law = tt
  receive-Inv j acc at drained law = cc ((drained_lem s.memory.chan law).1, inv.opened)
  receive-Inv j acc at (received v d) law = elim (Bool-cases (v == 0)) [
    | inl stop ↦
        let sentinel : v ≡ 0 = ground arith in
        rw stop (
          receive_sentinel-Inv C o s inv j acc d at (
            subst
              (λ t.
                (buffered s.memory.chan ≡ t ∷ buffered d)
                × (is_open d ≡ is_open s.memory.chan)
                × (capacity d ≡ capacity s.memory.chan))
              sentinel (received_lem s.memory.chan v d law)))
    | inr item ↦ rw item (
        receive_item-Inv C o s inv j acc v d at (ground arith) (received_lem s.memory.chan v d law))
  ]

  consumer_step-Inv :
      (j : ℕ) (c : Consumer)
      → get_elem? s.consumers j ≡ some c
      → Keeps (put_consumer C s j (consumer_step C o.work_iters s.memory c))
  unfolding consumer_step
  consumer_step-Inv j (receiving acc) at = receive-Inv j acc at _ refl
  consumer_step-Inv j (leaving acc) at = leave-Inv C o s inv j acc at
  consumer_step-Inv j finished at = tt

  -- Whatever coroutine is resumed, the invariant is kept.
  pub step-Inv : (k : Coroutine) → Keeps (step C o s k)
  unfolding step
  step-Inv (producer i) = elim (Option-cases (get_elem? s.producers i)) [
    | inl out ↦ rw (out, step) tt
    | inr (p, at) ↦ rw (at, step) (producer_step-Inv i p at)
  ]
  step-Inv (consumer j) = elim (Option-cases (get_elem? s.consumers j)) [
    | inl out ↦ rw (out, step) tt
    | inr (c, at) ↦ rw (at, step) (consumer_step-Inv j c at)
  ]

module _ (C : Channel) {o : Options} (fit : IsBounded o) where
  pub init-Inv : Inv C o (init C o)
  unfolding init
  init-Inv = record {
    opened = law.1;
    room = law.2;
    counted = sym (spawn_sending o 0 o.producers);
    bounded = fit.producers_fit;
    fits = spawn-Fits o 0 o.producers o.consumers;
    ordered = subst ItemsFirst (sym law.0) tt;
    early = λ z. omega (arith, none_buffered, none_stopped, spawn_owed o 0 o.producers o.consumers);
    late = λ z. absurd (omega (arith, spawn_sending o 0 o.producers, fit.some_producer));
    cleared = λ z. absurd (omega (arith, none_stopped));
    all_producers = length-spawn_producers o 0 o.producers;
    all_consumers = length-replicate o.consumers (receiving 0);
    ledger =
        ap (bit_xor (xor_total (unsent_work o.work_iters) (spawn_producers o 0 o.producers)))
          nothing_yet
        ∙ xor-zero (xor_total (unsent_work o.work_iters) (spawn_producers o 0 o.producers))
        ∙ spawned_work_all fit o.work_iters;
  }
    where
      open C use {Chan, make, buffered, is_open, capacity, make_lem}

      law : (buffered (make 256) ≡ []) × (is_open (make 256) ≡ true) × (capacity (make 256) ≡ 256)
      law = make_lem 256

      none_buffered : total is_sentinel (buffered (make 256)) ≡ 0
      none_buffered = ap (total is_sentinel) law.0

      none_stopped : total is_stopped (init C o).consumers ≡ 0
      none_stopped = total-replicate_zero is_stopped o.consumers (receiving 0) refl

      nothing_yet :
          bit_xor
            (xor_total (value_work o.work_iters) (buffered (make 256)))
            (bit_xor (xor_total held (replicate o.consumers (receiving 0))) 0)
          ≡ 0
      nothing_yet =
          ap₂ (λ b h. bit_xor b (bit_xor h 0)) (ap (xor_total (value_work o.work_iters)) law.0)
            (xor_total-replicate_zero held o.consumers (receiving 0) refl)
