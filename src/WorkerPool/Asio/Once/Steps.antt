-- ===== src/WorkerPool/Asio/Once/Steps.antt =====
-- Where an item of the Asio worker pool is: with its producer, in the channel, or handed to `work`.
use zio_benchmarks.Channel.{Channel, Sent, full, refused, sent, Received, empty, drained, received}
use zio_benchmarks.Schedule.{or_stay}
use zio_benchmarks.Shared.{
  ℕ, suc, ◌+◌, ◌≤◌, ◌<◌, ◌≡◌, refl, ap, inl, inr, [], ◌∷◌, some, get_elem?, set, total, total-set,
  ltb, ◌==◌, arith, Bool-cases, Option-cases, All-get_elem?,
}
use zio_benchmarks.Shared.Words.{u64}
use zio_benchmarks.WorkerPool.Buffer.{total-append}
use zio_benchmarks.WorkerPool.Items.{is_value, count, ahead-next, ahead_none, is_value_none}
use zio_benchmarks.WorkerPool.Asio.{
  Options, Producer, sending, stopping, returned, Consumer, receiving, leaving, finished, Pool,
  Coroutine, producer, consumer, after_send, after_receive, fetch_sub, producer_step, consumer_step,
  put_producer, put_consumer, step,
}
use zio_benchmarks.WorkerPool.Asio.Measures.{Fits}
use zio_benchmarks.WorkerPool.Asio.Invariant.{Inv}
use zio_benchmarks.WorkerPool.Asio.Once.{unsent, worked_on, handed}

module _ (C : Channel) {o : Options} {s : Pool C.Chan} (inv : Inv C o s) (n : ℕ) where
  open C use {Chan, buffered, send, receive, sent_lem, refused_lem, received_lem, drained_lem}

  -- How often item `n` is with a producer or in the channel.
  abbrev pub left : Pool Chan → ℕ
  left t = total (unsent n) t.producers + count (suc n) (buffered t.memory.chan)

  sent-left :
      (i a e v : ℕ) (r : Sent Chan)
      → get_elem? s.producers i ≡ some (sending a e)
      → a < e
      → v ≡ a + 1
      → send s.memory.chan v ≡ r
      → left (or_stay s (put_producer C s i (after_send s.memory (sending v e) r))) ≡ left s
  unfolding after_send
  sent-left i a e v full at below next law = refl
  sent-left i a e v refused at below next law = cc (refused_lem s.memory.chan v law, inv.opened)
  sent-left i a e v (sent d) at below next law = omega (
    arith,
    total-set (unsent n) s.producers i (sending a e) (sending v e) at,
    ap (count (suc n)) (sent_lem s.memory.chan v d law).0,
    total-append (is_value (suc n)) (buffered s.memory.chan) (v ∷ []),
    ahead-next n a e v below next,
  )

  sentinel-left :
      (i c c' : ℕ) (r : Sent Chan)
      → get_elem? s.producers i ≡ some (stopping c)
      → send s.memory.chan 0 ≡ r
      → left (or_stay s (put_producer C s i (after_send s.memory (stopping c') r))) ≡ left s
  unfolding after_send
  sentinel-left i c c' full at law = refl
  sentinel-left i c c' refused at law = cc (refused_lem s.memory.chan 0 law, inv.opened)
  sentinel-left i c c' (sent d) at law = omega (
    arith,
    total-set (unsent n) s.producers i (stopping c) (stopping c') at,
    ap (count (suc n)) (sent_lem s.memory.chan 0 d law).0,
    total-append (is_value (suc n)) (buffered s.memory.chan) (0 ∷ []),
    is_value_none n 0 refl,
  )

  -- A producer without items changes.
  idle-left :
      (i : ℕ) (p q : Producer)
      → get_elem? s.producers i ≡ some p
      → unsent n p ≡ 0
      → unsent n q ≡ 0
      → total (unsent n) (set s.producers i q) + count (suc n) (buffered s.memory.chan) ≡ left s
  idle-left i p q at was is = omega (arith, total-set (unsent n) s.producers i p q at, was, is)

  fetch_sub-left :
      (i a e : ℕ)
      → get_elem? s.producers i ≡ some (sending a e)
      → e ≤ a
      → left (or_stay s (put_producer C s i (some (fetch_sub s.memory)))) ≡ left s
  unfolding fetch_sub
  fetch_sub-left i a e at past = elim (Bool-cases (s.memory.remaining == 1)) [
    | inl last ↦ rw last (idle-left i (sending a e) (stopping 0) at (ahead_none n a e past) refl)
    | inr more ↦ rw more (idle-left i (sending a e) returned at (ahead_none n a e past) refl)
  ]

  producer_step-left :
      (i : ℕ) (p : Producer)
      → get_elem? s.producers i ≡ some p
      → left (or_stay s (put_producer C s i (producer_step C o.consumers s.memory p))) ≡ left s
  unfolding producer_step
  producer_step-left i (sending a e) at = elim (Bool-cases (ltb a e)) [
    | inl below ↦ rw below (
        sent-left i a e (u64 (a + 1)) (send s.memory.chan (u64 (a + 1))) at (ground arith)
          (wrap i a e at (ground arith)) refl)
    | inr past ↦ rw past (fetch_sub-left i a e at (ground arith))
  ]
    where
      wrap :
          (i a e : ℕ) → get_elem? s.producers i ≡ some (sending a e) → a < e → u64 (a + 1) ≡ a + 1
      wrap i a e at below =
          omega (arith, below, All-get_elem? (Fits o.consumers) s.producers i inv.fits at)
  producer_step-left i (stopping c) at = elim (Bool-cases (ltb c o.consumers)) [
    | inl below ↦ rw below (sentinel-left i c (u64 (c + 1)) (send s.memory.chan 0) at refl)
    | inr past ↦ rw past (idle-left i (stopping c) returned at refl refl)
  ]
  producer_step-left i returned at = refl

  receive-left :
      (j acc : ℕ) (r : Received Chan)
      → receive s.memory.chan ≡ r
      → left (or_stay s (put_consumer C s j (after_receive o.work_iters s.memory acc r)))
          + count (suc n) (worked_on (receiving acc) r)
        ≡ left s
  unfolding after_receive
  receive-left j acc empty law = omega arith
  receive-left j acc drained law = omega arith
  receive-left j acc (received v d) law =
      let taken = ap (count (suc n)) (received_lem s.memory.chan v d law).0 in
      elim (Bool-cases (v == 0)) [
        | inl stop ↦ rw stop (omega (arith, taken, is_value_none n v (ground arith)))
        | inr item ↦ rw item (omega (arith, taken))
      ]

  consumer_step-left :
      (j : ℕ) (c : Consumer)
      → left (or_stay s (put_consumer C s j (consumer_step C o.work_iters s.memory c)))
          + count (suc n) (worked_on c (receive s.memory.chan))
        ≡ left s
  unfolding consumer_step
  consumer_step-left j (receiving acc) = receive-left j acc (receive s.memory.chan) refl
  consumer_step-left j (leaving acc) = omega arith
  consumer_step-left j finished = omega arith

  -- Whoever is resumed: what is handed to `work` is left no more, and nothing else is lost.
  pub step-left :
      (k : Coroutine) → left (or_stay s (step C o s k)) + count (suc n) (handed C s k) ≡ left s
  unfolding step handed
  step-left (producer i) = elim (Option-cases (get_elem? s.producers i)) [
    | inl out ↦ rw (out, step) (omega arith)
    | inr (p, at) ↦ rw (at, step) (omega (arith, producer_step-left i p at))
  ]
  step-left (consumer j) = elim (Option-cases (get_elem? s.consumers j)) [
    | inl out ↦ rw (out, step, handed) (omega arith)
    | inr (c, at) ↦ rw (at, step, handed) (consumer_step-left j c)
  ]
