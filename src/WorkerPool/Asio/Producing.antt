-- ===== src/WorkerPool/Asio/Producing.antt =====
-- The steps of a producer of the Asio worker pool keep the invariant.
use zio_benchmarks.Channel.{Channel}
use zio_benchmarks.Shared.{
  ℕ, ◌+◌, ◌≤◌, ◌<◌, ◌≡◌, refl, sym, ap, ◌≢◌, ◌∙◌, true, [], ◌∷◌, ◌++◌, some, total, get_elem?, set,
  length-set, le-total, All-set, All-get_elem?, arith, ◌-◌, subst, length,
}
use zio_benchmarks.Shared.Words.{sub64}
use zio_benchmarks.Shared.XorTotal.{xor_total}
use zio_benchmarks.WorkerPool.Buffer.{
  is_sentinel, is_item, value_work, ItemsFirst, ItemsFirst-item, ItemsFirst-sentinel, total-append,
  work-append_sentinel,
}
use zio_benchmarks.WorkerPool.Expected.{range_work_none}
use zio_benchmarks.WorkerPool.Asio.{Options, sending, stopping, returned, Pool}
use zio_benchmarks.WorkerPool.Asio.Measures.{owed, Fits, is_stopped}
use zio_benchmarks.WorkerPool.Asio.Invariant.{Inv}
use zio_benchmarks.WorkerPool.Asio.Replacing.{sends, owes, same_work, a_sender, sent_work}

module _ (C : Channel) (o : Options) (s : Pool C.Chan) (inv : Inv C o s) (i : ℕ) where
  open C use {Chan, buffered, is_open, capacity}

  -- `ch.async_send(i + 1)` completes.
  pub send_item-Inv :
      (n e v : ℕ) (d : Chan)
      → get_elem? s.producers i ≡ some (sending n e)
      → n < e
      → v ≡ n + 1
      → (buffered d ≡ buffered s.memory.chan ++ v ∷ [])
        × (is_open s.memory.chan ≡ true)
        × (is_open d ≡ true)
        × (capacity d ≡ capacity s.memory.chan)
        × (length (buffered s.memory.chan) < capacity s.memory.chan)
      → Inv C o (record s {
        memory = record s.memory { chan = d };
        producers = set s.producers i (sending v e);
      })
  send_item-Inv n e v d at below next law = record {
    opened = law.2;
    room = law.3 ∙ inv.room;
    counted = omega (arith, inv.counted, sends C o s inv i (sending n e) (sending v e) at);
    bounded = inv.bounded;
    fits =
        All-set (Fits o.consumers) s.producers i (sending v e) inv.fits
          (All-get_elem? (Fits o.consumers) s.producers i inv.fits at);
    ordered =
        subst ItemsFirst (sym law.0)
          (ItemsFirst-item (buffered s.memory.chan) v (omega (arith, early)));
    early = λ _. omega (
      arith,
      early,
      owes C o s inv i (sending n e) (sending v e) at,
      sentinels,
      ap (total is_sentinel) law.0,
    );
    late = λ z. absurd (
        omega
          (arith, sends C o s inv i (sending n e) (sending v e) at, a_sender C o s inv i n e at));
    cleared = λ z. absurd (omega (arith, early));
    all_producers = length-set s.producers i (sending v e) ∙ inv.all_producers;
    all_consumers = inv.all_consumers;
    ledger = sent_work C o s inv i n e v d at below next law.0;
  }
    where
      early :
          total is_sentinel (buffered s.memory.chan)
            + total is_stopped s.consumers
            + total (owed o.consumers) s.producers
          ≡ 0
      early = inv.early (a_sender C o s inv i n e at)

      sentinels :
          total is_sentinel (buffered s.memory.chan ++ v ∷ [])
          ≡ total is_sentinel (buffered s.memory.chan) + 0
      sentinels =
          total-append is_sentinel (buffered s.memory.chan) (v ∷ [])
          ∙ ap (λ t. total is_sentinel (buffered s.memory.chan) + t) (ground arith)

  -- `remaining.fetch_sub(1)` by a producer that is not the last.
  pub other_sender-Inv :
      (n e : ℕ)
      → get_elem? s.producers i ≡ some (sending n e)
      → e ≤ n
      → s.memory.remaining ≢ 1
      → Inv C o (record s {
        memory = record s.memory { remaining = sub64 s.memory.remaining 1 };
        producers = set s.producers i returned;
      })
  other_sender-Inv n e at past more = record {
    opened = inv.opened;
    room = inv.room;
    counted = omega (
      arith,
      inv.counted,
      inv.bounded,
      sends C o s inv i (sending n e) returned at,
      a_sender C o s inv i n e at,
    );
    bounded = omega arith;
    fits = All-set (Fits o.consumers) s.producers i returned inv.fits tt;
    ordered = inv.ordered;
    early = λ z. omega (
      arith,
      inv.early (a_sender C o s inv i n e at),
      owes C o s inv i (sending n e) returned at,
    );
    late = λ z. absurd (
        more (
          omega (
            arith,
            inv.counted,
            sends C o s inv i (sending n e) returned at,
            a_sender C o s inv i n e at,
          )));
    cleared = inv.cleared;
    all_producers = length-set s.producers i returned ∙ inv.all_producers;
    all_consumers = inv.all_consumers;
    ledger =
        same_work C o s inv i (sending n e) returned at s.memory.chan
          (range_work_none o.work_iters n (e - n) (omega arith)) refl;
  }

  -- The last producer goes on to the sentinels.
  pub last_sender-Inv :
      (n e : ℕ)
      → get_elem? s.producers i ≡ some (sending n e)
      → e ≤ n
      → s.memory.remaining ≡ 1
      → Inv C o (record s {
        memory = record s.memory { remaining = sub64 s.memory.remaining 1 };
        producers = set s.producers i (stopping 0);
      })
  last_sender-Inv n e at past last = record {
    opened = inv.opened;
    room = inv.room;
    counted = omega (arith, inv.counted, sends C o s inv i (sending n e) (stopping 0) at);
    bounded = omega arith;
    fits = All-set (Fits o.consumers) s.producers i (stopping 0) inv.fits (omega arith);
    ordered = inv.ordered;
    early =
        λ z. absurd (omega (arith, inv.counted, sends C o s inv i (sending n e) (stopping 0) at));
    late = λ z. omega (
      arith,
      inv.early (a_sender C o s inv i n e at),
      owes C o s inv i (sending n e) (stopping 0) at,
    );
    cleared = inv.cleared;
    all_producers = length-set s.producers i (stopping 0) ∙ inv.all_producers;
    all_consumers = inv.all_consumers;
    ledger =
        same_work C o s inv i (sending n e) (stopping 0) at s.memory.chan
          (range_work_none o.work_iters n (e - n) (omega arith)) refl;
  }

  -- `ch.async_send(0)` completes.
  pub send_sentinel-Inv :
      (c c' : ℕ) (d : Chan)
      → get_elem? s.producers i ≡ some (stopping c)
      → c < o.consumers
      → c' ≡ c + 1
      → (buffered d ≡ buffered s.memory.chan ++ 0 ∷ [])
        × (is_open s.memory.chan ≡ true)
        × (is_open d ≡ true)
        × (capacity d ≡ capacity s.memory.chan)
        × (length (buffered s.memory.chan) < capacity s.memory.chan)
      → Inv C o (record s {
        memory = record s.memory { chan = d };
        producers = set s.producers i (stopping c');
      })
  send_sentinel-Inv c c' d at below next law = record {
    opened = law.2;
    room = law.3 ∙ inv.room;
    counted = omega (arith, inv.counted, sends C o s inv i (stopping c) (stopping c') at);
    bounded = inv.bounded;
    fits = All-set (Fits o.consumers) s.producers i (stopping c') inv.fits (omega arith);
    ordered =
        subst ItemsFirst (sym law.0) (ItemsFirst-sentinel (buffered s.memory.chan) inv.ordered);
    early = λ z. absurd (
        omega (
          arith,
          inv.early (omega (arith, sends C o s inv i (stopping c) (stopping c') at)),
          debtor,
        ));
    late = λ z. omega (
      arith,
      inv.late (omega (arith, sends C o s inv i (stopping c) (stopping c') at)),
      owes C o s inv i (stopping c) (stopping c') at,
      debtor,
      sentinels,
      ap (total is_sentinel) law.0,
    );
    cleared = λ z. omega (
      arith,
      inv.cleared z,
      ap (total is_item) law.0,
      total-append is_item (buffered s.memory.chan) (0 ∷ []),
    );
    all_producers = length-set s.producers i (stopping c') ∙ inv.all_producers;
    all_consumers = inv.all_consumers;
    ledger = same_work C o s inv i (stopping c) (stopping c') at d refl (
        ap (xor_total (value_work o.work_iters)) law.0
        ∙ work-append_sentinel o.work_iters (buffered s.memory.chan));
  }
    where
      debtor : o.consumers - c ≤ total (owed o.consumers) s.producers
      debtor = le-total (owed o.consumers) s.producers i (stopping c) at

      sentinels :
          total is_sentinel (buffered s.memory.chan ++ 0 ∷ [])
          ≡ total is_sentinel (buffered s.memory.chan) + 1
      sentinels = total-append is_sentinel (buffered s.memory.chan) (0 ∷ [])

  -- The last producer has sent every sentinel.
  pub stop-Inv :
      (c : ℕ)
      → get_elem? s.producers i ≡ some (stopping c)
      → o.consumers ≤ c
      → Inv C o (record s { producers = set s.producers i returned })
  stop-Inv c at past = record {
    opened = inv.opened;
    room = inv.room;
    counted = omega (arith, inv.counted, sends C o s inv i (stopping c) returned at);
    bounded = inv.bounded;
    fits = All-set (Fits o.consumers) s.producers i returned inv.fits tt;
    ordered = inv.ordered;
    early = λ z. omega (
      arith,
      inv.early (omega (arith, sends C o s inv i (stopping c) returned at)),
      owes C o s inv i (stopping c) returned at,
    );
    late = λ z. omega (
      arith,
      inv.late (omega (arith, sends C o s inv i (stopping c) returned at)),
      owes C o s inv i (stopping c) returned at,
    );
    cleared = inv.cleared;
    all_producers = length-set s.producers i returned ∙ inv.all_producers;
    all_consumers = inv.all_consumers;
    ledger = same_work C o s inv i (stopping c) returned at s.memory.chan refl refl;
  }
