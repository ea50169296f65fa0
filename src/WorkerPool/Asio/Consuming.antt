-- ===== src/WorkerPool/Asio/Consuming.antt =====
-- The steps of a consumer of the Asio worker pool keep the invariant.
use zio_benchmarks.Channel.{Channel}
use zio_benchmarks.Shared.{
  ℕ, ◌+◌, ◌≡◌, ◌≢◌, refl, sym, ap, ap₂, subst, ◌∙◌, ◌∷◌, some, bit_xor, total, get_elem?, set,
  total-set, length-set, arith,
}
use zio_benchmarks.Shared.Xor.{xor_comm, zero-xor, xor-zero}
use zio_benchmarks.Shared.XorTotal.{
  xor_total, xor_total-set, xor_total-set_same, xor_pass, xor_pass_left, xor_flip,
}
use zio_benchmarks.WorkerPool.Hash.{work}
use zio_benchmarks.WorkerPool.Buffer.{is_sentinel, is_item, value_work, ItemsFirst}
use zio_benchmarks.WorkerPool.Asio.{Options, receiving, leaving, finished, Pool, fetch_xor}
use zio_benchmarks.WorkerPool.Asio.Measures.{unsent_work, is_stopped, held}
use zio_benchmarks.WorkerPool.Asio.Invariant.{Inv}

module _ (C : Channel) (o : Options) (s : Pool C.Chan) (inv : Inv C o s) (j : ℕ) where
  open C use {Chan, buffered, is_open, capacity}

  -- A consumer receives an item and does the work on it.
  pub receive_item-Inv :
      (acc v : ℕ) (d : Chan)
      → get_elem? s.consumers j ≡ some (receiving acc)
      → v ≢ 0
      → (buffered s.memory.chan ≡ v ∷ buffered d)
        × (is_open d ≡ is_open s.memory.chan)
        × (capacity d ≡ capacity s.memory.chan)
      → Inv C o (record s {
        memory = record s.memory { chan = d };
        consumers = set s.consumers j (receiving (bit_xor acc (work v o.work_iters)));
      })
  receive_item-Inv acc v d at item law = record {
    opened = law.1 ∙ inv.opened;
    room = law.2 ∙ inv.room;
    counted = inv.counted;
    bounded = inv.bounded;
    fits = inv.fits;
    ordered = (subst ItemsFirst law.0 inv.ordered).1;
    early = λ z. omega (arith, inv.early z, sentinels, stops);
    late = λ z. omega (arith, inv.late z, sentinels, stops);
    cleared = λ z. omega (arith, inv.cleared (omega (arith, stops)), items);
    all_producers = inv.all_producers;
    all_consumers =
        length-set s.consumers j (receiving (bit_xor acc (work v o.work_iters)))
        ∙ inv.all_consumers;
    ledger =
        ap (bit_xor (xor_total (unsent_work o.work_iters) s.producers))
          (sym (xor_pass_left done _ _ _ _ _ gives takes))
        ∙ inv.ledger;
  }
    where
      done : ℕ
      done = work v o.work_iters

      acc' : ℕ
      acc' = bit_xor acc done

      stops :
          total is_stopped (set s.consumers j (receiving acc')) + 0
          ≡ total is_stopped s.consumers + 0
      stops = total-set is_stopped s.consumers j (receiving acc) (receiving acc') at

      sentinels : total is_sentinel (buffered s.memory.chan) ≡ total is_sentinel (buffered d)
      sentinels = ap (total is_sentinel) law.0 ∙ ground arith

      items : total is_item (buffered s.memory.chan) ≡ 1 + total is_item (buffered d)
      items = ap (total is_item) law.0 ∙ ground arith

      gives :
          xor_total (value_work o.work_iters) (buffered s.memory.chan)
          ≡ bit_xor done (xor_total (value_work o.work_iters) (buffered d))
      gives =
          let worked : value_work o.work_iters v ≡ done = ground arith in
          ap (xor_total (value_work o.work_iters)) law.0
          ∙ ap (λ t. bit_xor t (xor_total (value_work o.work_iters) (buffered d))) worked

      takes :
          xor_total held (set s.consumers j (receiving acc'))
          ≡ bit_xor done (xor_total held s.consumers)
      takes = xor_flip done _ _ (
          xor_total-set held done s.consumers j (receiving acc) (receiving acc') at
            (xor_flip done acc' acc (xor_comm acc done)))

  -- A consumer receives a sentinel and leaves its loop.
  pub receive_sentinel-Inv :
      (acc : ℕ) (d : Chan)
      → get_elem? s.consumers j ≡ some (receiving acc)
      → (buffered s.memory.chan ≡ 0 ∷ buffered d)
        × (is_open d ≡ is_open s.memory.chan)
        × (capacity d ≡ capacity s.memory.chan)
      → Inv C o (record s {
        memory = record s.memory { chan = d };
        consumers = set s.consumers j (leaving acc);
      })
  receive_sentinel-Inv acc d at law = record {
    opened = law.1 ∙ inv.opened;
    room = law.2 ∙ inv.room;
    counted = inv.counted;
    bounded = inv.bounded;
    fits = inv.fits;
    ordered = (subst ItemsFirst law.0 inv.ordered).1;
    early = λ z. absurd (omega (arith, inv.early z, sentinels));
    late = λ z. omega (arith, inv.late z, sentinels, stops);
    cleared = λ z. (subst ItemsFirst law.0 inv.ordered).0 refl;
    all_producers = inv.all_producers;
    all_consumers = length-set s.consumers j (leaving acc) ∙ inv.all_consumers;
    ledger =
        ap₂
          (λ b h.
            bit_xor (xor_total (unsent_work o.work_iters) s.producers)
              (bit_xor b (bit_xor h s.memory.checksum)))
          (sym (
            ap (xor_total (value_work o.work_iters)) law.0
            ∙ zero-xor (xor_total (value_work o.work_iters) (buffered d))))
          (sym (xor_total-set_same held s.consumers j (receiving acc) (leaving acc) at refl))
        ∙ inv.ledger;
  }
    where
      stops :
          total is_stopped (set s.consumers j (leaving acc)) + 0 ≡ total is_stopped s.consumers + 1
      stops = total-set is_stopped s.consumers j (receiving acc) (leaving acc) at

      sentinels : total is_sentinel (buffered s.memory.chan) ≡ 1 + total is_sentinel (buffered d)
      sentinels = ap (total is_sentinel) law.0

  -- A consumer joins its accumulator to the checksum.
  pub leave-Inv :
      (acc : ℕ)
      → get_elem? s.consumers j ≡ some (leaving acc)
      → Inv C o
          (record s { memory = fetch_xor s.memory acc; consumers = set s.consumers j finished })
  unfolding fetch_xor
  leave-Inv acc at = record {
    opened = inv.opened;
    room = inv.room;
    counted = inv.counted;
    bounded = inv.bounded;
    fits = inv.fits;
    ordered = inv.ordered;
    early = λ z. omega (arith, inv.early z, stops);
    late = λ z. omega (arith, inv.late z, stops);
    cleared = λ z. inv.cleared (omega (arith, stops));
    all_producers = inv.all_producers;
    all_consumers = length-set s.consumers j finished ∙ inv.all_consumers;
    ledger =
        ap
          (λ t.
            bit_xor (xor_total (unsent_work o.work_iters) s.producers)
              (bit_xor (xor_total (value_work o.work_iters) (buffered s.memory.chan)) t))
          (sym (
            xor_pass acc _ _ _ _
              (xor_total-set held acc s.consumers j (leaving acc) finished at (sym (xor-zero acc)))
              (xor_comm s.memory.checksum acc)))
        ∙ inv.ledger;
  }
    where
      stops : total is_stopped (set s.consumers j finished) + 1 ≡ total is_stopped s.consumers + 1
      stops = total-set is_stopped s.consumers j (leaving acc) finished at
