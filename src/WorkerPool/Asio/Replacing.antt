-- ===== src/WorkerPool/Asio/Replacing.antt =====
-- A producer of the Asio worker pool changes, and no other coroutine: what that does to the sums of the
-- invariant.
use zio_benchmarks.Channel.{Channel}
use zio_benchmarks.Shared.{
  ℕ, ◌+◌, ◌≤◌, ◌<◌, ◌≡◌, sym, ap, ap₂, ◌∙◌, [], ◌∷◌, ◌++◌, some, bit_xor, total, get_elem?, set,
  total-set, le-total, arith,
}
use zio_benchmarks.Shared.XorTotal.{xor_total, xor_total-set, xor_total-set_same, xor_pass_left}
use zio_benchmarks.WorkerPool.Hash.{work}
use zio_benchmarks.WorkerPool.Buffer.{value_work, work-append_item}
use zio_benchmarks.WorkerPool.Expected.{expected_checksum, range_work-next}
use zio_benchmarks.WorkerPool.Asio.{Options, Producer, sending, Pool}
use zio_benchmarks.WorkerPool.Asio.Measures.{is_sending, owed, unsent_work, held}
use zio_benchmarks.WorkerPool.Asio.Invariant.{all_work, Inv}

module _ (C : Channel) (o : Options) (s : Pool C.Chan) (inv : Inv C o s) (i : ℕ) where
  open C use {Chan, buffered}

  module _ (p q : Producer) (at : get_elem? s.producers i ≡ some p) where
    pub sends :
        total is_sending (set s.producers i q) + is_sending p
        ≡ total is_sending s.producers + is_sending q
    sends = total-set is_sending s.producers i p q at

    pub owes :
        total (owed o.consumers) (set s.producers i q) + owed o.consumers p
        ≡ total (owed o.consumers) s.producers + owed o.consumers q
    owes = total-set (owed o.consumers) s.producers i p q at

    -- The work that stays in place when only a producer without items changes.
    pub same_work :
        (d : Chan)
        → unsent_work o.work_iters p ≡ unsent_work o.work_iters q
        → xor_total (value_work o.work_iters) (buffered d)
          ≡ xor_total (value_work o.work_iters) (buffered s.memory.chan)
        → all_work o.work_iters (set s.producers i q) (buffered d) s.consumers s.memory.checksum
          ≡ expected_checksum o.work_iters o.items
    same_work d same buffer =
        ap₂ (λ a b. bit_xor a (bit_xor b (bit_xor (xor_total held s.consumers) s.memory.checksum)))
          (sym (xor_total-set_same (unsent_work o.work_iters) s.producers i p q at same)) buffer
        ∙ inv.ledger

  pub a_sender :
      (n e : ℕ) → get_elem? s.producers i ≡ some (sending n e) → 1 ≤ total is_sending s.producers
  a_sender n e at = le-total is_sending s.producers i (sending n e) at

  -- The work on an item goes from its producer to the buffer.
  pub sent_work :
      (n e v : ℕ) (d : Chan)
      → get_elem? s.producers i ≡ some (sending n e)
      → n < e
      → v ≡ n + 1
      → buffered d ≡ buffered s.memory.chan ++ v ∷ []
      → all_work o.work_iters
          (set s.producers i (sending v e))
          (buffered d)
          s.consumers
          s.memory.checksum
        ≡ expected_checksum o.work_iters o.items
  sent_work n e v d at below next there =
      let takes =
        ap (xor_total (value_work o.work_iters)) there
        ∙ work-append_item o.work_iters (buffered s.memory.chan) v (omega arith) in
      sym (
        xor_pass_left (work v o.work_iters) _ _ _ _ _
          (xor_total-set (unsent_work o.work_iters) _ s.producers i _ (sending v e) at
            (range_work-next o.work_iters n e v below next))
          takes)
      ∙ inv.ledger
