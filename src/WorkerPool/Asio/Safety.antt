-- ===== src/WorkerPool/Asio/Safety.antt =====
-- What every schedule of the Asio worker pool keeps to, and what it computes.
use zio_benchmarks.Channel.{Channel}
use zio_benchmarks.Shared.{
  ℕ, ◌<◌, ◌≡◌, refl, sym, ap, ◌∙◌, List, [], ◌∷◌, arith, All, total, length, total-All_same,
  bit_xor,
}
use zio_benchmarks.Shared.Xor.{zero-xor}
use zio_benchmarks.Shared.XorTotal.{xor_total-All_same}
use zio_benchmarks.WorkerPool.Buffer.{is_item, length-total, work_no_items}
use zio_benchmarks.WorkerPool.Expected.{expected_checksum}
use zio_benchmarks.WorkerPool.Asio.{Options, returned, Consumer, finished, Pool, IsJoined}
use zio_benchmarks.WorkerPool.Asio.Measures.{is_sending, owed, unsent_work, is_stopped, held}
use zio_benchmarks.WorkerPool.Asio.Invariant.{Inv}

pub length-nil : (vs : List ℕ) → length vs ≡ 0 → vs ≡ []
length-nil [] h = refl
length-nil (v ∷ vs) h = absurd (omega arith)

pub All-stopped :
    (cs : List Consumer) → All (λ c. c ≡ finished) cs → total is_stopped cs ≡ length cs
All-stopped [] h = refl
All-stopped (c ∷ cs) h = omega (arith, ap is_stopped h.0, All-stopped cs h.1)

only_checksum : (p b h k : ℕ) → p ≡ 0 → b ≡ 0 → h ≡ 0 → bit_xor p (bit_xor b (bit_xor h k)) ≡ k
only_checksum p b h k ep eb eh =
    rw (ep, eb, eh) (zero-xor (bit_xor 0 (bit_xor 0 k)) ∙ zero-xor (bit_xor 0 k) ∙ zero-xor k)

module _ (C : Channel) {o : Options} {s : Pool C.Chan} (inv : Inv C o s)
    (some_consumer : 0 < o.consumers) (joined : IsJoined s) where
  open C use {buffered}

  none_sending : total is_sending s.producers ≡ 0
  none_sending = total-All_same returned is_sending s.producers joined.0 refl

  none_owed : total (owed o.consumers) s.producers ≡ 0
  none_owed = total-All_same returned (owed o.consumers) s.producers joined.0 refl

  joined_stopped : total is_stopped s.consumers ≡ o.consumers
  joined_stopped = All-stopped s.consumers joined.1 ∙ inv.all_consumers

  joined_items : total is_item (buffered s.memory.chan) ≡ 0
  joined_items = inv.cleared (omega (arith, joined_stopped))

  pub joined_empty : buffered s.memory.chan ≡ []
  joined_empty = length-nil (buffered s.memory.chan) (
      omega (
        arith,
        length-total (buffered s.memory.chan),
        inv.late none_sending,
        none_owed,
        joined_stopped,
        joined_items,
      ))

  pub joined_checksum : s.memory.checksum ≡ expected_checksum o.work_iters o.items
  joined_checksum =
      sym (
        only_checksum _ _ _ s.memory.checksum
          (xor_total-All_same (unsent_work o.work_iters) returned s.producers joined.0 refl)
          (work_no_items o.work_iters (buffered s.memory.chan) joined_items)
          (xor_total-All_same held finished s.consumers joined.1 refl))
      ∙ inv.ledger
