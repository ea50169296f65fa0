-- ===== src/WorkerPool/Photon/Reading.antt =====
-- The step of the Photon worker pool that reads from the array keeps the invariant.
use zio_benchmarks.Photon.{Photon}
use zio_benchmarks.Shared.{
  ℕ, ◌+◌, ◌<◌, ◌≡◌, refl, ap, subst, ◌∙◌, sym, inl, inr, ◌∷◌, some, Bool-cases, ◌==◌, get_elem?,
  set, bit_xor, arith, total, total-set,
}
use zio_benchmarks.Shared.Xor.{xor_comm, xor_assoc}
use zio_benchmarks.Shared.XorTotal.{xor_total, xor_flip, xor_involutive}
use zio_benchmarks.WorkerPool.Buffer.{is_sentinel, is_item, value_work, ItemsFirst}
use zio_benchmarks.WorkerPool.Asio.{Options}
use zio_benchmarks.WorkerPool.Photon.{reading, freeing, consuming, State, take}
use zio_benchmarks.WorkerPool.Photon.Slots.{IsValid, contents, used, read_slot, read_slot_lem}
use zio_benchmarks.WorkerPool.Photon.Weights.{is_stopped}
use zio_benchmarks.WorkerPool.Photon.Invariant.{flag, stored, Inv}
use zio_benchmarks.WorkerPool.Photon.Moves.{move-Inv}
use zio_benchmarks.WorkerPool.Photon.Slotting.{held, loaded}

module _ (Ph : Photon) {o : Options} {s : State Ph} (inv : Inv Ph o s) (k : ℕ) where
  open Ph use {Mutex, count, unlock, is_locked, is_locked-unlock}

  module _ (acc : ℕ) (at : get_elem? s.threads k ≡ some (consuming acc reading)) where
    -- The oldest value.
    abbrev v : ℕ
    v = (read_slot s.memory.queue.ring).1

    law :
        IsValid (read_slot s.memory.queue.ring).0
        × (contents s.memory.queue.ring ≡ v ∷ contents (read_slot s.memory.queue.ring).0)
        × (used s.memory.queue.ring ≡ used (read_slot s.memory.queue.ring).0 + 1)
    law = read_slot_lem inv.valid (loaded Ph inv k acc at)

    shorter : contents s.memory.queue.ring ≡ v ∷ contents (read_slot s.memory.queue.ring).0
    shorter = law.1

    fewer : used s.memory.queue.ring ≡ used (read_slot s.memory.queue.ring).0 + 1
    fewer = law.2

    no_items :
        0 < total is_stopped (set s.threads k (consuming acc (freeing v)))
        → total is_item (contents (read_slot s.memory.queue.ring).0) ≡ 0
    no_items z = elim (Bool-cases (v == 0)) [
      | inl stop ↦ (subst ItemsFirst shorter inv.ordered).0 (ground arith)
      | inr item ↦
          let plain : is_sentinel v ≡ 0 = ground arith in
          omega (
            arith,
            ap (total is_item) shorter,
            inv.cleared (
                omega (
                  arith,
                  plain,
                  z,
                  total-set is_stopped s.threads k (consuming acc reading)
                      (consuming acc (freeing v)) at,
                )),
          )
    ]

    -- `v = buf[head++ % CAP]`, and the unlock.
    pub read-Inv :
        let (q, w) = take Ph s.memory.queue in
        Inv Ph o (record s {
          memory = record s.memory { queue = q };
          threads = set s.threads k (consuming acc (freeing w));
        })
    unfolding take
    read-Inv =
        move-Inv Ph o inv k at
          (record {
            slots = omega (arith, fewer);
            loads = omega (arith, fewer);
            locked = omega (
              arith,
              held Ph inv k (consuming acc reading) at refl,
              ap flag (is_locked-unlock s.memory.queue.mu),
            );
            producers_left = refl;
            consumers_left = refl;
            same_kind = refl;
            fewer_producers = omega arith;
            sentinels = omega (arith, ap (total is_sentinel) shorter);
            early = inl refl;
            fits = tt;
            passed = value_work o.work_iters v;
            gives = sym (
                ap (bit_xor (value_work o.work_iters v)) (xor_comm acc (value_work o.work_iters v))
                ∙ xor_involutive (value_work o.work_iters v) acc);
            takes = xor_flip (value_work o.work_iters v) (stored Ph o s.memory) _ (
                ap (λ vs. bit_xor (xor_total (value_work o.work_iters) vs) s.memory.checksum)
                  shorter
                ∙ xor_assoc (value_work o.work_iters v)
                    (xor_total (value_work o.work_iters)
                      (contents (read_slot s.memory.queue.ring).0))
                    s.memory.checksum);
          })
          law.0 (subst ItemsFirst shorter inv.ordered).1 no_items
