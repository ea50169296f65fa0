-- ===== src/WorkerPool/Photon/Slotting.antt =====
-- The steps of the Photon worker pool that write to the array keep the invariant.
use zio_benchmarks.Photon.{Photon}
use zio_benchmarks.Shared.{
  ℕ, ◌+◌, ◌-◌, ◌<◌, ◌≡◌, refl, ap, subst, ◌∙◌, sym, inl, inr, List, [], ◌∷◌, ◌++◌, some, Bool-cases,
  get_elem?, set, All-get_elem?, bit_xor, arith, le-total, total, total-set,
}
use zio_benchmarks.Shared.Xor.{zero-xor, xor_assoc}
use zio_benchmarks.Shared.XorTotal.{xor_total}
use zio_benchmarks.WorkerPool.Hash.{work}
use zio_benchmarks.WorkerPool.Buffer.{
  is_sentinel, is_item, value_work, ItemsFirst, ItemsFirst-item, ItemsFirst-sentinel, total-append,
  work-append_item, work-append_sentinel,
}
use zio_benchmarks.WorkerPool.Expected.{range_work, range_work-next}
use zio_benchmarks.WorkerPool.Asio.{Options}
use zio_benchmarks.WorkerPool.Photon.{
  writing, posting, reading, Thread, producing, consuming, stopping, State, put,
}
use zio_benchmarks.WorkerPool.Photon.Slots.{contents, used, capacity, write_slot_lem}
use zio_benchmarks.WorkerPool.Photon.Weights.{
  reserved, pending, holds, is_producing, is_stopped, Fits,
}
use zio_benchmarks.WorkerPool.Photon.Invariant.{flag, stored, Inv}
use zio_benchmarks.WorkerPool.Photon.Moves.{move-Inv}

module _ (Ph : Photon) {o : Options} {s : State Ph} (inv : Inv Ph o s) (k : ℕ) where
  open Ph use {Mutex, count, unlock, is_locked, is_locked-unlock}

  -- A thread under the mutex: the mutex is held.
  pub held :
      (t : Thread)
      → get_elem? s.threads k ≡ some t
      → holds t ≡ 1
      → flag (is_locked s.memory.queue.mu) ≡ 1
  held t at h = elim (Bool-cases (is_locked s.memory.queue.mu)) [
    | inl shut ↦ ap flag shut
    | inr open_ ↦
        absurd (omega (arith, inv.locked, ap flag open_, le-total holds s.threads k t at, h))
  ]

  -- A thread that has reserved a slot finds one.
  pub room :
      (t : Thread)
      → get_elem? s.threads k ≡ some t
      → reserved t ≡ 1
      → used s.memory.queue.ring < capacity
  room t at h = omega (arith, inv.slots, le-total reserved s.threads k t at, h)

  -- A consumer that is about to read finds a value.
  pub loaded :
      (acc : ℕ)
      → get_elem? s.threads k ≡ some (consuming acc reading)
      → 0 < used s.memory.queue.ring
  loaded acc at = omega (arith, inv.loads, le-total pending s.threads k (consuming acc reading) at)

  abbrev values : List ℕ
  values = contents s.memory.queue.ring

  module _ (i e v : ℕ) (at : get_elem? s.threads k ≡ some (producing i e writing))
      (next : v ≡ i + 1) where
    first : i + 0 ≡ i
    first = omega arith

    inside : i < e
    inside = omega (arith, All-get_elem? (Fits o.consumers) s.threads k inv.fits at)

    plain : total is_sentinel (values ++ v ∷ []) ≡ total is_sentinel values
    plain =
        let item : is_sentinel v ≡ 0 = ground arith in
        omega (arith, total-append is_sentinel values (v ∷ []), item)

    -- While a producer has items left, no sentinel has been written.
    none_yet : total is_sentinel values + total is_stopped s.threads ≡ 0
    none_yet = omega (
      arith,
      inv.early (omega (arith, le-total is_producing s.threads k (producing i e writing) at)),
      inv.sentinels,
    )

    -- `buf[tail++ % CAP] = v` of an item, and the unlock.
    pub write_item-Inv : Inv Ph o (record s {
      memory = record s.memory { queue = put Ph s.memory.queue v };
      threads = set s.threads k (producing i e posting);
    })
    unfolding put
    write_item-Inv =
        let (valid, longer, more) =
          write_slot_lem inv.valid v (room (producing i e writing) at refl) in
        move-Inv Ph o inv k at
          (record {
            slots = omega (arith, more);
            loads = omega (arith, more);
            locked = omega (
              arith,
              held (producing i e writing) at refl,
              ap flag (is_locked-unlock s.memory.queue.mu),
            );
            producers_left = refl;
            consumers_left = refl;
            same_kind = refl;
            fewer_producers = omega arith;
            sentinels = omega (arith, plain, ap (total is_sentinel) longer);
            early = inl refl;
            fits = All-get_elem? (Fits o.consumers) s.threads k inv.fits at;
            passed = work v o.work_iters;
            gives =
                ap (λ n. range_work o.work_iters n (e - n)) first
                ∙ range_work-next o.work_iters i e v inside next
                ∙ ap (λ n. bit_xor (work v o.work_iters) (range_work o.work_iters n (e - n))) next;
            takes =
                ap (λ x. bit_xor x s.memory.checksum)
                  (ap (xor_total (value_work o.work_iters)) longer
                    ∙ work-append_item o.work_iters values v (omega arith))
                ∙ xor_assoc (work v o.work_iters) (xor_total (value_work o.work_iters) values)
                    s.memory.checksum;
          })
          valid (subst ItemsFirst (sym longer) (ItemsFirst-item values v (omega (arith, none_yet))))
          (λ z. absurd (
            omega (
              arith,
              none_yet,
              total-set is_stopped s.threads k (producing i e writing) (producing i e posting) at,
              z,
            )))

  -- `buf[tail++ % CAP] = 0`, and the unlock.
  pub write_sentinel-Inv :
      (c : ℕ)
      → get_elem? s.threads k ≡ some (stopping c writing)
      → Inv Ph o (record s {
        memory = record s.memory { queue = put Ph s.memory.queue 0 };
        threads = set s.threads k (stopping c posting);
      })
  unfolding put
  write_sentinel-Inv c at =
      let (valid, longer, more) = write_slot_lem inv.valid 0 (room (stopping c writing) at refl) in
      move-Inv Ph o inv k at
        (record {
          slots = omega (arith, more);
          loads = omega (arith, more);
          locked = omega (
            arith,
            held (stopping c writing) at refl,
            ap flag (is_locked-unlock s.memory.queue.mu),
          );
          producers_left = refl;
          consumers_left = refl;
          same_kind = refl;
          fewer_producers = omega arith;
          sentinels = omega (
            arith,
            ap (total is_sentinel) longer,
            total-append is_sentinel values (0 ∷ []),
            All-get_elem? (Fits o.consumers) s.threads k inv.fits at,
          );
          early = inr (omega arith);
          fits = All-get_elem? (Fits o.consumers) s.threads k inv.fits at;
          passed = 0;
          gives = sym (zero-xor 0);
          takes =
              ap (λ x. bit_xor x s.memory.checksum)
                (ap (xor_total (value_work o.work_iters)) longer
                  ∙ work-append_sentinel o.work_iters values)
              ∙ sym (zero-xor (stored Ph o s.memory));
        })
        valid (subst ItemsFirst (sym longer) (ItemsFirst-sentinel values inv.ordered))
        (λ z. omega (
          arith,
          ap (total is_item) longer,
          total-append is_item values (0 ∷ []),
          inv.cleared (
              omega (
                arith,
                total-set is_stopped s.threads k (stopping c writing) (stopping c posting) at,
                z,
              )),
        ))
