-- ===== src/WorkerPool/Photon/Moves.antt =====
-- A step of one thread of the Photon worker pool keeps the invariant if what it changes in the memory
-- agrees with what it changes in the thread.
use zio_benchmarks.Photon.{Photon}
use zio_benchmarks.Shared.{
  ℕ, ◌+◌, ◌<◌, ◌≤◌, ◌≡◌, ◌⊎◌, inl, inr, ◌∙◌, sym, some, bit_xor, total, total-set, le-total,
  get_elem?, set, All-set, length-set, arith, ap, subst,
}
use zio_benchmarks.Shared.Xor.{zero-xor}
use zio_benchmarks.Shared.XorTotal.{xor_total, xor_total-set, xor_pass}
use zio_benchmarks.WorkerPool.Buffer.{is_sentinel, is_item, value_work, ItemsFirst}
use zio_benchmarks.WorkerPool.Asio.{Options}
use zio_benchmarks.WorkerPool.Photon.{Thread, Queue, Memory, State}
use zio_benchmarks.WorkerPool.Photon.Slots.{IsValid, contents, used}
use zio_benchmarks.WorkerPool.Photon.Weights.{
  reserved, pending, holds, is_producing, is_busy, is_stopped, took, took_last, is_main,
  is_consumer, kind, same_main, same_consumer, owed, worth, Fits,
}
use zio_benchmarks.WorkerPool.Photon.Invariant.{flag, stored, Inv}

module _ (Ph : Photon) (o : Options) where
  open Ph use {count, is_locked}

  pub record Move (m n : Memory Ph) (t u : Thread) : Type 0 where
    pub slots :
        count n.queue.space + used n.queue.ring + reserved u
        ≡ count m.queue.space + used m.queue.ring + reserved t
    pub loads :
        count n.queue.items + pending u + used m.queue.ring
        ≡ count m.queue.items + pending t + used n.queue.ring
    pub locked : holds u + flag (is_locked m.queue.mu) ≡ holds t + flag (is_locked n.queue.mu)
    pub producers_left :
        count n.producers_done + is_producing u + took o.producers u
        ≡ count m.producers_done + is_producing t + took o.producers t
    pub consumers_left :
        count n.consumers_done + is_busy u + took_last o.consumers u
        ≡ count m.consumers_done + is_busy t + took_last o.consumers t
    pub same_kind : kind u ≡ kind t
    pub fewer_producers : is_producing u ≤ is_producing t
    pub sentinels :
        total is_sentinel (contents n.queue.ring) + is_stopped u + owed o.consumers u
        ≡ total is_sentinel (contents m.queue.ring) + is_stopped t + owed o.consumers t
    pub early : (owed o.consumers u ≡ owed o.consumers t) ⊎ (o.producers ≤ took o.producers t)
    pub fits : Fits o.consumers u
    -- The work that goes from the thread to the memory.
    pub passed : ℕ
    pub gives : worth o.work_iters t ≡ bit_xor passed (worth o.work_iters u)
    pub takes : stored Ph o n ≡ bit_xor passed (stored Ph o m)

  module _ {s : State Ph} (inv : Inv Ph o s) (k : ℕ) {n : Memory Ph} {t u : Thread}
      (at : get_elem? s.threads k ≡ some t) (move : Move s.memory n t u) where
    -- What a weight over all the threads becomes.
    moved : (w : Thread → ℕ) → total w (set s.threads k u) + w t ≡ total w s.threads + w u
    moved w = total-set w s.threads k t u at

    moved_early :
        0 < total is_producing (set s.threads k u)
        → total (owed o.consumers) (set s.threads k u) ≡ o.consumers
    moved_early z = elim move.early [
      | inl same ↦ omega (
        arith,
        inv.early (omega (arith, moved is_producing, move.fewer_producers)),
        moved (owed o.consumers),
      )
      | inr past ↦ absurd (
          omega (
            arith,
            inv.producers_left,
            moved is_producing,
            move.fewer_producers,
            le-total (took o.producers) s.threads k t at,
          ))
    ]

    pub move-Inv :
        IsValid n.queue.ring
        → ItemsFirst (contents n.queue.ring)
        → (0 < total is_stopped (set s.threads k u) → total is_item (contents n.queue.ring) ≡ 0)
        → Inv Ph o (record s { memory = n; threads = set s.threads k u })
    move-Inv valid ordered cleared = record {
      valid = valid;
      slots = omega (arith, inv.slots, move.slots, moved reserved);
      loads = omega (arith, inv.loads, move.loads, moved pending);
      locked = omega (arith, inv.locked, move.locked, moved holds);
      producers_left = omega (
        arith,
        inv.producers_left,
        move.producers_left,
        moved is_producing,
        moved (took o.producers),
      );
      consumers_left = omega (
        arith,
        inv.consumers_left,
        move.consumers_left,
        moved is_busy,
        moved (took_last o.consumers),
      );
      one_main = omega (arith, inv.one_main, same_main t u move.same_kind, moved is_main);
      all_threads = length-set s.threads k u ∙ inv.all_threads;
      all_consumers =
          omega (arith, inv.all_consumers, same_consumer t u move.same_kind, moved is_consumer);
      sentinels =
          omega (arith, inv.sentinels, move.sentinels, moved is_stopped, moved (owed o.consumers));
      early = moved_early;
      ordered = ordered;
      cleared = cleared;
      fits = All-set (Fits o.consumers) s.threads k u inv.fits move.fits;
      ledger =
          sym (
            xor_pass move.passed _ _ _ _
              (xor_total-set (worth o.work_iters) move.passed s.threads k t u at move.gives)
              move.takes)
          ∙ inv.ledger;
    }

    -- A step that leaves the array alone.
    pub still-Inv :
        n.queue.ring ≡ s.memory.queue.ring
        → is_stopped u ≡ is_stopped t
        → Inv Ph o (record s { memory = n; threads = set s.threads k u })
    still-Inv same stops =
        move-Inv (subst IsValid (sym same) inv.valid)
          (subst (λ r. ItemsFirst (contents r)) (sym same) inv.ordered)
          (λ z.
            ap (λ r. total is_item (contents r)) same
            ∙ inv.cleared (omega (arith, moved is_stopped, stops)))

  -- What stays when a thread goes on inside `push` or `pop`.
  abbrev pub SameRole : Thread → Thread → Type 0
  SameRole t u =
      (is_producing u ≡ is_producing t)
      × (is_busy u ≡ is_busy t)
      × (is_stopped u ≡ is_stopped t)
      × (kind u ≡ kind t)
      × (took o.producers u ≡ took o.producers t)
      × (took_last o.consumers u ≡ took_last o.consumers t)
      × (owed o.consumers u ≡ owed o.consumers t)
      × (worth o.work_iters t ≡ worth o.work_iters u)
      × Fits o.consumers u

  module _ {s : State Ph} (inv : Inv Ph o s) (k : ℕ) (q : Queue Ph) {t : Thread} (u : Thread)
      (at : get_elem? s.threads k ≡ some t) (role : SameRole t u) where
    -- A step that changes the semaphores or the mutex of the queue.
    pub queue-Inv :
        q.ring ≡ s.memory.queue.ring
        → count q.space + reserved u ≡ count s.memory.queue.space + reserved t
        → count q.items + pending u ≡ count s.memory.queue.items + pending t
        → holds u + flag (is_locked s.memory.queue.mu) ≡ holds t + flag (is_locked q.mu)
        → Inv Ph o
            (record s { memory = record s.memory { queue = q }; threads = set s.threads k u })
    queue-Inv same slots loads locked = still-Inv inv k at move same (role.2)
      where
        move : Move s.memory (record s.memory { queue = q }) t u
        move = record {
          slots = omega (arith, slots, ap used same);
          loads = omega (arith, loads, ap used same);
          locked = locked;
          producers_left = omega (arith, role);
          consumers_left = omega (arith, role);
          same_kind = role.3;
          fewer_producers = omega (arith, role);
          sentinels = omega (arith, role, ap (λ r. total is_sentinel (contents r)) same);
          early = inl role.6;
          fits = role.8;
          passed = 0;
          gives = role.7 ∙ sym (zero-xor (worth o.work_iters u));
          takes =
              ap (λ r. bit_xor (xor_total (value_work o.work_iters) (contents r)) s.memory.checksum)
                same
              ∙ sym (zero-xor (stored Ph o s.memory));
        }
