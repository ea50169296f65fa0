-- ===== src/WorkerPool/Photon/Finishing.antt =====
-- The steps of the Photon worker pool outside `push` and `pop` keep the invariant.
use zio_benchmarks.Photon.{Photon}
use zio_benchmarks.Shared.{
  ℕ, ◌+◌, ◌-◌, ◌≤◌, ◌≡◌, refl, ap, ◌∙◌, sym, inl, Option, none, some, WhenSome, get_elem?, set,
  bit_xor, arith,
}
use zio_benchmarks.Shared.Xor.{xor_comm, xor-zero, zero-xor, xor_left_comm}
use zio_benchmarks.Shared.XorTotal.{xor_total}
use zio_benchmarks.WorkerPool.Buffer.{value_work}
use zio_benchmarks.WorkerPool.Expected.{range_work_none}
use zio_benchmarks.WorkerPool.Asio.{Options}
use zio_benchmarks.WorkerPool.Photon.{
  reserving, Thread, producing, produced, leaving, signing, consumed, awaiting_producers, stopping,
  awaiting_consumers, ended, State, pass_producers, pass_consumers, put_thread,
}
use zio_benchmarks.WorkerPool.Photon.Slots.{contents}
use zio_benchmarks.WorkerPool.Photon.Weights.{
  reserved, pending, holds, is_stopped, is_producing, kind, is_busy, owed, worth, Fits, took,
  took_last,
}
use zio_benchmarks.WorkerPool.Photon.Invariant.{stored, Inv}
use zio_benchmarks.WorkerPool.Photon.Moves.{still-Inv}

module _ (Ph : Photon) {o : Options} {s : State Ph} (inv : Inv Ph o s) (k : ℕ) where
  open Ph use {Sem, count, wait, signal, wait_done, count-signal}

  abbrev Keeps : Option (State Ph) → Type 0
  Keeps = WhenSome (Inv Ph o)

  -- What stays when a thread signals or waits on one of the counters.
  abbrev SamePlace : Thread → Thread → Type 0
  SamePlace t u =
      (reserved u ≡ reserved t)
      × (pending u ≡ pending t)
      × (holds u ≡ holds t)
      × (kind u ≡ kind t)
      × (is_stopped u ≡ is_stopped t)
      × (is_producing u ≤ is_producing t)
      × (owed o.consumers u ≡ owed o.consumers t)
      × Fits o.consumers u

  counters-Inv :
      (p c : Sem) (t u : Thread)
      → get_elem? s.threads k ≡ some t
      → SamePlace t u
      → worth o.work_iters t ≡ worth o.work_iters u
      → count p + is_producing u + took o.producers u
        ≡ count s.memory.producers_done + is_producing t + took o.producers t
      → count c + is_busy u + took_last o.consumers u
        ≡ count s.memory.consumers_done + is_busy t + took_last o.consumers t
      → Inv Ph o (record s {
        memory = record s.memory { producers_done = p; consumers_done = c };
        threads = set s.threads k u;
      })
  counters-Inv p c t u at place same producers_left consumers_left =
      still-Inv Ph o inv k at
        (record {
          slots = omega (arith, place);
          loads = omega (arith, place);
          locked = omega (arith, place);
          producers_left = producers_left;
          consumers_left = consumers_left;
          same_kind = place.3;
          fewer_producers = place.5;
          sentinels = omega (arith, place);
          early = inl place.6;
          fits = place.7;
          passed = 0;
          gives = same ∙ sym (zero-xor (worth o.work_iters u));
          takes = sym (zero-xor (stored Ph o s.memory));
        })
        refl place.4

  -- A producer has no item left: `producers_done.signal(1)`.
  pub produced-Inv :
      (i e : ℕ)
      → get_elem? s.threads k ≡ some (producing i e reserving)
      → e ≤ i
      → Inv Ph o (record s {
        memory = record s.memory { producers_done = signal 1 s.memory.producers_done };
        threads = set s.threads k produced;
      })
  produced-Inv i e at past =
      counters-Inv (signal 1 s.memory.producers_done) s.memory.consumers_done
        (producing i e reserving) produced at (refl, refl, refl, refl, refl, omega arith, refl, tt)
        (range_work_none o.work_iters (i + 0) (e - (i + 0)) (omega arith))
        (omega (arith, count-signal 1 s.memory.producers_done)) refl

  -- `g_checksum ^= acc`
  pub leave-Inv :
      (acc : ℕ)
      → get_elem? s.threads k ≡ some (leaving acc)
      → Inv Ph o (record s {
        memory = record s.memory { checksum = bit_xor s.memory.checksum acc };
        threads = set s.threads k signing;
      })
  leave-Inv acc at =
      still-Inv Ph o inv k at
        (record {
          slots = refl;
          loads = refl;
          locked = refl;
          producers_left = refl;
          consumers_left = refl;
          same_kind = refl;
          fewer_producers = omega arith;
          sentinels = refl;
          early = inl refl;
          fits = tt;
          passed = acc;
          gives = sym (xor-zero acc);
          takes =
              ap (bit_xor (xor_total (value_work o.work_iters) (contents s.memory.queue.ring)))
                (xor_comm s.memory.checksum acc)
              ∙ xor_left_comm _ acc s.memory.checksum;
        })
        refl refl

  -- `consumers_done.signal(1)`
  pub consumed-Inv :
      get_elem? s.threads k ≡ some signing
      → Inv Ph o (record s {
        memory = record s.memory { consumers_done = signal 1 s.memory.consumers_done };
        threads = set s.threads k consumed;
      })
  consumed-Inv at =
      counters-Inv s.memory.producers_done (signal 1 s.memory.consumers_done) signing consumed at
        (refl, refl, refl, refl, refl, omega arith, refl, tt) refl refl
        (omega (arith, count-signal 1 s.memory.consumers_done))

  -- `producers_done.wait(g_producers)`
  pub pass_producers-Keeps :
      get_elem? s.threads k ≡ some awaiting_producers
      → (r : Option Sem) → wait o.producers s.memory.producers_done ≡ r
      → Keeps (put_thread Ph s k (pass_producers Ph s.memory r))
  pass_producers-Keeps at none law = tt
  pass_producers-Keeps at (some w) law =
      counters-Inv w s.memory.consumers_done awaiting_producers (stopping 0 reserving) at
        (refl, refl, refl, refl, refl, omega arith, omega arith, omega arith) refl
        (omega (arith, wait_done o.producers s.memory.producers_done w law)) refl

  -- `consumers_done.wait(g_consumers)`
  pub pass_consumers-Keeps :
      get_elem? s.threads k ≡ some awaiting_consumers
      → (r : Option Sem) → wait o.consumers s.memory.consumers_done ≡ r
      → Keeps (put_thread Ph s k (pass_consumers Ph s.memory r))
  pass_consumers-Keeps at none law = tt
  pass_consumers-Keeps at (some w) law =
      counters-Inv s.memory.producers_done w awaiting_consumers ended at
        (refl, refl, refl, refl, refl, omega arith, refl, tt) refl refl
        (omega (arith, wait_done o.consumers s.memory.consumers_done w law))

  -- `main` has pushed every sentinel.
  pub stopped-Inv :
      (c : ℕ)
      → get_elem? s.threads k ≡ some (stopping c reserving)
      → o.consumers ≤ c
      → Inv Ph o (record s { threads = set s.threads k awaiting_consumers })
  stopped-Inv c at past =
      counters-Inv s.memory.producers_done s.memory.consumers_done (stopping c reserving)
        awaiting_consumers at (refl, refl, refl, refl, refl, omega arith, omega arith, tt) refl refl
        refl
