-- ===== src/WorkerPool/Photon/Spawning.antt =====
-- The threads that `main` of worker_pool_photon.cpp creates, and the invariant at the start.
use zio_benchmarks.Photon.{Photon}
use zio_benchmarks.Shared.{
  ℕ, zero, suc, ◌+◌, ◌-◌, ◌*◌, ◌≡◌, refl, ap, ap₂, ◌∙◌, sym, subst, List, [], ◌++◌, length,
  length-append, length-replicate, All, total, replicate, bit_xor, arith,
}
use zio_benchmarks.Shared.Xor.{xor-zero, zero-xor}
use zio_benchmarks.Shared.XorTotal.{xor_total, xor_total-append, xor_total-replicate_zero}
use native.Mathlib.Nat.{div-le_self}
use zio_benchmarks.WorkerPool.Buffer.{is_sentinel, value_work, ItemsFirst}
use zio_benchmarks.Shared.Words.{u64}
use zio_benchmarks.WorkerPool.Expected.{range_work, expected_checksum}
use zio_benchmarks.WorkerPool.Asio
use zio_benchmarks.WorkerPool.Asio.{Options}
use zio_benchmarks.WorkerPool.Asio.Measures.{unsent_work}
use zio_benchmarks.WorkerPool.Asio.Ranges.{IsBounded, spawned_work_all}
use zio_benchmarks.WorkerPool.Photon.{
  reserving, fetching, Thread, producing, consuming, awaiting_producers, range_start, range_end,
  spawn_producers, init,
}
use zio_benchmarks.WorkerPool.Photon.Slots.{
  capacity, contents, used, IsValid, new_ring, new_ring_lem, length-contents,
}
use zio_benchmarks.WorkerPool.Photon.Weights.{
  reserved, pending, holds, is_producing, is_busy, is_stopped, took, took_last, is_main,
  is_consumer, owed, worth, Fits,
}
use zio_benchmarks.WorkerPool.Photon.Invariant.{flag, stored, Inv}

-- A weight that new producers do not have.
spawned_none :
    (w : Thread → ℕ)
    → ((i e : ℕ) → w (producing i e reserving) ≡ 0)
    → (o : Options) (p left : ℕ) → total w (spawn_producers o p left) ≡ 0
unfolding spawn_producers
spawned_none w none o p zero = refl
spawned_none w none o p (suc left) =
    omega (arith, none (range_start o p) (range_end o p), spawned_none w none o (p + 1) left)

spawned_producing :
    (o : Options) (p left : ℕ) → total is_producing (spawn_producers o p left) ≡ left
unfolding spawn_producers
spawned_producing o p zero = refl
spawned_producing o p (suc left) = omega (arith, spawned_producing o (p + 1) left)

spawned_length : (o : Options) (p left : ℕ) → length (spawn_producers o p left) ≡ left
unfolding spawn_producers
spawned_length o p zero = refl
spawned_length o p (suc left) = ap suc (spawned_length o (p + 1) left)

spawned-Fits :
    (consumers : ℕ) (o : Options) (p left : ℕ) → All (Fits consumers) (spawn_producers o p left)
unfolding spawn_producers range_end
spawned-Fits consumers o p zero = tt
spawned-Fits consumers o p (suc left) = (
  (omega (arith, div-le_self (u64 (u64 (p + 1) * o.items)) o.producers), omega arith),
  spawned-Fits consumers o (p + 1) left,
)

-- The producers have the same ranges as those of the Asio program.
spawned_same :
    (iters : ℕ) (o : Options) (p left : ℕ)
    → xor_total (worth iters) (spawn_producers o p left)
      ≡ xor_total (unsent_work iters) (Asio.spawn_producers o p left)
unfolding spawn_producers range_start range_end Asio.spawn_producers Asio.range_start Asio.range_end
spawned_same iters o p zero = refl
spawned_same iters o p (suc left) =
    ap₂ (λ i rest. bit_xor (range_work iters i (range_end o p - i)) rest) first
      (spawned_same iters o (p + 1) left)
  where
    first : range_start o p + 0 ≡ range_start o p
    first = omega arith

-- The new consumers in front of a list.
module _ (ts : List Thread) where
  crew_none :
      (w : Thread → ℕ) (n : ℕ)
      → w (consuming 0 fetching) ≡ 0
      → total w (replicate n (consuming 0 fetching) ++ ts) ≡ total w ts
  crew_none w zero none = refl
  crew_none w (suc n) none = omega (arith, none, crew_none w n none)

  crew_one :
      (w : Thread → ℕ) (n : ℕ)
      → w (consuming 0 fetching) ≡ 1
      → total w (replicate n (consuming 0 fetching) ++ ts) ≡ n + total w ts
  crew_one w zero one = omega arith
  crew_one w (suc n) one = omega (arith, one, crew_one w n one)

  crew-Fits :
      (consumers n : ℕ)
      → All (Fits consumers) ts
      → All (Fits consumers) (replicate n (consuming 0 fetching) ++ ts)
  crew-Fits consumers zero fits = fits
  crew-Fits consumers (suc n) fits = (tt, crew-Fits consumers n fits)

module _ (Ph : Photon) {o : Options} (fit : IsBounded o) (buf : List ℕ)
    (sized : length buf ≡ capacity) where
  open Ph use {count, make, free, is_locked, count-make, is_locked-free}

  -- What a weight that no new producer or consumer has is at the start: that of `main`.
  start :
      (w : Thread → ℕ)
      → ((i e : ℕ) → w (producing i e reserving) ≡ 0)
      → w (consuming 0 fetching) ≡ 0
      → total w (init Ph o buf).threads ≡ w awaiting_producers
  unfolding init
  start w no_producer no_consumer = omega (
    arith,
    crew_none (spawn_producers o 0 o.producers) w o.consumers no_consumer,
    spawned_none w no_producer o 0 o.producers,
  )

  start_producing : total is_producing (init Ph o buf).threads ≡ o.producers
  unfolding init
  start_producing = omega (
    arith,
    crew_none (spawn_producers o 0 o.producers) is_producing o.consumers refl,
    spawned_producing o 0 o.producers,
  )

  start_busy : total is_busy (init Ph o buf).threads ≡ o.consumers
  unfolding init
  start_busy = omega (
    arith,
    crew_one (spawn_producers o 0 o.producers) is_busy o.consumers refl,
    spawned_none is_busy (λ i e. refl) o 0 o.producers,
  )

  start_consumers : total is_consumer (init Ph o buf).threads ≡ o.consumers
  unfolding init
  start_consumers = omega (
    arith,
    crew_one (spawn_producers o 0 o.producers) is_consumer o.consumers refl,
    spawned_none is_consumer (λ i e. refl) o 0 o.producers,
  )

  start_threads : length (init Ph o buf).threads ≡ o.consumers + o.producers + 1
  unfolding init
  start_threads = omega (
    arith,
    length-append (replicate o.consumers (consuming 0 fetching)) (spawn_producers o 0 o.producers),
    length-replicate o.consumers (consuming 0 fetching),
    spawned_length o 0 o.producers,
  )

  pub init-Inv : Inv Ph o (init Ph o buf)
  unfolding init
  init-Inv = record {
    valid = law.0;
    slots = omega (arith, count-make capacity, start reserved (λ i e. refl) refl, nothing_used);
    loads = omega (arith, count-make 0, start pending (λ i e. refl) refl, nothing_used);
    locked = omega (arith, start holds (λ i e. refl) refl, ap flag is_locked-free);
    producers_left =
        omega (arith, count-make 0, start_producing, start (took o.producers) (λ i e. refl) refl);
    consumers_left =
        omega (arith, count-make 0, start_busy, start (took_last o.consumers) (λ i e. refl) refl);
    one_main = start is_main (λ i e. refl) refl;
    all_consumers = start_consumers;
    all_threads = start_threads;
    sentinels = omega (
      arith,
      ap (total is_sentinel) law.1,
      none_stopped,
      start (owed o.consumers) (λ i e. refl) refl,
    );
    early = λ _. start (owed o.consumers) (λ i e. refl) refl;
    ordered = subst ItemsFirst (sym law.1) tt;
    cleared = λ z. absurd (omega (arith, z, none_stopped));
    fits = (
      tt,
      crew-Fits (spawn_producers o 0 o.producers) o.consumers o.consumers
          (spawned-Fits o.consumers o 0 o.producers),
    );
    ledger =
        ap₂ bit_xor threads_work stored_work ∙ xor-zero (expected_checksum o.work_iters o.items);
  }
    where
      law : IsValid (new_ring buf) × (contents (new_ring buf) ≡ [])
      law = new_ring_lem buf sized

      nothing_used : used (new_ring buf) ≡ 0
      nothing_used = sym (length-contents (new_ring buf)) ∙ ap length law.1

      none_stopped : total is_stopped (init Ph o buf).threads ≡ 0
      none_stopped = start is_stopped (λ i e. refl) refl

      stored_work : stored Ph o (init Ph o buf).memory ≡ 0
      stored_work = ap (λ vs. bit_xor (xor_total (value_work o.work_iters) vs) 0) law.1 ∙ zero-xor 0

      threads_work :
          xor_total (worth o.work_iters) (init Ph o buf).threads
          ≡ expected_checksum o.work_iters o.items
      threads_work =
          zero-xor _
          ∙ xor_total-append (worth o.work_iters) (replicate o.consumers (consuming 0 fetching))
              (spawn_producers o 0 o.producers)
          ∙ ap₂ bit_xor
              (xor_total-replicate_zero (worth o.work_iters) o.consumers (consuming 0 fetching)
                refl)
              (spawned_same o.work_iters o 0 o.producers ∙ spawned_work_all fit o.work_iters)
          ∙ zero-xor (expected_checksum o.work_iters o.items)
