-- ===== src/WorkerPool/Photon/Tests.antt =====
-- Small runs of worker_pool_photon.cpp: 2 items, a producer, a consumer, one round of work. `main` is
-- thread 0, the consumer thread 1, the producer thread 2.
use mathlib.Core.List.{flatten}
use zio_benchmarks.Photon.Counting.{counting}
use zio_benchmarks.Schedule.{run, steps_taken, CanStep}
use zio_benchmarks.Schedule.Fair.{Covers}
use zio_benchmarks.Shared.{
  ℕ, zero, suc, ◌+◌, ◌<◌, ◌≤◌, ◌≡◌, ◌⊎◌, refl, inl, inr, List, [], ◌∷◌, ◌++◌, some, replicate,
  length, get_elem?, arith, total, All,
}
use zio_benchmarks.WorkerPool.Expected.{expected_checksum}
use zio_benchmarks.Clib.{codes, same_prefix}
use zio_benchmarks.Argv.{parsed, exits}
use zio_benchmarks.WorkerPool.Asio.Args.{Fits64, print_options}
use zio_benchmarks.WorkerPool.Photon.Args.{
  prepare, prepare-print_options, IsRefused, prepare_exits, prepare_not_started,
}
use zio_benchmarks.WorkerPool.Asio.{Options}
use zio_benchmarks.WorkerPool.Asio.Ranges.{IsBounded}
use zio_benchmarks.WorkerPool.Photon.{ended, step, init, IsOver}
use zio_benchmarks.WorkerPool.Photon.Slots.{
  Ring, IsValid, contents, used, capacity, new_ring, write_slot, read_slot, write_slot_lem,
  read_slot_lem, new_ring_lem,
}
use zio_benchmarks.WorkerPool.Photon.Weights.{holds, reserved}
use zio_benchmarks.WorkerPool.Photon.Runs.{
  terminating, main_ends_last, never_deadlocks, mutual_exclusion, steps_limited, fair_run_ends,
}

abbrev pair : Options
pair = record { items = 2; producers = 1; consumers = 1; work_iters = 1 }

pair_fits : IsBounded pair
pair_fits = omega arith

pair_consumer : 0 < pair.consumers
pair_consumer = omega arith

-- The array is not cleared at the start.
abbrev junk : List ℕ
junk = replicate 256 7

junk_sized : length junk ≡ capacity
junk_sized = refl

abbrev all_threads : List ℕ
all_threads = 0 ∷ 1 ∷ 2 ∷ []

Covers-all : Covers (terminating counting pair_fits pair_consumer) all_threads
Covers-all zero h = inl refl
Covers-all (suc zero) h = inr (inl refl)
Covers-all (suc (suc zero)) h = inr (inr (inl refl))
Covers-all (suc (suc (suc k))) h = absurd (omega arith)

-- The producer to its end, the sentinel, the consumer to its end, and `main` again.
abbrev in_order : List ℕ
in_order = replicate 9 2 ++ replicate 6 0 ++ replicate 14 1 ++ 0 ∷ []

main_over :
    get_elem? (run (step counting pair) (init counting pair junk) in_order).threads 0 ≡ some ended
unfolding run step init read_slot write_slot new_ring
main_over = refl

-- Every resumption of it goes on.
pair_steps : steps_taken (step counting pair) (init counting pair junk) in_order ≡ 30
unfolding steps_taken step init read_slot write_slot new_ring
pair_steps = refl

fair_run_ends_example :
    let s =
      run (step counting pair) (init counting pair junk) (flatten (replicate 35 all_threads)) in
    All IsOver s.threads
    × (contents s.memory.queue.ring ≡ [])
    × (s.memory.checksum ≡ expected_checksum 1 2)
fair_run_ends_example =
    fair_run_ends counting pair_fits pair_consumer junk junk_sized (replicate 35 all_threads)
      all_cover (omega arith)
  where
    many :
        (n : ℕ)
        → All (Covers (terminating counting pair_fits pair_consumer)) (replicate n all_threads)
    many zero = tt
    many (suc n) = (Covers-all, many n)

    all_cover :
        All (Covers (terminating counting pair_fits pair_consumer)) (replicate 35 all_threads)
    all_cover = many 35

main_ends_last_example :
    let s = run (step counting pair) (init counting pair junk) in_order in
    All IsOver s.threads
    × (contents s.memory.queue.ring ≡ [])
    × (s.memory.checksum ≡ expected_checksum 1 2)
main_ends_last_example =
    main_ends_last counting pair_fits pair_consumer junk junk_sized in_order 0 main_over

never_deadlocks_example :
    let s = run (step counting pair) (init counting pair junk) (1 ∷ 2 ∷ 0 ∷ []) in
    All IsOver s.threads ⊎ ((k : ℕ) × (k < 3) × CanStep (step counting pair) s k)
never_deadlocks_example =
    never_deadlocks counting pair_fits pair_consumer junk junk_sized (1 ∷ 2 ∷ 0 ∷ [])

mutual_exclusion_example :
    let s = run (step counting pair) (init counting pair junk) (2 ∷ 2 ∷ []) in
    (total holds s.threads ≤ 1) × (used s.memory.queue.ring + total reserved s.threads ≤ 256)
mutual_exclusion_example =
    mutual_exclusion counting pair_fits pair_consumer junk junk_sized (2 ∷ 2 ∷ [])

steps_limited_example : steps_taken (step counting pair) (init counting pair junk) in_order ≤ 35
steps_limited_example = steps_limited counting pair_fits pair_consumer junk junk_sized in_order

new-IsValid : IsValid (new_ring junk)
new-IsValid = (new_ring_lem junk junk_sized).0

new_room : used (new_ring junk) < capacity
unfolding new_ring
new_room = omega arith

write_slot_lem_example :
    IsValid (write_slot (new_ring junk) 5)
    × (contents (write_slot (new_ring junk) 5) ≡ contents (new_ring junk) ++ 5 ∷ [])
    × (used (write_slot (new_ring junk) 5) ≡ used (new_ring junk) + 1)
write_slot_lem_example = write_slot_lem new-IsValid 5 new_room

-- A ring whose counters have wrapped: slot 255 and then slot 0.
abbrev wrapped : Ring
wrapped = record { buf = junk; head = 18446744073709551615; tail = 1 }

wrapped-IsValid : IsValid wrapped
wrapped-IsValid = record {
  sized = refl;
  head_fits = omega arith;
  tail_fits = omega arith;
  within = omega arith;
}

read_slot_lem_example :
    IsValid (read_slot wrapped).0
    × (contents wrapped ≡ (read_slot wrapped).1 ∷ contents (read_slot wrapped).0)
    × (used wrapped ≡ used (read_slot wrapped).0 + 1)
read_slot_lem_example = read_slot_lem wrapped-IsValid (omega arith)

pair_fits_64 : Fits64 pair
pair_fits_64 = omega arith

pair_asked : prepare 0 (print_options pair) ≡ parsed pair
pair_asked = prepare-print_options pair pair_fits_64

-- The Asio program takes `--st`; this one does not.
st-IsRefused : IsRefused (codes "--st")
unfolding same_prefix
st-IsRefused = record {
  not_items = refl;
  not_producers = refl;
  not_consumers = refl;
  not_work = refl;
}

unknown_refused : prepare 0 ((codes "--work=1" ∷ []) ++ codes "--st" ∷ []) ≡ exits 1
unknown_refused = prepare_exits 0 (codes "--st") (codes "--work=1" ∷ []) [] st-IsRefused

not_started : prepare 1 (codes "--work=1" ∷ []) ≡ exits 1
not_started = prepare_not_started 1 (codes "--work=1" ∷ []) (omega arith)
