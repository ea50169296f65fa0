-- ===== src/WorkerPool/Asio/Tests.antt =====
-- Small runs of worker_pool_asio.cpp: 3 items, 2 producers, 2 consumers, one round of work.
use mathlib.Core.List.{flatten}
use zio_benchmarks.Channel.Fifo.{Fifo, fifo}
use zio_benchmarks.Clib.{codes, same_string, same_prefix, strtoull}
use zio_benchmarks.Argv.{parsed, exits}
use zio_benchmarks.Shared.{
  ℕ, zero, suc, ◌+◌, ◌-◌, ◌/◌, ◌%◌, ◌^◌, ◌≤◌, ◌<◌, ◌≡◌, ◌⊎◌, refl, inl, inr, true, false, List, [],
  ◌∷◌, ◌++◌, replicate, arith, total, bit_xor, All,
}
use zio_benchmarks.WorkerPool.Hash.{work, work-add, work_lem, joined_jumps, orbit}
use zio_benchmarks.WorkerPool.Buffer.{is_item}
use zio_benchmarks.WorkerPool.Expected.{expected_checksum}
use zio_benchmarks.WorkerPool.Asio.{
  Options, Pool, Coroutine, producer, consumer, range_start, range_end, init, step, IsJoined,
}
use zio_benchmarks.WorkerPool.Asio.Measures.{is_sending, is_stopped}
use zio_benchmarks.WorkerPool.Asio.Ranges.{IsBounded, ranges_partition}
use zio_benchmarks.WorkerPool.Asio.Runs.{
  drained_before_stop, checksum_agrees, no_deadlock, steps_bounded, fair_run_correct, terminating,
  IsSpawned,
}
use zio_benchmarks.Schedule.{run, steps_taken, CanStep}
use zio_benchmarks.Schedule.Fair.{Covers, Has}
use zio_benchmarks.WorkerPool.Asio.Misuse.{no_producer_hangs, split_overflows}
use zio_benchmarks.WorkerPool.Asio.Args.{
  Settings, parse_args, print_settings, Fits64, IsUnknown, parse-print_settings, parse_args-Fits64,
  parse_args_unknown,
}

abbrev small : Options
small = record { items = 3; producers = 2; consumers = 2; work_iters = 1 }

small_fits : IsBounded small
small_fits = omega arith

abbrev one_round : List Coroutine
one_round = consumer 0 ∷ consumer 1 ∷ producer 0 ∷ producer 1 ∷ []

-- The producers first, then the consumers.
abbrev in_turn : List Coroutine
in_turn =
    replicate 3 (producer 0)
    ++ replicate 8 (producer 1)
    ++ replicate 6 (consumer 1)
    ++ replicate 6 (consumer 0)

small_run : Pool Fifo
small_run = run (step fifo small) (init fifo small) in_turn

small-IsJoined : IsJoined (run (step fifo small) (init fifo small) in_turn)
unfolding run init step
small-IsJoined = ((refl, (refl, tt)), (refl, (refl, tt)))

small_consumer : 0 < small.consumers
small_consumer = omega arith

Covers-small : (k : Coroutine) → IsSpawned small k → Has k one_round
Covers-small (producer zero) h = inr (inr (inl refl))
Covers-small (producer (suc zero)) h = inr (inr (inr (inl refl)))
Covers-small (producer (suc (suc i))) h = absurd (omega arith)
Covers-small (consumer zero) h = inl refl
Covers-small (consumer (suc zero)) h = inr (inl refl)
Covers-small (consumer (suc (suc j))) h = absurd (omega arith)

-- The first producer takes item 0, the second items 1 and 2.
small_ranges :
    (range_start small 0 ≡ 0)
    × (range_end small 0 ≡ 1)
    × (range_start small 1 ≡ 1)
    × (range_end small 1 ≡ 3)
unfolding range_start range_end
small_ranges = (refl, refl, refl, refl)

work_once : work 1 1 ≡ (6364136223846793005 + 1442695040888963407) % 2 ^ 64 / 2 ^ 29
unfolding work
work_once = refl

-- The presets of the header comment, as arguments.
fan_in_args :
    parse_args (codes "--num-producers=1000" ∷ codes "--num-consumers=1" ∷ codes "--work=0" ∷ [])
    ≡ parsed (record {
      st = false;
      options = record { items = 100000; producers = 1000; consumers = 1; work_iters = 0 };
    })
unfolding parse_args same_string same_prefix strtoull
fan_in_args = refl

-- A negative number wraps, and a number beyond 64 bits is cut.
odd_numbers :
    (strtoull (codes " -1x") ≡ 2 ^ 64 - 1) × (strtoull (codes "99999999999999999999") ≡ 2 ^ 64 - 1)
unfolding strtoull
odd_numbers = (refl, refl)

fair_run_correct_example :
    let s = run (step fifo small) (init fifo small) (flatten (replicate 22 one_round)) in
    IsJoined s × (s.memory.chan.values ≡ []) × (s.memory.checksum ≡ expected_checksum 1 3)
fair_run_correct_example =
    fair_run_correct fifo small_fits small_consumer (replicate 22 one_round) all_cover (omega arith)
  where
    many :
        (n : ℕ) → All (Covers (terminating fifo small_fits small_consumer)) (replicate n one_round)
    many zero = tt
    many (suc n) = (Covers-small, many n)

    all_cover : All (Covers (terminating fifo small_fits small_consumer)) (replicate 22 one_round)
    all_cover = many 22

checksum_agrees_example :
    (small_run.memory.chan.values ≡ []) × (small_run.memory.checksum ≡ expected_checksum 1 3)
unfolding small_run
checksum_agrees_example = checksum_agrees fifo small_fits small_consumer in_turn small-IsJoined

no_deadlock_example :
    let s = run (step fifo small) (init fifo small) (producer 1 ∷ []) in
    IsJoined s ⊎ ((k : Coroutine) × IsSpawned small k × CanStep (step fifo small) s k)
no_deadlock_example = no_deadlock fifo small_fits small_consumer (producer 1 ∷ [])

small_stopped : total is_stopped (run (step fifo small) (init fifo small) in_turn).consumers ≡ 2
unfolding run init step
small_stopped = refl

drained_before_stop_example :
    (total is_sending small_run.producers ≡ 0) × (total is_item small_run.memory.chan.values ≡ 0)
unfolding small_run
drained_before_stop_example =
    drained_before_stop fifo small_fits small_consumer in_turn (omega (arith, small_stopped))

ranges_partition_example :
    (range_start small 0 ≡ 0)
    × ((p : ℕ) → p + 1 < 2 → range_end small p ≡ range_start small (p + 1))
    × (range_end small 1 ≡ 3)
    × ((p : ℕ)
        → p < 2
        → (range_start small p + 3 / 2 ≤ range_end small p)
          × (range_end small p ≤ range_start small p + 3 / 2 + 1))
ranges_partition_example = ranges_partition small_fits

work_in_two : work 7 (2 + 3) ≡ bit_xor (work 7 2) (work (orbit 2 7) 3)
work_in_two = work-add 7 2 3

steps_bounded_example : steps_taken (step fifo small) (init fifo small) in_turn ≤ 22
steps_bounded_example = steps_bounded fifo small_fits small_consumer in_turn

-- In this run 15 of the 22 are used.
small_steps : steps_taken (step fifo small) (init fifo small) in_turn ≡ 15
unfolding steps_taken step init
small_steps = refl

work_lem_example : work (2 ^ 64 - 1) 3 ≡ joined_jumps (2 ^ 64 - 1) 3
work_lem_example = work_lem (2 ^ 64 - 1) 3

no_producer_hangs_example : ¬ IsJoined (
    run
      (step fifo (record small { producers = 0 }))
      (init fifo (record small { producers = 0 }))
      one_round)
no_producer_hangs_example =
    no_producer_hangs fifo (record small { producers = 0 }) refl (omega arith) one_round

abbrev huge : Options
huge = record { items = 2 ^ 63; producers = 4; consumers = 1; work_iters = 0 }

split_overflows_example : range_end huge 3 < 2 ^ 63
split_overflows_example = split_overflows huge (omega arith) (omega arith) (omega arith)

abbrev chosen : Settings
chosen = record { st = true; options = small }

chosen_fits : Fits64 small
chosen_fits = omega arith

parse-print_settings_example : parse_args (print_settings chosen) ≡ parsed chosen
parse-print_settings_example = parse-print_settings chosen chosen_fits

read_in_range : Fits64 small
read_in_range =
    parse_args-Fits64 (print_settings chosen) chosen (parse-print_settings chosen chosen_fits)

help-IsUnknown : IsUnknown (codes "--help")
unfolding same_string same_prefix
help-IsUnknown = record {
  not_st = refl;
  not_items = refl;
  not_producers = refl;
  not_consumers = refl;
  not_work = refl;
}

parse_args_unknown_example :
    parse_args ((codes "--st" ∷ []) ++ codes "--help" ∷ (codes "--work=1" ∷ [])) ≡ exits 1
parse_args_unknown_example =
    parse_args_unknown (codes "--help") (codes "--st" ∷ []) (codes "--work=1" ∷ []) help-IsUnknown
