-- ===== src/WorkerPool/Photon/Once/Tests.antt =====
-- A small run of worker_pool_photon.cpp: 2 items, a producer, a consumer. `main` is thread 0, the
-- consumer thread 1, the producer thread 2.
use zio_benchmarks.Photon.Counting.{counting}
use zio_benchmarks.Schedule.{run}
use zio_benchmarks.Shared.{
  ℕ, ◌≤◌, ◌<◌, ◌≡◌, refl, List, [], ◌∷◌, ◌++◌, some, replicate, get_elem?, arith,
}
use zio_benchmarks.WorkerPool.Items.{count, is_below}
use zio_benchmarks.WorkerPool.Asio.{Options}
use zio_benchmarks.WorkerPool.Asio.Ranges.{IsBounded}
use zio_benchmarks.WorkerPool.Photon.{ended, step, init}
use zio_benchmarks.WorkerPool.Photon.Slots.{read_slot, write_slot, new_ring}
use zio_benchmarks.WorkerPool.Photon.Once.{all_handed}
use zio_benchmarks.WorkerPool.Photon.Once.Runs.{worked_once, worked_at_most_once}

abbrev tiny : Options
tiny = record { items = 2; producers = 1; consumers = 1; work_iters = 1 }

tiny_fits : IsBounded tiny
tiny_fits = omega arith

tiny_consumer : 0 < tiny.consumers
tiny_consumer = omega arith

abbrev cleared : List ℕ
cleared = replicate 256 0

abbrev in_order : List ℕ
in_order = replicate 9 2 ++ replicate 6 0 ++ replicate 14 1 ++ 0 ∷ []

main_over :
    get_elem? (run (step counting tiny) (init counting tiny cleared) in_order).threads 0
    ≡ some ended
unfolding run step init read_slot write_slot new_ring
main_over = refl

worked_once_example :
    count 2 (all_handed counting tiny (init counting tiny cleared) in_order) ≡ is_below 1 tiny.items
worked_once_example =
    worked_once counting tiny_fits tiny_consumer cleared refl 1 in_order 0 main_over

worked_at_most_once_example :
    count 2 (all_handed counting tiny (init counting tiny cleared) (2 ∷ 2 ∷ 1 ∷ []))
    ≤ is_below 1 tiny.items
worked_at_most_once_example =
    worked_at_most_once counting tiny_fits tiny_consumer cleared refl 1 (2 ∷ 2 ∷ 1 ∷ [])
