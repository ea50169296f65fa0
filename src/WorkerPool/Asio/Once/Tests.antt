-- ===== src/WorkerPool/Asio/Once/Tests.antt =====
-- A small run of worker_pool_asio.cpp: 2 items, a producer, 2 consumers.
use zio_benchmarks.Channel.Fifo.{fifo}
use zio_benchmarks.Schedule.{run}
use zio_benchmarks.Shared.{◌≤◌, ◌<◌, ◌≡◌, refl, List, [], ◌∷◌, ◌++◌, replicate, arith}
use zio_benchmarks.WorkerPool.Items.{count, is_below}
use zio_benchmarks.WorkerPool.Asio.{Options, Coroutine, producer, consumer, init, step, IsJoined}
use zio_benchmarks.WorkerPool.Asio.Ranges.{IsBounded}
use zio_benchmarks.WorkerPool.Asio.Once.{all_handed}
use zio_benchmarks.WorkerPool.Asio.Once.Runs.{never_twice, handed_once}

abbrev tiny : Options
tiny = record { items = 2; producers = 1; consumers = 2; work_iters = 1 }

tiny_fits : IsBounded tiny
tiny_fits = omega arith

tiny_consumer : 0 < tiny.consumers
tiny_consumer = omega arith

abbrev in_turn : List Coroutine
in_turn =
    replicate 6 (producer 0)
    ++ consumer 1 ∷ consumer 0 ∷ replicate 3 (consumer 0)
    ++ replicate 4 (consumer 1)

tiny-IsJoined : IsJoined (run (step fifo tiny) (init fifo tiny) in_turn)
unfolding run init step
tiny-IsJoined = ((refl, tt), (refl, (refl, tt)))

both_handed : all_handed fifo tiny (init fifo tiny) in_turn ≡ 1 ∷ 2 ∷ []
unfolding all_handed init step
both_handed = refl

handed_once_example :
    count 2 (all_handed fifo tiny (init fifo tiny) in_turn) ≡ is_below 1 tiny.items
handed_once_example = handed_once fifo tiny_fits tiny_consumer 1 in_turn tiny-IsJoined

never_twice_example :
    count 2 (all_handed fifo tiny (init fifo tiny) (producer 0 ∷ consumer 1 ∷ []))
    ≤ is_below 1 tiny.items
never_twice_example = never_twice fifo tiny_fits tiny_consumer 1 (producer 0 ∷ consumer 1 ∷ [])
