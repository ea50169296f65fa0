-- ===== src/WorkerPool/Agreement/Tests.antt =====
-- One run of each worker pool: 2 items, a producer, a consumer, one round of work.
use zio_benchmarks.Channel.Fifo.{fifo}
use zio_benchmarks.Photon.Counting.{counting}
use zio_benchmarks.Schedule.{run}
use zio_benchmarks.Shared.{
  ℕ, ◌<◌, ◌≡◌, refl, List, [], ◌∷◌, ◌++◌, some, replicate, get_elem?, arith,
}
use zio_benchmarks.WorkerPool.Asio.{Options, Coroutine, producer, consumer, IsJoined}
use zio_benchmarks.WorkerPool.Asio as Asio
use zio_benchmarks.WorkerPool.Asio.Ranges.{IsBounded}
use zio_benchmarks.WorkerPool.Photon.{ended}
use zio_benchmarks.WorkerPool.Photon as Threads
use zio_benchmarks.WorkerPool.Photon.Slots.{read_slot, write_slot, new_ring}
use zio_benchmarks.WorkerPool.Agreement.{pools_agree}

abbrev tiny : Options
tiny = record { items = 2; producers = 1; consumers = 1; work_iters = 1 }

tiny_fits : IsBounded tiny
tiny_fits = omega arith

tiny_consumer : 0 < tiny.consumers
tiny_consumer = omega arith

abbrev cleared : List ℕ
cleared = replicate 256 0

abbrev asio_order : List Coroutine
asio_order = replicate 6 (producer 0) ++ replicate 8 (consumer 0)

-- `main` is thread 0, the consumer thread 1, the producer thread 2.
abbrev photon_order : List ℕ
photon_order = replicate 9 2 ++ replicate 6 0 ++ replicate 14 1 ++ 0 ∷ []

asio-IsJoined : IsJoined (run (Asio.step fifo tiny) (Asio.init fifo tiny) asio_order)
unfolding run Asio.init Asio.step
asio-IsJoined = ((refl, tt), (refl, tt))

photon_ended :
    get_elem?
      (run (Threads.step counting tiny) (Threads.init counting tiny cleared) photon_order).threads
      0
    ≡ some ended
unfolding run Threads.init Threads.step read_slot write_slot new_ring
photon_ended = refl

pools_agree_example :
    (run (Asio.step fifo tiny) (Asio.init fifo tiny) asio_order).memory.checksum
    ≡ (run
        (Threads.step counting tiny)
        (Threads.init counting tiny cleared)
        photon_order).memory.checksum
pools_agree_example =
    pools_agree fifo counting tiny_fits tiny_consumer cleared refl asio_order photon_order 0
      asio-IsJoined photon_ended
