-- ===== src/WorkerPool/Agreement.antt =====
-- The two worker pools side by side.
mod Tests
use zio_benchmarks.Channel.{Channel}
use zio_benchmarks.Photon.{Photon}
use zio_benchmarks.Schedule.{run}
use zio_benchmarks.Shared.{ℕ, ◌<◌, ◌≡◌, sym, ◌∙◌, List, some, length, get_elem?}
use zio_benchmarks.WorkerPool.Asio.{Options, Coroutine, IsJoined}
use zio_benchmarks.WorkerPool.Asio as Asio
use zio_benchmarks.WorkerPool.Asio.Ranges.{IsBounded}
use zio_benchmarks.WorkerPool.Asio.Runs.{checksum_agrees}
use zio_benchmarks.WorkerPool.Photon.{ended}
use zio_benchmarks.WorkerPool.Photon as Threads
use zio_benchmarks.WorkerPool.Photon.Slots.{capacity}
use zio_benchmarks.WorkerPool.Photon.Runs.{main_ends_last}

-- The two programs compute the same: with the same options, any Asio run whose coroutines have all
-- returned and any Photon run whose `main` has returned have the same checksum. The options fit 64
-- bits, with their product, there are a producer and a consumer, and the array of the Photon queue has
-- 256 slots.
pub pools_agree :
    (C : Channel) (Ph : Photon) {o : Options} (fits : IsBounded o) (some_consumer : 0 < o.consumers)
    (buf : List ℕ) (sized : length buf ≡ capacity) (ks : List Coroutine) (ls : List ℕ) (k : ℕ)
    → IsJoined (run (Asio.step C o) (Asio.init C o) ks)
    → get_elem? (run (Threads.step Ph o) (Threads.init Ph o buf) ls).threads k ≡ some ended
    → (run (Asio.step C o) (Asio.init C o) ks).memory.checksum
      ≡ (run (Threads.step Ph o) (Threads.init Ph o buf) ls).memory.checksum
pools_agree C Ph fits some_consumer buf sized ks ls k joined at =
    (checksum_agrees C fits some_consumer ks joined).1
    ∙ sym (main_ends_last Ph fits some_consumer buf sized ls k at).2
