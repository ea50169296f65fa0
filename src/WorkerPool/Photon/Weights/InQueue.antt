-- ===== src/WorkerPool/Photon/Weights/InQueue.antt =====
-- What a thread of the Photon worker pool holds inside a push or a pop.
use zio_benchmarks.Shared.{ℕ}
use zio_benchmarks.WorkerPool.Buffer.{is_sentinel}
use zio_benchmarks.WorkerPool.Photon.{
  Pushing, reserving, locking, writing, posting, Popping, fetching, entering, reading, freeing,
  Thread, producing, produced, consuming, leaving, signing, consumed, awaiting_producers, stopping,
  awaiting_consumers, ended,
}

abbrev pub push_reserved : Pushing → ℕ
push_reserved reserving = 0
push_reserved locking = 1
push_reserved writing = 1
push_reserved posting = 0

abbrev pub push_pending : Pushing → ℕ
push_pending reserving = 0
push_pending locking = 0
push_pending writing = 0
push_pending posting = 1

abbrev pub push_holds : Pushing → ℕ
push_holds reserving = 0
push_holds locking = 0
push_holds writing = 1
push_holds posting = 0

-- A push that has begun, and in which only the mutex can block.
abbrev pub push_ready : Pushing → ℕ
push_ready reserving = 0
push_ready locking = 1
push_ready writing = 1
push_ready posting = 1

abbrev pub pop_reserved : Popping → ℕ
pop_reserved fetching = 0
pop_reserved entering = 0
pop_reserved reading = 0
pop_reserved (freeing v) = 1

abbrev pub pop_pending : Popping → ℕ
pop_pending fetching = 0
pop_pending entering = 1
pop_pending reading = 1
pop_pending (freeing v) = 0

abbrev pub pop_holds : Popping → ℕ
pop_holds fetching = 0
pop_holds entering = 0
pop_holds reading = 1
pop_holds (freeing v) = 0

abbrev pub pop_ready : Popping → ℕ
pop_ready fetching = 0
pop_ready entering = 1
pop_ready reading = 1
pop_ready (freeing v) = 1

abbrev pub pop_sentinel : Popping → ℕ
pop_sentinel fetching = 0
pop_sentinel entering = 0
pop_sentinel reading = 0
pop_sentinel (freeing v) = is_sentinel v

-- A weight that only a push and a pop have.
abbrev pub in_queue : (Pushing → ℕ) → (Popping → ℕ) → ℕ → Thread → ℕ
in_queue push pop rest (producing i end pc) = push pc
in_queue push pop rest produced = 0
in_queue push pop rest (consuming acc pc) = pop pc
in_queue push pop rest (leaving acc) = rest
in_queue push pop rest signing = rest
in_queue push pop rest consumed = 0
in_queue push pop rest awaiting_producers = 0
in_queue push pop rest (stopping c pc) = push pc
in_queue push pop rest awaiting_consumers = 0
in_queue push pop rest ended = 0

-- Slots taken from `space` that hold no value.
abbrev pub reserved : Thread → ℕ
reserved = in_queue push_reserved pop_reserved 0

-- Values in the array that `items` does not count.
abbrev pub pending : Thread → ℕ
pending = in_queue push_pending pop_pending 0

abbrev pub holds : Thread → ℕ
holds = in_queue push_holds pop_holds 0

abbrev pub ready : Thread → ℕ
ready = in_queue push_ready pop_ready 1
