-- ===== src/WorkerPool/Photon/Weights.antt =====
-- What a thread of the Photon worker pool holds or still has to do, in numbers.
mod InQueue
mod InMain
pub use InQueue.*
pub use InMain.*
use zio_benchmarks.Shared.{ℕ, ap, ◌≡◌, ◌+◌, ◌-◌, ◌^◌, ◌≤◌, ◌<◌, bit_xor}
use zio_benchmarks.WorkerPool.Buffer.{is_sentinel, value_work}
use zio_benchmarks.WorkerPool.Expected.{range_work}
use zio_benchmarks.WorkerPool.Photon.{
  Pushing, reserving, locking, writing, posting, Popping, fetching, entering, reading, freeing,
  Thread, producing, produced, consuming, leaving, signing, consumed, awaiting_producers, stopping,
  awaiting_consumers, ended,
}

abbrev pub is_producing : Thread → ℕ
is_producing (producing i end pc) = 1
is_producing produced = 0
is_producing (consuming acc pc) = 0
is_producing (leaving acc) = 0
is_producing signing = 0
is_producing consumed = 0
is_producing awaiting_producers = 0
is_producing (stopping c pc) = 0
is_producing awaiting_consumers = 0
is_producing ended = 0

-- 1 for a consumer in its loop.
abbrev pub is_consuming : Thread → ℕ
is_consuming (producing i end pc) = 0
is_consuming produced = 0
is_consuming (consuming acc pc) = 1
is_consuming (leaving acc) = 0
is_consuming signing = 0
is_consuming consumed = 0
is_consuming awaiting_producers = 0
is_consuming (stopping c pc) = 0
is_consuming awaiting_consumers = 0
is_consuming ended = 0

-- 1 for a consumer that has not returned.
abbrev pub is_busy : Thread → ℕ
is_busy (producing i end pc) = 0
is_busy produced = 0
is_busy (consuming acc pc) = 1
is_busy (leaving acc) = 1
is_busy signing = 1
is_busy consumed = 0
is_busy awaiting_producers = 0
is_busy (stopping c pc) = 0
is_busy awaiting_consumers = 0
is_busy ended = 0

-- 1 for a consumer that has read a sentinel.
abbrev pub is_stopped : Thread → ℕ
is_stopped (producing i end pc) = 0
is_stopped produced = 0
is_stopped (consuming acc pc) = pop_sentinel pc
is_stopped (leaving acc) = 1
is_stopped signing = 1
is_stopped consumed = 1
is_stopped awaiting_producers = 0
is_stopped (stopping c pc) = 0
is_stopped awaiting_consumers = 0
is_stopped ended = 0

-- What a thread runs.
pub data Kind : Type 0 where
  producer_kind : Kind
  consumer_kind : Kind
  main_kind : Kind

abbrev pub kind : Thread → Kind
kind (producing i end pc) = producer_kind
kind produced = producer_kind
kind (consuming acc pc) = consumer_kind
kind (leaving acc) = consumer_kind
kind signing = consumer_kind
kind consumed = consumer_kind
kind awaiting_producers = main_kind
kind (stopping c pc) = main_kind
kind awaiting_consumers = main_kind
kind ended = main_kind

abbrev kind_is_main : Kind → ℕ
kind_is_main producer_kind = 0
kind_is_main consumer_kind = 0
kind_is_main main_kind = 1

abbrev kind_is_consumer : Kind → ℕ
kind_is_consumer producer_kind = 0
kind_is_consumer consumer_kind = 1
kind_is_consumer main_kind = 0

abbrev pub is_main : Thread → ℕ
is_main t = kind_is_main (kind t)

abbrev pub is_consumer : Thread → ℕ
is_consumer t = kind_is_consumer (kind t)

pub same_main : (t u : Thread) → kind u ≡ kind t → is_main u ≡ is_main t
same_main t u same = ap kind_is_main same

pub same_consumer : (t u : Thread) → kind u ≡ kind t → is_consumer u ≡ is_consumer t
same_consumer t u same = ap kind_is_consumer same

-- The work on the items that a thread has in hand.
abbrev pop_worth : ℕ → ℕ → Popping → ℕ
pop_worth iters acc fetching = acc
pop_worth iters acc entering = acc
pop_worth iters acc reading = acc
pop_worth iters acc (freeing v) = bit_xor acc (value_work iters v)

abbrev pub worth : ℕ → Thread → ℕ
worth iters (producing i end pc) =
    range_work iters (i + push_pending pc) (end - (i + push_pending pc))
worth iters produced = 0
worth iters (consuming acc pc) = pop_worth iters acc pc
worth iters (leaving acc) = acc
worth iters signing = 0
worth iters consumed = 0
worth iters awaiting_producers = 0
worth iters (stopping c pc) = 0
worth iters awaiting_consumers = 0
worth iters ended = 0

-- A push begins only inside the loop, and the loop counters do not wrap.
abbrev pub Fits : ℕ → Thread → Type 0
Fits consumers (producing i end pc) = (end < 2 ^ 64) × (push_ready pc ≤ end - i)
Fits consumers produced = Unit
Fits consumers (consuming acc pc) = Unit
Fits consumers (leaving acc) = Unit
Fits consumers signing = Unit
Fits consumers consumed = Unit
Fits consumers awaiting_producers = Unit
Fits consumers (stopping c pc) = (c ≤ consumers) × (push_ready pc ≤ consumers - c)
Fits consumers awaiting_consumers = Unit
Fits consumers ended = Unit
