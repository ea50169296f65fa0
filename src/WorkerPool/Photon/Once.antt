-- ===== src/WorkerPool/Photon/Once.antt =====
-- What the consumers of the Photon worker pool hand to `work` along a schedule.
mod Steps
mod Runs
mod Tests
use zio_benchmarks.Photon.{Photon}
use zio_benchmarks.Schedule.{or_stay}
use zio_benchmarks.Shared.{
  ℕ, suc, ◌+◌, List, [], ◌∷◌, ◌++◌, none, some, get_elem?, ◌==◌, if◌then◌else◌,
}
use zio_benchmarks.WorkerPool.Items.{is_value, ahead}
use zio_benchmarks.WorkerPool.Asio.{Options}
use zio_benchmarks.WorkerPool.Photon.{
  reserving, locking, writing, posting, Popping, fetching, entering, reading, freeing, Thread,
  producing, produced, consuming, leaving, signing, consumed, awaiting_producers, stopping,
  awaiting_consumers, ended, State, step,
}
use zio_benchmarks.WorkerPool.Photon.Weights.{push_pending}

abbrev pub in_pop : ℕ → Popping → ℕ
in_pop n fetching = 0
in_pop n entering = 0
in_pop n reading = 0
in_pop n (freeing v) = is_value (suc n) v

-- 1 if a producer has item `n` still to write, or a consumer has it from `pop`.
abbrev pub carried : ℕ → Thread → ℕ
carried n (producing i end pc) = ahead n (i + push_pending pc) end
carried n produced = 0
carried n (consuming acc pc) = in_pop n pc
carried n (leaving acc) = 0
carried n signing = 0
carried n consumed = 0
carried n awaiting_producers = 0
carried n (stopping c pc) = 0
carried n awaiting_consumers = 0
carried n ended = 0

abbrev pub popped : Popping → List ℕ
popped fetching = []
popped entering = []
popped reading = []
popped (freeing v) = if v == 0 then [] else v ∷ []

-- The value that a thread hands to `work` when it is resumed.
abbrev pub worked_on : Thread → List ℕ
worked_on (producing i end pc) = []
worked_on produced = []
worked_on (consuming acc pc) = popped pc
worked_on (leaving acc) = []
worked_on signing = []
worked_on consumed = []
worked_on awaiting_producers = []
worked_on (stopping c pc) = []
worked_on awaiting_consumers = []
worked_on ended = []

module _ (Ph : Photon) where
  unfoldable pub handed : State Ph → ℕ → List ℕ
  handed s k = elim (get_elem? s.threads k) [ none ↦ [] | some t ↦ worked_on t ]

  -- Along a schedule, in order.
  unfoldable pub all_handed : Options → State Ph → List ℕ → List ℕ
  unfolding handed
  all_handed o s [] = []
  all_handed o s (k ∷ ks) = handed s k ++ all_handed o (or_stay s (step Ph o s k)) ks
