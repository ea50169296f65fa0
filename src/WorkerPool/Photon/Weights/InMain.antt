-- ===== src/WorkerPool/Photon/Weights/InMain.antt =====
-- What `main` of the Photon worker pool has taken, and still owes.
use zio_benchmarks.Shared.{ℕ, ◌-◌}
use zio_benchmarks.WorkerPool.Photon.{
  Pushing, Thread, producing, produced, consuming, leaving, signing, consumed, awaiting_producers,
  stopping, awaiting_consumers, ended,
}
use zio_benchmarks.WorkerPool.Photon.Weights.InQueue.{push_pending}

-- A weight of `main` alone: in its four parts.
abbrev pub in_main : ℕ → (ℕ → Pushing → ℕ) → ℕ → ℕ → Thread → ℕ
in_main before push behind last (producing i end pc) = 0
in_main before push behind last produced = 0
in_main before push behind last (consuming acc pc) = 0
in_main before push behind last (leaving acc) = 0
in_main before push behind last signing = 0
in_main before push behind last consumed = 0
in_main before push behind last awaiting_producers = before
in_main before push behind last (stopping c pc) = push c pc
in_main before push behind last awaiting_consumers = behind
in_main before push behind last ended = last

-- What `main` has taken from `producers_done` and from `consumers_done`.
abbrev pub took : ℕ → Thread → ℕ
took producers = in_main 0 (λ c pc. producers) producers producers

abbrev pub took_last : ℕ → Thread → ℕ
took_last consumers = in_main 0 (λ c pc. 0) 0 consumers

abbrev pub is_waiting : Thread → ℕ
is_waiting = in_main 1 (λ c pc. 0) 0 0

abbrev pub is_ended : Thread → ℕ
is_ended = in_main 0 (λ c pc. 0) 0 1

abbrev pub is_unended : Thread → ℕ
is_unended = in_main 1 (λ c pc. 1) 1 0

abbrev pub is_past : Thread → ℕ
is_past = in_main 0 (λ c pc. 1) 1 1

-- The sentinels that `main` has not yet written.
abbrev pub owed : ℕ → Thread → ℕ
owed consumers = in_main consumers (λ c pc. consumers - c - push_pending pc) 0 0

-- 1 while `main` may still write a sentinel, and 1 behind that.
abbrev pub is_owing : Thread → ℕ
is_owing = in_main 1 (λ c pc. 1) 0 0

abbrev pub is_settled : Thread → ℕ
is_settled = in_main 0 (λ c pc. 0) 1 1
