-- ===== src/PingPong/Asio/Tests.antt =====
-- Small runs of queue_ping_pong.cpp.
use mathlib.Core.List.{flatten}
use zio_benchmarks.Channel.Fifo.{fifo}
use zio_benchmarks.Schedule.{run}
use zio_benchmarks.Schedule.Fair.{Covers}
use zio_benchmarks.Shared.{
  ℕ, zero, suc, ◌+◌, ◌*◌, ◌≡◌, inl, inr, refl, List, [], ◌∷◌, All, All-replicate, replicate, length,
  length-replicate, arith,
}
use zio_benchmarks.PingPong.{at_least_one}
use zio_benchmarks.PingPong.Asio.{Side, task_a, task_b, pair_step, new_pair, init, step}
use zio_benchmarks.PingPong.Asio.Runs.{terminating, copies, limit_of, IsComplete, pairs_finish}
use zio_benchmarks.PingPong.Asio.Turns.{Alternates, turns_alternate}

-- One pair that bounces three messages, from one side to the other and back.
abbrev there_and_back : List Side
there_and_back = task_a ∷ task_b ∷ task_b ∷ task_a ∷ task_a ∷ task_b ∷ task_b ∷ task_a ∷ []

short_run : (run (pair_step fifo 3) (new_pair fifo) there_and_back).log ≡ 0 ∷ 1 ∷ 2 ∷ []
unfolding run pair_step new_pair
short_run = refl

one_pair : at_least_one 1 ≡ 1
unfolding at_least_one
one_pair = refl

abbrev both : List (ℕ × Side)
both = (0, task_b) ∷ (0, task_a) ∷ []

Covers-both : Covers (terminating fifo 1) both
Covers-both (zero, task_a) h = inr (inl refl)
Covers-both (zero, task_b) h = inl refl
Covers-both (suc i, side) h = absurd (omega (arith, h.0, one_pair))

abbrev enough : ℕ
enough = copies fifo 1 * (2 * limit_of fifo 1 + 3)

pairs_finish_example :
    let ps = run (step fifo 1) (init fifo 1) (flatten (replicate enough both)) in
    (length ps ≡ copies fifo 1) × All (IsComplete fifo (limit_of fifo 1)) ps
pairs_finish_example =
    pairs_finish fifo 1 (replicate enough both)
      (All-replicate (Covers (terminating fifo 1)) enough both Covers-both)
      (omega (arith, length-replicate enough both))

turns_alternate_example : All (Alternates fifo (limit_of fifo 2)) (
    run
      (step fifo 2)
      (init fifo 2)
      ((1, task_a) ∷ (0, task_b) ∷ (1, task_b) ∷ (0, task_a) ∷ (1, task_b) ∷ []))
turns_alternate_example =
    turns_alternate fifo 2
      ((1, task_a) ∷ (0, task_b) ∷ (1, task_b) ∷ (0, task_a) ∷ (1, task_b) ∷ [])
