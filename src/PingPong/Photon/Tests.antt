-- ===== src/PingPong/Photon/Tests.antt =====
-- Small runs of queue_ping_pong_photon.cpp.
use mathlib.Core.List.{flatten}
use zio_benchmarks.Photon.Counting.{counting}
use zio_benchmarks.Schedule.{run}
use zio_benchmarks.Schedule.Fair.{Covers}
use zio_benchmarks.Shared.{
  ℕ, zero, suc, ◌+◌, ◌*◌, ◌^◌, ◌<◌, ◌≡◌, ◌⊎◌, inl, inr, refl, List, [], ◌∷◌, All, All-replicate,
  replicate, length, length-replicate, arith,
}
use zio_benchmarks.PingPong.{at_least_one}
use zio_benchmarks.PingPong.Photon.{
  first, second, awaiting, ended, Coroutine, main, task, step, init,
}
use zio_benchmarks.PingPong.Photon.Program.{copies, limit_of}
use zio_benchmarks.PingPong.Photon.Runs.{
  terminating, IsComplete, IsOrderly, photon_pairs_finish, slots_exclusive,
}

one_pair : at_least_one 1 ≡ 1
unfolding at_least_one
one_pair = refl

few : 2 * copies counting 1 < 2 ^ 64
few = omega (arith, one_pair)

abbrev everyone : List Coroutine
everyone = main ∷ task 0 second ∷ task 0 first ∷ []

Covers-everyone : Covers (terminating counting 1 few) everyone
Covers-everyone main h = inl refl
Covers-everyone (task zero first) h = inr (inr (inl refl))
Covers-everyone (task zero second) h = inr (inl refl)
Covers-everyone (task (suc i) side) h = absurd (omega (arith, h, one_pair))

abbrev enough : ℕ
enough = copies counting 1 * (6 * limit_of counting 1 + 19) + 1

photon_pairs_finish_example :
    let s = run (step counting 1) (init counting 1) (flatten (replicate enough everyone)) in
    (s.main ≡ ended)
    × (length s.pairs ≡ copies counting 1)
    × All (IsComplete counting (limit_of counting 1)) s.pairs
photon_pairs_finish_example =
    photon_pairs_finish counting 1 few (replicate enough everyone)
      (All-replicate (Covers (terminating counting 1 few)) enough everyone Covers-everyone)
      (omega (arith, length-replicate enough everyone))

abbrev some_steps : List Coroutine
some_steps = task 0 first ∷ task 0 second ∷ task 0 first ∷ main ∷ task 0 first ∷ task 0 second ∷ []

slots_exclusive_example :
    let s = run (step counting 1) (init counting 1) some_steps in
    All (IsOrderly counting (limit_of counting 1)) s.pairs
    × ((s.main ≡ awaiting) ⊎ All (IsComplete counting (limit_of counting 1)) s.pairs)
slots_exclusive_example = slots_exclusive counting 1 few some_steps
