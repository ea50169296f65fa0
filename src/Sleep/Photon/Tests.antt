-- ===== src/Sleep/Photon/Tests.antt =====
-- Small runs of sleep_photon.cpp: 2 sleepers, threads 1 and 2; `main` is thread 0.
use mathlib.Core.List.{flatten}
use zio_benchmarks.Argv.{exits}
use zio_benchmarks.Clib.{codes, same_prefix}
use zio_benchmarks.Photon.Counting.{counting}
use zio_benchmarks.Schedule.{run}
use zio_benchmarks.Schedule.Fair.{Covers}
use zio_benchmarks.Shared.{
  ℕ, zero, suc, ◌≡◌, inl, inr, refl, false, some, List, [], ◌∷◌, ◌++◌, All, get_elem?, arith,
  replicate,
}
use zio_benchmarks.Sleep.{Options}
use zio_benchmarks.Sleep.Photon.{ended, step, init}
use zio_benchmarks.Sleep.Photon.Args.{prepare, usage_exits}
use zio_benchmarks.Sleep.Photon.Steps.{IsOver}
use zio_benchmarks.Sleep.Photon.Runs.{terminating, main_waits, sleepers_end}

abbrev two : Options
two = record { tasks = 2; sleep_ms = 5 }

abbrev everyone : List ℕ
everyone = 0 ∷ 1 ∷ 2 ∷ []

Covers-everyone : Covers (terminating counting two) everyone
Covers-everyone zero h = inl refl
Covers-everyone (suc zero) h = inr (inl refl)
Covers-everyone (suc (suc zero)) h = inr (inr (inl refl))
Covers-everyone (suc (suc (suc k))) h = absurd (omega arith)

abbrev all_then_main : List ℕ
all_then_main = 2 ∷ 1 ∷ 1 ∷ 0 ∷ 2 ∷ 0 ∷ []

main_ended :
    get_elem? (run (step counting two) (init counting two) all_then_main).threads 0 ≡ some ended
unfolding run step init
main_ended = refl

main_waits_example : All IsOver (run (step counting two) (init counting two) all_then_main).threads
main_waits_example = main_waits counting two all_then_main 0 main_ended

sleepers_end_example :
    All IsOver
      (run (step counting two) (init counting two) (flatten (replicate 5 everyone))).threads
sleepers_end_example =
    sleepers_end counting two (replicate 5 everyone)
      (
        Covers-everyone,
        (Covers-everyone, (Covers-everyone, (Covers-everyone, (Covers-everyone, tt)))),
      )
      (omega arith)

not_tasks : same_prefix 8 (codes "--st") (codes "--tasks=") ≡ false
unfolding same_prefix
not_tasks = refl

not_sleep : same_prefix 11 (codes "--st") (codes "--sleep-ms=") ≡ false
unfolding same_prefix
not_sleep = refl

usage_shown : prepare 0 ((codes "--tasks=3" ∷ []) ++ codes "--st" ∷ []) ≡ exits 2
usage_shown = usage_exits 0 (codes "--st") (codes "--tasks=3" ∷ []) [] not_tasks not_sleep
