-- ===== src/Sleep/Asio/Tests.antt =====
-- Small runs of sleep_asio.cpp.
use mathlib.Core.List.{flatten}
use zio_benchmarks.Argv.{parsed}
use zio_benchmarks.Schedule.{run}
use zio_benchmarks.Schedule.Fair.{Covers}
use zio_benchmarks.Shared.{
  ℕ, zero, suc, ◌^◌, ◌<◌, ◌≡◌, ◌↔◌, ◌⊎◌, inl, inr, refl, false, List, [], ◌∷◌, replicate, arith,
}
use zio_benchmarks.Sleep.{Options}
use zio_benchmarks.Sleep.Asio.{IsJoined, step, init, exit_code}
use zio_benchmarks.Sleep.Asio.Args.{parse_args, print_options, parse_args-print_options}
use zio_benchmarks.Sleep.Asio.Runs.{terminating, exit_code-IsJoined, fair_sleep_ends}

abbrev two_tasks : Options
two_tasks = record { tasks = 2; sleep_ms = 5 }

two_fit : two_tasks.tasks < 2 ^ 64
two_fit = omega arith

abbrev both : List ℕ
both = 0 ∷ 1 ∷ []

Covers-both : Covers (terminating two_tasks two_fit) both
Covers-both zero h = inl refl
Covers-both (suc zero) h = inr (inl refl)
Covers-both (suc (suc k)) h = absurd (omega arith)

exit_code-IsJoined_example :
    let s = run (step two_tasks) (init two_tasks) (0 ∷ 1 ∷ 0 ∷ []) in
    ((exit_code two_tasks s ≡ 0) ↔ IsJoined s)
    × ((exit_code two_tasks s ≡ 0) ⊎ (exit_code two_tasks s ≡ 3))
exit_code-IsJoined_example = exit_code-IsJoined two_tasks two_fit (0 ∷ 1 ∷ 0 ∷ [])

fair_sleep_ends_example :
    let s = run (step two_tasks) (init two_tasks) (flatten (replicate 4 both)) in
    IsJoined s × (exit_code two_tasks s ≡ 0)
fair_sleep_ends_example =
    fair_sleep_ends two_tasks two_fit (replicate 4 both)
      (Covers-both, (Covers-both, (Covers-both, (Covers-both, tt)))) (omega arith)

two_sleep_fit : two_tasks.sleep_ms < 2 ^ 64
two_sleep_fit = omega arith

asked_options :
    parse_args (print_options two_tasks) ≡ parsed (record { st = false; options = two_tasks })
asked_options = parse_args-print_options two_tasks two_fit two_sleep_fit
