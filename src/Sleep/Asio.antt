-- ===== src/Sleep/Asio.antt =====
-- sleep_asio.cpp: each task waits for a timer and adds 1 to an atomic counter, which `main` tests when
-- all have ended. A schedule says in which order the tasks start and their timers fire.
mod Steps
mod Runs
mod Args
mod Tests
use zio_benchmarks.Shared.{
  ℕ, ◌+◌, ◌≡◌, List, Option, none, some, get_elem?, set, replicate, All, ltb, ◌==◌, if◌then◌else◌,
}
use zio_benchmarks.Shared.Words.{u64}
use zio_benchmarks.Sleep.{Options}

pub data Task : Type 0 where
  starting : Task
  sleeping : Task
  finished : Task

pub record State : Type 0 where
  pub counter : ℕ
  pub tasks : List Task

-- `sleep_task` up to its timer, and from there to its end.
unfoldable pub sleep_task : ℕ → ℕ → Task → Option (ℕ × Task)
sleep_task sleep_ms counter starting =
    if ltb 0 sleep_ms then some (counter, sleeping) else some (u64 (counter + 1), finished)
sleep_task sleep_ms counter sleeping = some (u64 (counter + 1), finished)
sleep_task sleep_ms counter finished = none

abbrev pub put_task : State → ℕ → Option (ℕ × Task) → Option State
put_task s k none = none
put_task s k (some (n, t)) = some (record { counter = n; tasks = set s.tasks k t })

unfoldable pub step : Options → State → ℕ → Option State
unfolding sleep_task
step o s k = elim (get_elem? s.tasks k) [
  | none ↦ none
  | some t ↦ put_task s k (sleep_task o.sleep_ms s.counter t)
]

unfoldable pub init : Options → State
init o = record { counter = 0; tasks = replicate o.tasks starting }

-- What `pool.join()` waits for.
abbrev pub IsJoined : State → Type 0
IsJoined s = All (λ t. t ≡ finished) s.tasks

-- What `main` returns.
unfoldable pub exit_code : Options → State → ℕ
exit_code o s = if s.counter == o.tasks then 0 else 3
