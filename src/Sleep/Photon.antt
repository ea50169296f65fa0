-- ===== src/Sleep/Photon.antt =====
-- sleep_photon.cpp: each thread sleeps and signals the semaphore `done`, on which `main` waits. A
-- schedule says in which order the threads start and wake up.
mod Steps
mod Runs
mod Args
mod Tests
use zio_benchmarks.Photon.{Photon}
use zio_benchmarks.Shared.{
  ℕ, ◌*◌, List, ◌∷◌, Option, none, some, get_elem?, set, replicate, ltb, if◌then◌else◌,
}
use zio_benchmarks.Shared.Words.{u64}
use zio_benchmarks.Sleep.{Options}

-- A sleeper, with the microseconds that it sleeps, or `main`.
pub data Thread : Type 0 where
  starting : Thread
  sleeping : ℕ → Thread
  finished : Thread
  awaiting : Thread
  ended : Thread

module _ (Ph : Photon) where
  open Ph use {Sem, make, wait, signal}

  pub record State : Type 0 where
    pub done : Sem
    pub threads : List Thread

  abbrev pub pass_main : Option Sem → Option (Sem × Thread)
  pass_main none = none
  pass_main (some done) = some (done, ended)

  -- `sleeper`, and the end of `main`.
  unfoldable pub thread_step : Options → Sem → Thread → Option (Sem × Thread)
  thread_step o done starting =
      if ltb 0 o.sleep_ms
      then some (done, sleeping (u64 (o.sleep_ms * 1000)))
      else some (signal 1 done, finished)
  thread_step o done (sleeping usec) = some (signal 1 done, finished)
  thread_step o done finished = none
  thread_step o done awaiting = pass_main (wait o.tasks done)
  thread_step o done ended = none

  abbrev pub put_thread : State → ℕ → Option (Sem × Thread) → Option State
  put_thread s k none = none
  put_thread s k (some (d, t)) = some (record { done = d; threads = set s.threads k t })

  unfoldable pub step : Options → State → ℕ → Option State
  unfolding thread_step
  step o s k = elim (get_elem? s.threads k) [
    | none ↦ none
    | some t ↦ put_thread s k (thread_step o s.done t)
  ]

  unfoldable pub init : Options → State
  init o = record { done = make 0; threads = awaiting ∷ replicate o.tasks starting }
