-- ===== src/Sleep/Photon/Runs.antt =====
-- Whole runs of sleep_photon.cpp: `main` passes once every sleeper has signalled, and not before.
use mathlib.Core.List.{flatten}
use native.Mathlib.Decide.{dec_lt}
use zio_benchmarks.Photon.{Photon}
use zio_benchmarks.Schedule.{run, Terminating, CanStep}
use zio_benchmarks.Schedule.Fair.{Covers, run-Inv, rounds_finish}
use zio_benchmarks.Shared.Words.{u64}
use zio_benchmarks.Shared.{
  ℕ, zero, suc, ◌+◌, ◌*◌, ◌<◌, ◌≤◌, ◌≡◌, ◌⊎◌, refl, inl, inr, List, Option, none, some, get_elem?,
  set, ltb, All, All-get_elem?, WhenSome, total, le-total, length, replicate, length-replicate,
  arith, find_positive, get_elem?-lt_length, Bool-cases, Option-cases,
}
use zio_benchmarks.Sleep.{Options}
use zio_benchmarks.Sleep.Photon.{
  Thread, starting, sleeping, finished, awaiting, ended, State, pass_main, thread_step, step, init,
}
use zio_benchmarks.Sleep.Photon.Steps.{
  is_open, is_awaiting, is_ended, taken, steps_left, IsOver, All-IsOver, not_taken, Inv, measure,
  step-Advances,
}

module _ (Ph : Photon) {o : Options} {s : State Ph} (inv : Inv Ph o s) where
  open Ph use {Sem, count, wait, wait_blocked}

  pub ended_last : (k : ℕ) → get_elem? s.threads k ≡ some ended → All IsOver s.threads
  ended_last k at =
      All-IsOver s.threads
        (omega (arith, inv.unsignalled, le-total (taken o.tasks) s.threads k ended at))
        (omega (arith, inv.one_main, le-total is_ended s.threads k ended at))

  pass-some :
      o.tasks ≤ count s.done
      → (r : Option Sem) → wait o.tasks s.done ≡ r
      → (a : Sem × Thread) × (pass_main Ph r ≡ some a)
  pass-some enough none law = absurd (omega (arith, wait_blocked o.tasks s.done law))
  pass-some enough (some d) law = (_, refl)

  -- A sleeper can always go on, and so can `main` once there is none.
  going-some :
      (k : ℕ) (t : Thread)
      → get_elem? s.threads k ≡ some t
      → 0 < steps_left t
      → (0 < is_open t) ⊎ (total is_open s.threads ≡ 0)
      → (a : Sem × Thread) × (thread_step Ph o s.done t ≡ some a)
  unfolding thread_step
  going-some k starting at h why = elim (Bool-cases (ltb 0 o.sleep_ms)) [
    | inl sleeps ↦ ((s.done, sleeping (u64 (o.sleep_ms * 1000))), rw (sleeps, thread_step))
    | inr straight ↦ ((Ph.signal 1 s.done, finished), rw (straight, thread_step))
  ]
  going-some k (sleeping usec) at h why = (_, refl)
  going-some k finished at h why = absurd (omega arith)
  going-some k awaiting at h (inl open_) = absurd (omega arith)
  going-some k awaiting at h (inr none_open) =
      pass-some
        (omega (
          arith,
          inv.unsignalled,
          none_open,
          not_taken o.tasks s.threads
              (omega (arith, inv.one_main, le-total is_awaiting s.threads k awaiting at)),
        ))
        _ refl
  going-some k ended at h why = absurd (omega arith)

  going_can :
      (k : ℕ) (t : Thread)
      → get_elem? s.threads k ≡ some t
      → 0 < steps_left t
      → (0 < is_open t) ⊎ (total is_open s.threads ≡ 0)
      → (l : ℕ) × (l < o.tasks + 1) × CanStep (step Ph o) s l
  unfolding step
  going_can k t at h why =
      let ((d, u), e) = going-some k t at h why in
      (
        k,
        omega (arith, get_elem?-lt_length s.threads k at, inv.all_threads),
        (record { done = d; threads = set s.threads k u }, rw (at, step, e)),
      )

  pub progress : All IsOver s.threads ⊎ ((k : ℕ) × (k < o.tasks + 1) × CanStep (step Ph o) s k)
  progress = elim (dec_lt 0 (total is_open s.threads)) [
    | yes p ↦
        let (k, t, at, h) = find_positive is_open s.threads p in
        inr (going_can k t at (open_waits t h) (inl h))
    | no p ↦ elim (dec_lt 0 (total is_awaiting s.threads)) [
      | no q ↦ inl (All-IsOver s.threads (omega arith) (omega arith))
      | yes q ↦
          let (k, t, at, h) = find_positive is_awaiting s.threads q in
          inr (going_can k t at (main_waits t h) (inr (omega arith)))
    ]
  ]
    where
      open_waits : (t : Thread) → 0 < is_open t → 0 < steps_left t
      open_waits starting h = omega arith
      open_waits (sleeping usec) h = omega arith
      open_waits finished h = absurd (omega arith)
      open_waits awaiting h = absurd (omega arith)
      open_waits ended h = absurd (omega arith)

      main_waits : (t : Thread) → 0 < is_awaiting t → 0 < steps_left t
      main_waits starting h = absurd (omega arith)
      main_waits (sleeping usec) h = absurd (omega arith)
      main_waits finished h = absurd (omega arith)
      main_waits awaiting h = omega arith
      main_waits ended h = absurd (omega arith)

module _ (Ph : Photon) (o : Options) where
  open Ph use {Sem, count, count-make}

  over_blocked : (d : Sem) (t : Thread) → IsOver t → thread_step Ph o d t ≡ none
  unfolding thread_step
  over_blocked d starting h = absurd h
  over_blocked d (sleeping usec) h = absurd h
  over_blocked d finished h = refl
  over_blocked d awaiting h = absurd h
  over_blocked d ended h = refl

  pub over_stays : (s : State Ph) (k : ℕ) → All IsOver s.threads → step Ph o s k ≡ none
  unfolding step
  over_stays s k over = elim (Option-cases (get_elem? s.threads k)) [
    | inl out ↦ rw (out, step)
    | inr (t, at) ↦ rw (at, step, over_blocked s.done t (All-get_elem? IsOver s.threads k over at))
  ]

  pub kept :
      (s : State Ph) (r : Option (State Ph))
      → WhenSome (λ t. Inv Ph o t × (measure Ph o t < measure Ph o s)) r
      → WhenSome (Inv Ph o) r × WhenSome (λ t. measure Ph o t < measure Ph o s) r
  kept s none h = (tt, tt)
  kept s (some t) h = h

  new_sleepers :
      (n : ℕ)
      → (total is_open (replicate n starting) ≡ n)
        × (total is_awaiting (replicate n starting) ≡ 0)
        × (total is_ended (replicate n starting) ≡ 0)
        × (total (taken o.tasks) (replicate n starting) ≡ 0)
        × (total steps_left (replicate n starting) ≡ 2 * n)
  new_sleepers zero = omega arith
  new_sleepers (suc n) = omega (arith, new_sleepers n)

  init-Inv : Inv Ph o (init Ph o)
  unfolding init
  init-Inv = record {
    unsignalled = omega (arith, new_sleepers o.tasks, count-make 0);
    one_main = omega (arith, new_sleepers o.tasks);
    all_threads = omega (arith, length-replicate o.tasks starting);
  }

  measure-init : measure Ph o (init Ph o) ≡ 2 * o.tasks + 1
  unfolding init
  measure-init = omega (arith, new_sleepers o.tasks)

  abbrev pub terminating : Terminating (step Ph o)
  terminating = record {
    Inv = Inv Ph o;
    Done = λ s. All IsOver s.threads;
    Member = λ k. k < o.tasks + 1;
    measure = measure Ph o;
    keeps = λ s k inv. (kept s (step Ph o s k) (step-Advances Ph inv k)).0;
    lowers = λ s k inv. (kept s (step Ph o s k) (step-Advances Ph inv k)).1;
    progress = λ s inv. progress Ph inv;
    stays = over_stays;
  }

  -- `main` does not pass before every sleeper has signalled: after any schedule, once `main` has
  -- ended, so has every thread.
  pub main_waits :
      (ks : List ℕ) (k : ℕ)
      → get_elem? (run (step Ph o) (init Ph o) ks).threads k ≡ some ended
      → All IsOver (run (step Ph o) (init Ph o) ks).threads
  main_waits ks k at = ended_last Ph (run-Inv terminating (init Ph o) ks init-Inv) k at

  -- A schedule that goes through all the threads at least 2 * tasks + 1 times, in any order each time,
  -- ends with every sleeper and `main` returned.
  pub sleepers_end :
      (rounds : List (List ℕ))
      → All (Covers terminating) rounds
      → 2 * o.tasks + 1 ≤ length rounds
      → All IsOver (run (step Ph o) (init Ph o) (flatten rounds)).threads
  sleepers_end rounds cover enough =
      rounds_finish terminating (init Ph o) rounds init-Inv cover (omega (arith, measure-init))
