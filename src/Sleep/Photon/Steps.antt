-- ===== src/Sleep/Photon/Steps.antt =====
-- What holds in every state of sleep_photon.cpp, and that every step keeps it and uses up work.
use zio_benchmarks.Photon.{Photon}
use zio_benchmarks.Shared.Words.{u64}
use zio_benchmarks.Shared.{
  ℕ, ◌+◌, ◌*◌, ◌<◌, ◌≡◌, refl, ◌∙◌, inl, inr, List, [], ◌∷◌, Option, none, some, get_elem?, set,
  ltb, All, WhenSome, total, total-set, length, length-set, arith, Bool-cases, Option-cases,
}
use zio_benchmarks.Sleep.{Options}
use zio_benchmarks.Sleep.Photon.{
  Thread, starting, sleeping, finished, awaiting, ended, State, pass_main, thread_step, put_thread,
  step,
}

-- 1 for a sleeper that has not signalled.
abbrev pub is_open : Thread → ℕ
is_open starting = 1
is_open (sleeping usec) = 1
is_open finished = 0
is_open awaiting = 0
is_open ended = 0

abbrev pub is_awaiting : Thread → ℕ
is_awaiting starting = 0
is_awaiting (sleeping usec) = 0
is_awaiting finished = 0
is_awaiting awaiting = 1
is_awaiting ended = 0

abbrev pub is_ended : Thread → ℕ
is_ended starting = 0
is_ended (sleeping usec) = 0
is_ended finished = 0
is_ended awaiting = 0
is_ended ended = 1

-- What `main` has taken from `done`.
abbrev pub taken : ℕ → Thread → ℕ
taken tasks starting = 0
taken tasks (sleeping usec) = 0
taken tasks finished = 0
taken tasks awaiting = 0
taken tasks ended = tasks

abbrev pub steps_left : Thread → ℕ
steps_left starting = 2
steps_left (sleeping usec) = 1
steps_left finished = 0
steps_left awaiting = 1
steps_left ended = 0

abbrev pub IsOver : Thread → Type 0
IsOver starting = ⊥
IsOver (sleeping usec) = ⊥
IsOver finished = Unit
IsOver awaiting = ⊥
IsOver ended = Unit

pub All-IsOver :
    (ts : List Thread) → total is_open ts ≡ 0 → total is_awaiting ts ≡ 0 → All IsOver ts
All-IsOver [] h a = tt
All-IsOver (starting ∷ ts) h a = absurd (omega arith)
All-IsOver (sleeping usec ∷ ts) h a = absurd (omega arith)
All-IsOver (finished ∷ ts) h a = (tt, All-IsOver ts (omega arith) (omega arith))
All-IsOver (awaiting ∷ ts) h a = absurd (omega arith)
All-IsOver (ended ∷ ts) h a = (tt, All-IsOver ts (omega arith) (omega arith))

pub not_taken : (tasks : ℕ) (ts : List Thread) → total is_ended ts ≡ 0 → total (taken tasks) ts ≡ 0
not_taken tasks [] h = refl
not_taken tasks (starting ∷ ts) h = omega (arith, not_taken tasks ts (omega arith))
not_taken tasks (sleeping usec ∷ ts) h = omega (arith, not_taken tasks ts (omega arith))
not_taken tasks (finished ∷ ts) h = omega (arith, not_taken tasks ts (omega arith))
not_taken tasks (awaiting ∷ ts) h = omega (arith, not_taken tasks ts (omega arith))
not_taken tasks (ended ∷ ts) h = absurd (omega arith)

module _ (Ph : Photon) (o : Options) where
  open Ph use {count}

  pub record Inv (s : State Ph) : Type 0 where
    pub unsignalled :
        count s.done + total is_open s.threads + total (taken o.tasks) s.threads ≡ o.tasks
    pub one_main : total is_awaiting s.threads + total is_ended s.threads ≡ 1
    pub all_threads : length s.threads ≡ o.tasks + 1

  abbrev pub measure : State Ph → ℕ
  measure s = total steps_left s.threads

module _ (Ph : Photon) {o : Options} {s : State Ph} (inv : Inv Ph o s) (k : ℕ) where
  open Ph use {Sem, count, wait, signal, wait_done, count-signal}

  -- A step that agrees with what the thread counts for keeps the invariant and uses up work.
  advance :
      (d : Sem) (t u : Thread)
      → get_elem? s.threads k ≡ some t
      → count d + is_open u + taken o.tasks u ≡ count s.done + is_open t + taken o.tasks t
      → is_awaiting u + is_ended u ≡ is_awaiting t + is_ended t
      → steps_left u < steps_left t
      → Inv Ph o (record { done = d; threads = set s.threads k u })
        × (total steps_left (set s.threads k u) < total steps_left s.threads)
  advance d t u at same role fewer = (
    record {
      unsignalled = omega (arith, inv.unsignalled, same, moved is_open, moved (taken o.tasks));
      one_main = omega (arith, inv.one_main, role, moved is_awaiting, moved is_ended);
      all_threads = length-set s.threads k u ∙ inv.all_threads;
    },
    omega (arith, fewer, moved steps_left),
  )
    where
      moved : (w : Thread → ℕ) → total w (set s.threads k u) + w t ≡ total w s.threads + w u
      moved w = total-set w s.threads k t u at

  abbrev pub Advances : Option (State Ph) → Type 0
  Advances = WhenSome (λ t. Inv Ph o t × (measure Ph o t < measure Ph o s))

  main-Advances :
      get_elem? s.threads k ≡ some awaiting
      → (r : Option Sem) → wait o.tasks s.done ≡ r
      → Advances (put_thread Ph s k (pass_main Ph r))
  main-Advances at none law = tt
  main-Advances at (some d) law =
      advance d awaiting ended at (omega (arith, wait_done o.tasks s.done d law)) refl (omega arith)

  thread-Advances :
      (t : Thread)
      → get_elem? s.threads k ≡ some t
      → Advances (put_thread Ph s k (thread_step Ph o s.done t))
  unfolding thread_step
  thread-Advances starting at = elim (Bool-cases (ltb 0 o.sleep_ms)) [
    | inl sleeps ↦
        rw sleeps
          (advance s.done starting (sleeping (u64 (o.sleep_ms * 1000))) at refl refl (omega arith))
    | inr straight ↦ rw straight (
        advance (signal 1 s.done) starting finished at (omega (arith, count-signal 1 s.done)) refl
          (omega arith))
  ]
  thread-Advances (sleeping usec) at =
      advance (signal 1 s.done) (sleeping usec) finished at (omega (arith, count-signal 1 s.done))
        refl (omega arith)
  thread-Advances finished at = tt
  thread-Advances awaiting at = main-Advances at _ refl
  thread-Advances ended at = tt

  pub step-Advances : Advances (step Ph o s k)
  unfolding step
  step-Advances = elim (Option-cases (get_elem? s.threads k)) [
    | inl out ↦ rw (out, step) tt
    | inr (t, at) ↦ rw (at, step) (thread-Advances t at)
  ]
