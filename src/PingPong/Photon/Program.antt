-- ===== src/PingPong/Photon/Program.antt =====
-- What holds in every state of queue_ping_pong_photon.cpp, and that every step keeps it and leaves
-- fewer steps.
use zio_benchmarks.Photon.{Photon}
use zio_benchmarks.Shared.{
  ℕ, ◌+◌, ◌*◌, ◌^◌, ◌<◌, ◌≡◌, inl, inr, refl, ap, ◌∙◌, Option, none, some, WhenSome, All, All-set,
  All-get_elem?, get_elem?, length, length-set, total, total-set, arith, Option-cases,
}
use zio_benchmarks.Shared.Words.{u64}
use zio_benchmarks.PingPong.{at_least_one, per_pair}
use zio_benchmarks.PingPong.Split.{per_pair-le}
use zio_benchmarks.PingPong.Photon.{
  Side, first, second, Main, awaiting, ended, Coroutine, main, task, Pair, Moved, State, proceed,
  as_first, as_second, pair_step, put_pair, pass, main_step, step,
}
use zio_benchmarks.PingPong.Photon.Phases.{Turn, swap, is_gone, steps_left}
use zio_benchmarks.PingPong.Photon.Moves.{Follows}
use zio_benchmarks.PingPong.Photon.Steps.{proceed-Follows}

module _ (Ph : Photon) where
  abbrev pub pair_gone : Pair Ph → ℕ
  pair_gone p = is_gone p.a.task + is_gone p.b.task

  abbrev pub PairInv : ℕ → Pair Ph → Type 0
  PairInv limit p = Turn Ph limit p.a p.b p.log

  abbrev pub pair_measure : ℕ → Pair Ph → ℕ
  pair_measure limit p = steps_left limit p.log p.a.task p.b.task

-- What `main` has taken from `done`.
abbrev pub taken : ℕ → Main → ℕ
taken n awaiting = 0
taken n ended = 2 * n

abbrev pub main_steps : Main → ℕ
main_steps awaiting = 1
main_steps ended = 0

module _ (Ph : Photon) (limit : ℕ) (fits : limit + 2 < 2 ^ 64) where
  open Ph use {Sem, count}

  -- A step of a pair keeps its turns, counts those who have signalled, and leaves fewer steps.
  abbrev pub PairKept : Sem → Pair Ph → Option (Sem × Pair Ph) → Type 0
  PairKept done p = WhenSome (λ r.
      PairInv Ph limit r.1
      × (count r.0 + pair_gone Ph p ≡ count done + pair_gone Ph r.1)
      × (pair_measure Ph limit r.1 < pair_measure Ph limit p))

  first-PairKept :
      (done : Sem) (p : Pair Ph) (r : Option (Moved Ph))
      → Follows Ph limit fits p.a p.b p.log done r
      → PairKept done p (as_first Ph r)
  first-PairKept done p none h = tt
  first-PairKept done p (some m) h = (h.0, omega (arith, h.1), h.2)

  second-PairKept :
      (done : Sem) (p : Pair Ph) (r : Option (Moved Ph))
      → Follows Ph limit fits p.b p.a p.log done r
      → PairKept done p (as_second Ph r)
  second-PairKept done p none h = tt
  second-PairKept done p (some m) h = (swap Ph h.0, omega (arith, h.1), omega (arith, h.2))

  pub pair_step-PairKept :
      (done : Sem) (p : Pair Ph) (side : Side)
      → PairInv Ph limit p
      → PairKept done p (pair_step Ph limit done p side)
  unfolding pair_step
  pair_step-PairKept done p first inv =
      first-PairKept done p (proceed Ph limit p.a p.b p.log done p.a.task)
        (proceed-Follows Ph limit fits p.a p.b p.log done inv)
  pair_step-PairKept done p second inv =
      second-PairKept done p (proceed Ph limit p.b p.a p.log done p.b.task)
        (proceed-Follows Ph limit fits p.b p.a p.log done (swap Ph inv))

module _ (Ph : Photon) (pairs : ℕ) where
  open Ph use {Sem, count, wait, wait_done}

  abbrev pub copies : ℕ
  copies = at_least_one pairs

  abbrev pub limit_of : ℕ
  limit_of = per_pair copies

  pub limit-fits : limit_of + 2 < 2 ^ 64
  limit-fits = omega (arith, per_pair-le copies)

  pub record Inv (s : State Ph) : Type 0 where
    pub turns : All (PairInv Ph limit_of) s.pairs
    pub size : length s.pairs ≡ copies
    pub counted : count s.done + taken copies s.main ≡ total (pair_gone Ph) s.pairs

  abbrev pub measure : State Ph → ℕ
  measure s = total (pair_measure Ph limit_of) s.pairs + main_steps s.main

  abbrev pub Advances : State Ph → Option (State Ph) → Type 0
  Advances s = WhenSome (λ t. Inv t × (measure t < measure s))

  put_pair-Advances :
      (s : State Ph) (i : ℕ) (p : Pair Ph) (r : Option (Sem × Pair Ph))
      → Inv s
      → get_elem? s.pairs i ≡ some p
      → PairKept Ph limit_of limit-fits s.done p r
      → Advances s (put_pair Ph s i r)
  put_pair-Advances s i p none inv at h = tt
  put_pair-Advances s i p (some (d, q)) inv at h = (
    record {
      turns = All-set (PairInv Ph limit_of) s.pairs i q inv.turns h.0;
      size = length-set s.pairs i q ∙ inv.size;
      counted = omega (arith, inv.counted, h.1, total-set (pair_gone Ph) s.pairs i p q at);
    },
    omega (arith, h.2, total-set (pair_measure Ph limit_of) s.pairs i p q at),
  )

  module _ (few : 2 * copies < 2 ^ 64) where
    pass-Advances :
        (s : State Ph) (r : Option Sem)
        → wait (u64 (2 * copies)) s.done ≡ r
        → Inv s
        → s.main ≡ awaiting
        → Advances s (pass Ph s r)
    pass-Advances s none law inv at = tt
    pass-Advances s (some d) law inv at = (
      record {
        turns = inv.turns;
        size = inv.size;
        counted = omega (
          arith,
          inv.counted,
          wait_done (u64 (2 * copies)) s.done d law,
          few,
          ap (taken copies) at,
        );
      },
      omega (arith, ap main_steps at),
    )

    main-Advances :
        (s : State Ph) (m : Main) → Inv s → s.main ≡ m → Advances s (main_step Ph copies s m)
    unfolding main_step
    main-Advances s awaiting inv at = pass-Advances s (wait (u64 (2 * copies)) s.done) refl inv at
    main-Advances s ended inv at = tt

    pub step-Advances : (s : State Ph) (k : Coroutine) → Inv s → Advances s (step Ph pairs s k)
    unfolding step
    step-Advances s main inv = main-Advances s s.main inv refl
    step-Advances s (task i side) inv = elim (Option-cases (get_elem? s.pairs i)) [
      | inl out ↦ rw (out, step) tt
      | inr (p, at) ↦
          rw (at, step)
            (put_pair-Advances s i p (pair_step Ph limit_of s.done p side) inv at (
              pair_step-PairKept Ph limit_of limit-fits s.done p side
                (All-get_elem? (PairInv Ph limit_of) s.pairs i inv.turns at)))
    ]
