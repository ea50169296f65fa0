-- ===== src/PingPong/Photon/Ending.antt =====
-- How a run of queue_ping_pong_photon.cpp goes on until every coroutine and `main` have ended.
use zio_benchmarks.Photon.{Photon}
use zio_benchmarks.Schedule.{CanStep}
use zio_benchmarks.Shared.{
  ℕ, zero, suc, ◌+◌, ◌*◌, ◌<◌, ◌≤◌, ◌≡◌, ◌⊎◌, inl, inr, refl, ap, List, [], ◌∷◌, Option, none, some,
  All, All-get_elem?, get_elem?, get_elem?-lt_length, set, total, length, arith, Option-cases,
}
use zio_benchmarks.Shared.Words.{u64}
use zio_benchmarks.PingPong.Photon.{
  Task, reserving, storing, filling, fetching, loading, emptying, signing, gone, Side, first,
  second, Main, awaiting, ended, Coroutine, main, task, Pair, State, proceed, as_first, as_second,
  pair_step, pass, main_step, step,
}
use zio_benchmarks.PingPong.Photon.Phases.{is_gone}
use zio_benchmarks.PingPong.Photon.Progress.{Turn-goes}
use zio_benchmarks.PingPong.Photon.Program.{pair_gone, PairInv, taken, copies, limit_of, Inv}

-- Both coroutines of a pair have ended.
abbrev pub IsOver : {Ph : Photon} → Pair Ph → Type 0
IsOver p = (p.a.task ≡ gone) × (p.b.task ≡ gone)

gone_or_not : (t : Task) → ((t ≡ gone) × (is_gone t ≡ 1)) ⊎ (is_gone t ≡ 0)
gone_or_not (reserving v last) = inr refl
gone_or_not (storing v last) = inr refl
gone_or_not (filling last) = inr refl
gone_or_not fetching = inr refl
gone_or_not loading = inr refl
gone_or_not (emptying v) = inr refl
gone_or_not signing = inr refl
gone_or_not gone = inl (refl, refl)

-- At most two of a pair have ended, and two only if both have.
gone_two :
    (t u : Task)
    → (is_gone t + is_gone u < 2) ⊎ ((t ≡ gone) × (u ≡ gone) × (is_gone t + is_gone u ≡ 2))
gone_two t u = elim (gone_or_not t) [
  | inr still ↦ elim (gone_or_not u) [
    | inr also ↦ inl (omega (arith, still, also))
    | inl (at, one) ↦ inl (omega (arith, still, one))
  ]
  | inl (at, one) ↦ elim (gone_or_not u) [
    | inr also ↦ inl (omega (arith, one, also))
    | inl (other, two) ↦ inr (at, other, omega (arith, one, two))
  ]
]

module _ (Ph : Photon) where
  open Ph use {Sem, wait, wait_blocked, count}

  gone-le : (ps : List (Pair Ph)) → total (pair_gone Ph) ps ≤ 2 * length ps
  gone-le [] = omega arith
  gone-le (p ∷ ps) = elim (gone_two p.a.task p.b.task) [
    | inl fewer ↦ omega (arith, fewer, gone-le ps)
    | inr both ↦ omega (arith, both.2, gone-le ps)
  ]

  -- If all have signalled, all are over.
  gone-IsOver : (ps : List (Pair Ph)) → 2 * length ps ≤ total (pair_gone Ph) ps → All IsOver ps
  gone-IsOver [] h = tt
  gone-IsOver (p ∷ ps) h = elim (gone_two p.a.task p.b.task) [
    | inl fewer ↦ absurd (omega (arith, fewer, gone-le ps, h))
    | inr both ↦ ((both.0, both.1), gone-IsOver ps (omega (arith, both.2, h)))
  ]

  IsOver-gone : (ps : List (Pair Ph)) → All IsOver ps → total (pair_gone Ph) ps ≡ 2 * length ps
  IsOver-gone [] over = refl
  IsOver-gone (p ∷ ps) over =
      omega (arith, ap is_gone over.0.0, ap is_gone over.0.1, IsOver-gone ps over.1)

  -- Either every pair is over, or one can go on.
  find_progress :
      (limit : ℕ) (done : Sem) (ps : List (Pair Ph))
      → All (PairInv Ph limit) ps
      → All IsOver ps
        ⊎ ((i : ℕ) × (p : Pair Ph) × (side : Side) × (r : Sem × Pair Ph) × (get_elem? ps i ≡ some p)
            × (pair_step Ph limit done p side ≡ some r))
  unfolding pair_step
  find_progress limit done [] inv = inl tt
  find_progress limit done (p ∷ ps) inv = elim (Turn-goes Ph limit p.a p.b p.log done inv.0) [
    | inr (inl (m, e)) ↦ inr (zero, p, first, _, refl, ap (as_first Ph) e)
    | inr (inr (m, e)) ↦ inr (zero, p, second, _, refl, ap (as_second Ph) e)
    | inl over ↦ elim (find_progress limit done ps inv.1) [
      | inl others ↦ inl (over, others)
      | inr (i, q, side, r, at, e) ↦ inr (suc i, q, side, r, at, e)
    ]
  ]

module _ (Ph : Photon) (pairs : ℕ) where
  open Ph use {Sem, count, wait, wait_blocked, count-make}

  -- Every coroutine and `main` have ended.
  abbrev pub IsAtEnd : State Ph → Type 0
  IsAtEnd s = All IsOver s.pairs × (s.main ≡ ended)

  abbrev pub IsMember : Coroutine → Type 0
  IsMember main = Unit
  IsMember (task i side) = i < copies Ph pairs

  pub ended-IsOver : (s : State Ph) → Inv Ph pairs s → s.main ≡ ended → All IsOver s.pairs
  ended-IsOver s inv at =
      gone-IsOver Ph s.pairs (omega (arith, inv.counted, inv.size, ap (taken (copies Ph pairs)) at))

  pass_goes :
      (s : State Ph) (r : Option Sem)
      → wait (u64 (2 * copies Ph pairs)) s.done ≡ r
      → 2 * copies Ph pairs ≤ count s.done
      → (t : State Ph) × (pass Ph s r ≡ some t)
  pass_goes s none law enough =
      absurd (omega (arith, wait_blocked (u64 (2 * copies Ph pairs)) s.done law, enough))
  pass_goes s (some d) law enough = (_, refl)

  main_goes :
      (s : State Ph) (m : Main)
      → Inv Ph pairs s
      → All IsOver s.pairs
      → s.main ≡ m
      → (s.main ≡ ended) ⊎ ((t : State Ph) × (main_step Ph (copies Ph pairs) s m ≡ some t))
  unfolding main_step
  main_goes s awaiting inv over at = inr (
      pass_goes s (wait (u64 (2 * copies Ph pairs)) s.done) refl (
        omega (
          arith,
          inv.counted,
          inv.size,
          IsOver-gone Ph s.pairs over,
          ap (taken (copies Ph pairs)) at,
        )))
  main_goes s ended inv over at = inl at

  pub progress :
      (s : State Ph)
      → Inv Ph pairs s
      → IsAtEnd s ⊎ ((k : Coroutine) × IsMember k × CanStep (step Ph pairs) s k)
  unfolding step
  progress s inv = elim (find_progress Ph (limit_of Ph pairs) s.done s.pairs inv.turns) [
    | inl over ↦ elim (main_goes s s.main inv over refl) [
      | inl at ↦ inl (over, at)
      | inr (t, e) ↦ inr (main, tt, (t, e))
    ]
    | inr (i, p, side, (d, q), at, e) ↦ inr (
      task i side,
      omega (arith, get_elem?-lt_length s.pairs i at, inv.size),
      (record s { done = d; pairs = set s.pairs i q }, rw (at, step, e)),
    )
  ]

  pub at_end_stays : (s : State Ph) (k : Coroutine) → IsAtEnd s → step Ph pairs s k ≡ none
  unfolding step pair_step main_step proceed
  at_end_stays s main over = rw (over.1, main_step)
  at_end_stays s (task i side) over = elim (Option-cases (get_elem? s.pairs i)) [
    | inl out ↦ rw (out, step)
    | inr (p, at) ↦ rw (at, step, stays_side p side (All-get_elem? IsOver s.pairs i over.0 at))
  ]
    where
      stays_side :
          (p : Pair Ph) (side : Side)
          → IsOver p
          → pair_step Ph (limit_of Ph pairs) s.done p side ≡ none
      stays_side p first both = rw (both.0, proceed)
      stays_side p second both = rw (both.1, proceed)
