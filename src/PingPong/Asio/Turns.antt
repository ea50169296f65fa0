-- ===== src/PingPong/Asio/Turns.antt =====
-- What every state of queue_ping_pong.cpp keeps to, on any schedule.
use zio_benchmarks.Channel.{Channel}
use zio_benchmarks.Schedule.{run}
use zio_benchmarks.Schedule.Fair.{run-Inv}
use zio_benchmarks.Shared.{
  ℕ, suc, ◌≤◌, ◌≡◌, ◌≢◌, ◌⊎◌, inl, inr, ap, List, [], ◌∷◌, none, All, arith,
}
use zio_benchmarks.PingPong.{upto}
use zio_benchmarks.PingPong.Asio.{
  thrown, End, Pair, Side, task_a, task_b, as_a, as_b, pair_step, init, step,
}
use zio_benchmarks.PingPong.Asio.Phases.{Phase, opening, holding, arriving, ending, closed, over}
use zio_benchmarks.PingPong.Asio.Progress.{Turn-Waits}
use zio_benchmarks.PingPong.Asio.Runs.{PairInv, limit_of, terminating, init-Inv}

module _ (C : Channel) (limit : ℕ) where
  open C use {Chan}

  -- The first messages in order, and no exception.
  abbrev InOrder : End Chan → End Chan → List ℕ → Type 0
  InOrder x y log = ((w : ℕ) × (w ≤ limit) × (log ≡ upto w)) × (x.task ≢ thrown) × (y.task ≢ thrown)

  Phase-InOrder : (x y : End Chan) (log : List ℕ) → Phase C limit x y log → InOrder x y log
  Phase-InOrder x y log (opening at wait cx cy none_yet) =
      ((0, omega arith, none_yet), (λ t. cc (t, at)), λ t. cc (t, wait))
  Phase-InOrder x y log (holding w at wait cx cy below all) =
      ((w, omega (arith, below), all), (λ t. cc (t, at)), λ t. cc (t, wait))
  Phase-InOrder x y log (arriving w at wait cx cy below all) =
      ((suc w, below, all), (λ t. cc (t, at)), λ t. cc (t, wait))
  Phase-InOrder x y log (ending at wait cx cy all) =
      ((limit, omega arith, all), (λ t. cc (t, at)), λ t. cc (t, wait))
  Phase-InOrder x y log (closed at wait none_there shut none_here all) =
      ((limit, omega arith, all), (λ t. cc (t, at)), λ t. cc (t, wait))
  Phase-InOrder x y log (over at gone none_there none_here all) =
      ((limit, omega arith, all), (λ t. cc (t, at)), λ t. cc (t, gone))

  -- One task at a time, on the messages in order.
  abbrev pub Alternates : Pair Chan → Type 0
  Alternates p =
      ((w : ℕ) × (w ≤ limit) × (p.log ≡ upto w))
      × ((p.a.task ≢ thrown) × (p.b.task ≢ thrown))
      × ((pair_step C limit p task_a ≡ none) ⊎ (pair_step C limit p task_b ≡ none))

  waits :
      (p : Pair Chan)
      → PairInv C limit p
      → (pair_step C limit p task_a ≡ none) ⊎ (pair_step C limit p task_b ≡ none)
  unfolding pair_step
  waits p inv = elim (Turn-Waits C limit p.a p.b p.log inv) [
    | inl a ↦ inl (ap (as_a C) a)
    | inr b ↦ inr (ap (as_b C) b)
  ]

  in_order : (p : Pair Chan) → PairInv C limit p → InOrder p.a p.b p.log
  in_order p (inl ph) = Phase-InOrder p.a p.b p.log ph
  in_order p (inr ph) = let (m, b, a) = Phase-InOrder p.b p.a p.log ph in (m, a, b)

  alternate : (ps : List (Pair Chan)) → All (PairInv C limit) ps → All Alternates ps
  alternate [] inv = tt
  alternate (p ∷ ps) inv =
      let (m, a, b) = in_order p inv.0 in ((m, (a, b), waits p inv.0), alternate ps inv.1)

-- After any schedule, each pair has sent its first messages 0, 1, 2, ... in order, at most per_pair of
-- them, no task has thrown, and one of its two tasks cannot go on.
pub turns_alternate :
    (C : Channel) (pairs : ℕ) (ks : List (ℕ × Side))
    → All (Alternates C (limit_of C pairs)) (run (step C pairs) (init C pairs) ks)
turns_alternate C pairs ks =
    alternate C (limit_of C pairs) _
      (run-Inv (terminating C pairs) (init C pairs) ks (init-Inv C pairs)).0
