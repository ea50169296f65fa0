-- ===== src/PingPong/Asio/Runs.antt =====
-- Whole runs of queue_ping_pong.cpp: any number of pairs side by side.
use mathlib.Core.List.{flatten}
use zio_benchmarks.Channel.{Channel}
use zio_benchmarks.Schedule.{run, Terminating, CanStep}
use zio_benchmarks.Schedule.Fair.{Covers, run-Inv, rounds_finish}
use zio_benchmarks.Schedule.Many.{many_terminating}
use zio_benchmarks.Shared.{
  ℕ, ◌+◌, ◌*◌, ◌^◌, ◌<◌, ◌≤◌, ◌≡◌, ◌⊎◌, inl, inr, refl, ap, ◌∙◌, List, [], ◌∷◌, Option, none, some,
  WhenSome, All, All-replicate, length, length-replicate, arith,
}
use zio_benchmarks.PingPong.{upto, at_least_one, per_pair}
use zio_benchmarks.PingPong.Split.{per_pair-fits, per_pair-positive, total-replicate}
use zio_benchmarks.PingPong.Asio.{
  Pair, Moved, Side, task_a, task_b, proceed, as_a, as_b, pair_step, new_pair, IsFinished, init,
  step,
}
use zio_benchmarks.PingPong.Asio.Phases.{
  opening, holding, arriving, ending, closed, over, Turn, swap, steps_left,
}
use zio_benchmarks.PingPong.Asio.Moves.{Follows, proceed-Follows}
use zio_benchmarks.PingPong.Asio.Progress.{Turn-goes}

module _ (C : Channel) (limit : ℕ) where
  open C use {Chan, buffered}

  abbrev pub PairInv : Pair Chan → Type 0
  PairInv p = Turn C limit p.a p.b p.log

  abbrev pub pair_measure : Pair Chan → ℕ
  pair_measure p = steps_left limit p.log p.a.task p.b.task

  -- Both tasks have returned, and every message went over, in order.
  abbrev pub IsComplete : Pair Chan → Type 0
  IsComplete p =
      IsFinished p × (p.log ≡ upto limit) × (buffered p.a.out ≡ []) × (buffered p.b.out ≡ [])

  complete : (p : Pair Chan) → PairInv p → IsFinished p → IsComplete p
  complete p (inl (opening at wait cx cy none_yet)) fin = cc (fin.0, at)
  complete p (inl (holding w at wait cx cy below all)) fin = cc (fin.0, at)
  complete p (inl (arriving w at wait cx cy below all)) fin = cc (fin.0, at)
  complete p (inl (ending at wait cx cy all)) fin = cc (fin.0, at)
  complete p (inl (closed at wait none_there shut none_here all)) fin = cc (fin.1, wait)
  complete p (inl (over at gone none_there none_here all)) fin = (fin, all, none_there, none_here)
  complete p (inr (opening at wait cx cy none_yet)) fin = cc (fin.1, at)
  complete p (inr (holding w at wait cx cy below all)) fin = cc (fin.1, at)
  complete p (inr (arriving w at wait cx cy below all)) fin = cc (fin.1, at)
  complete p (inr (ending at wait cx cy all)) fin = cc (fin.1, at)
  complete p (inr (closed at wait none_there shut none_here all)) fin = cc (fin.0, wait)
  complete p (inr (over at gone none_there none_here all)) fin = (fin, all, none_here, none_there)

  pub IsComplete-pairs :
      (ps : List (Pair Chan)) → All PairInv ps → All IsFinished ps → All IsComplete ps
  IsComplete-pairs [] inv fin = tt
  IsComplete-pairs (p ∷ ps) inv fin = (complete p inv.0 fin.0, IsComplete-pairs ps inv.1 fin.1)

  pub finished_stays : (p : Pair Chan) (k : Side) → IsFinished p → pair_step C limit p k ≡ none
  unfolding pair_step proceed
  finished_stays p task_a fin = rw (fin.0, proceed)
  finished_stays p task_b fin = rw (fin.1, proceed)

  pub pair_progress :
      (p : Pair Chan)
      → PairInv p
      → IsFinished p ⊎ ((k : Side) × Unit {0} × CanStep (pair_step C limit) p k)
  unfolding pair_step
  pair_progress p inv = elim (Turn-goes C limit p.a p.b p.log inv) [
    | inl both ↦ inl both
    | inr (inl (m, e)) ↦
        inr (task_a, tt, (record { a = m.mine; b = m.theirs; log = m.log }, ap (as_a C) e))
    | inr (inr (m, e)) ↦
        inr (task_b, tt, (record { a = m.theirs; b = m.mine; log = m.log }, ap (as_b C) e))
  ]

module _ (C : Channel) (limit : ℕ) (fits : limit < 2 ^ 64) (some_message : 0 < limit) where
  open C use {Chan}

  as_a-kept :
      (p : Pair Chan) (r : Option (Moved Chan))
      → Follows C limit fits some_message p.a p.b p.log r
      → WhenSome (PairInv C limit) (as_a C r)
        × WhenSome (λ q. pair_measure C limit q < pair_measure C limit p) (as_a C r)
  as_a-kept p none h = (tt, tt)
  as_a-kept p (some m) h = h

  as_b-kept :
      (p : Pair Chan) (r : Option (Moved Chan))
      → Follows C limit fits some_message p.b p.a p.log r
      → WhenSome (PairInv C limit) (as_b C r)
        × WhenSome (λ q. pair_measure C limit q < pair_measure C limit p) (as_b C r)
  as_b-kept p none h = (tt, tt)
  as_b-kept p (some m) h = (swap C h.0, omega (arith, h.1))

  pub pair_kept :
      (p : Pair Chan) (k : Side)
      → PairInv C limit p
      → WhenSome (PairInv C limit) (pair_step C limit p k)
        × WhenSome (λ q. pair_measure C limit q < pair_measure C limit p) (pair_step C limit p k)
  unfolding pair_step
  pair_kept p task_a inv =
      as_a-kept p (proceed C limit p.a p.b p.log p.a.task)
        (proceed-Follows C limit fits some_message p.a p.b p.log inv)
  pair_kept p task_b inv =
      as_b-kept p (proceed C limit p.b p.a p.log p.b.task)
        (proceed-Follows C limit fits some_message p.b p.a p.log (swap C inv))

  abbrev pub pair_terminating : Terminating (pair_step C limit)
  pair_terminating = record {
    Inv = PairInv C limit;
    Done = IsFinished;
    Member = λ k. Unit;
    measure = pair_measure C limit;
    keeps = λ p k inv. (pair_kept p k inv).0;
    lowers = λ p k inv. (pair_kept p k inv).1;
    progress = pair_progress C limit;
    stays = finished_stays C limit;
  }

-- The program: its pairs start, and every pair terminates.
module _ (C : Channel) (pairs : ℕ) where
  open C use {Chan, make_lem}

  abbrev pub copies : ℕ
  copies = at_least_one pairs

  abbrev pub limit_of : ℕ
  limit_of = per_pair copies

  abbrev pub terminating : Terminating (step C pairs)
  terminating =
      many_terminating
        (pair_terminating C limit_of (per_pair-fits copies) (per_pair-positive copies)) copies

  new-PairInv : PairInv C limit_of (new_pair C)
  unfolding new_pair
  new-PairInv = inl (opening refl refl (make_lem 1) (make_lem 1) refl)

  pub init-Inv : terminating.Inv (init C pairs)
  unfolding init
  init-Inv = (
    All-replicate (PairInv C limit_of) copies (new_pair C) new-PairInv,
    length-replicate copies (new_pair C),
  )

  new_measure : pair_measure C limit_of (new_pair C) ≡ 2 * limit_of + 3
  unfolding new_pair
  new_measure = omega arith

  measure-init : terminating.measure (init C pairs) ≡ copies * (2 * limit_of + 3)
  unfolding init new_pair
  measure-init =
      total-replicate (pair_measure C limit_of) copies (new_pair C)
      ∙ ap (λ m. copies * m) new_measure

  -- If a schedule goes through both tasks of all the pairs at least pairs * (2 * per_pair + 3) times, in
  -- any order each time, then every pair ends: its tasks have returned, its messages are
  -- 0, 1, ..., per_pair - 1, in order, and its channels are empty.
  pub pairs_finish :
      (rounds : List (List (ℕ × Side)))
      → All (Covers terminating) rounds
      → copies * (2 * limit_of + 3) ≤ length rounds
      → let ps = run (step C pairs) (init C pairs) (flatten rounds) in
        (length ps ≡ copies) × All (IsComplete C limit_of) ps
  pairs_finish rounds cover enough =
      let inv = run-Inv terminating (init C pairs) (flatten rounds) init-Inv in
      (
        inv.1,
        IsComplete-pairs C limit_of _ inv.0 (
            rounds_finish terminating (init C pairs) rounds init-Inv cover
              (omega (arith, measure-init, enough))),
      )
