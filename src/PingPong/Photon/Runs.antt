-- ===== src/PingPong/Photon/Runs.antt =====
-- Whole runs of queue_ping_pong_photon.cpp: any number of pairs side by side, and `main`.
use mathlib.Core.List.{flatten}
use zio_benchmarks.Photon.{Photon}
use zio_benchmarks.Schedule.{run, Terminating}
use zio_benchmarks.Schedule.Fair.{Covers, run-Inv, rounds_finish}
use zio_benchmarks.Shared.{
  ℕ, ◌+◌, ◌*◌, ◌^◌, ◌<◌, ◌≤◌, ◌≡◌, ◌⊎◌, inl, inr, refl, sym, ap, ◌∙◌, List, [], ◌∷◌, Option, none,
  some, WhenSome, All, All-replicate, length, length-replicate, arith, leb, false,
}
use zio_benchmarks.PingPong.{upto}
use zio_benchmarks.PingPong.Split.{per_pair-positive, total-replicate}
use zio_benchmarks.PingPong.Photon.{
  reserving, Main, awaiting, ended, Coroutine, Pair, State, step, init, new_pair, new_slot,
}
use zio_benchmarks.PingPong.Photon.Phases.{reserve}
use zio_benchmarks.PingPong.Photon.Progress.{
  IsAccessing, IsOrdered, Turn-over, Turn-apart, Turn-IsOrdered,
}
use zio_benchmarks.PingPong.Photon.Program.{
  pair_gone, PairInv, pair_measure, copies, limit_of, Inv, measure, Advances, step-Advances,
}
use zio_benchmarks.PingPong.Photon.Ending.{
  IsOver, IsAtEnd, IsMember, ended-IsOver, progress, at_end_stays,
}

main_state : (m : Main) → (m ≡ awaiting) ⊎ (m ≡ ended)
main_state awaiting = inl refl
main_state ended = inr refl

module _ (Ph : Photon) (limit : ℕ) where
  -- Both coroutines have ended, and the messages went over in order, two more than `limit`.
  abbrev pub IsComplete : Pair Ph → Type 0
  IsComplete p = IsOver p × (p.log ≡ upto (limit + 2))

  pub IsComplete-pairs :
      (ps : List (Pair Ph)) → All (PairInv Ph limit) ps → All IsOver ps → All IsComplete ps
  IsComplete-pairs [] inv over = tt
  IsComplete-pairs (p ∷ ps) inv over = (
    (over.0, Turn-over Ph limit p.a p.b p.log inv.0 over.0.0 over.0.1),
    IsComplete-pairs ps inv.1 over.1,
  )

  -- The first messages in order, and never are both coroutines at the value of a slot.
  abbrev pub IsOrderly : Pair Ph → Type 0
  IsOrderly p = IsOrdered Ph limit p.log × ¬ (IsAccessing p.a.task × IsAccessing p.b.task)

  pub IsOrderly-pairs : (ps : List (Pair Ph)) → All (PairInv Ph limit) ps → All IsOrderly ps
  IsOrderly-pairs [] inv = tt
  IsOrderly-pairs (p ∷ ps) inv = (
    (
      Turn-IsOrdered Ph limit p.a p.b p.log inv.0,
      (λ both. Turn-apart Ph limit p.a p.b p.log inv.0 both.0 both.1),
    ),
    IsOrderly-pairs ps inv.1,
  )

  new-PairInv : 0 < limit → PairInv Ph limit (new_pair Ph)
  unfolding new_pair new_slot
  new-PairInv some_message = inl (
      inl (
        0,
        reserve (ap (reserving 0) (sym not_last)) clear clear (omega arith) refl,
        inl (refl, omega arith),
      ))
    where
      not_last : leb limit 0 ≡ false
      not_last = ground arith

      clear : (Ph.count (Ph.make 1) ≡ 1) × (Ph.count (Ph.make 0) ≡ 0)
      clear = (Ph.count-make 1, Ph.count-make 0)

module _ (Ph : Photon) (pairs : ℕ) where
  open Ph use {count-make}

  pub kept :
      (s : State Ph) (r : Option (State Ph))
      → Advances Ph pairs s r
      → WhenSome (Inv Ph pairs) r × WhenSome (λ t. measure Ph pairs t < measure Ph pairs s) r
  kept s none h = (tt, tt)
  kept s (some t) h = h

  init-Inv : Inv Ph pairs (init Ph pairs)
  unfolding init new_pair
  init-Inv = record {
    turns =
        All-replicate (PairInv Ph (limit_of Ph pairs)) (copies Ph pairs) (new_pair Ph)
          (new-PairInv Ph (limit_of Ph pairs) (per_pair-positive (copies Ph pairs)));
    size = length-replicate (copies Ph pairs) (new_pair Ph);
    counted =
        omega (arith, count-make 0, total-replicate (pair_gone Ph) (copies Ph pairs) (new_pair Ph));
  }

  new_measure : pair_measure Ph (limit_of Ph pairs) (new_pair Ph) ≡ 6 * limit_of Ph pairs + 19
  unfolding new_pair
  new_measure = omega arith

  measure-init :
      measure Ph pairs (init Ph pairs) ≡ copies Ph pairs * (6 * limit_of Ph pairs + 19) + 1
  unfolding init
  measure-init =
      ap (λ n. n + 1)
        (total-replicate (pair_measure Ph (limit_of Ph pairs)) (copies Ph pairs) (new_pair Ph)
          ∙ ap (λ m. copies Ph pairs * m) new_measure)

  module _ (few : 2 * copies Ph pairs < 2 ^ 64) where
    abbrev pub terminating : Terminating (step Ph pairs)
    terminating = record {
      Inv = Inv Ph pairs;
      Done = IsAtEnd Ph pairs;
      Member = IsMember Ph pairs;
      measure = measure Ph pairs;
      keeps = λ s k inv. (kept s (step Ph pairs s k) (step-Advances Ph pairs few s k inv)).0;
      lowers = λ s k inv. (kept s (step Ph pairs s k) (step-Advances Ph pairs few s k inv)).1;
      progress = progress Ph pairs;
      stays = at_end_stays Ph pairs;
    }

    -- If twice the number of pairs fits 64 bits, a schedule that goes through `main` and all coroutines
    -- at least pairs * (6 * per_pair + 19) + 1 times, in any order each time, ends with `main` and every
    -- coroutine returned, and with the messages 0, 1, ..., per_pair + 1 of each pair sent in order.
    pub photon_pairs_finish :
        (rounds : List (List Coroutine))
        → All (Covers terminating) rounds
        → copies Ph pairs * (6 * limit_of Ph pairs + 19) + 1 ≤ length rounds
        → let s = run (step Ph pairs) (init Ph pairs) (flatten rounds) in
          (s.main ≡ ended)
          × (length s.pairs ≡ copies Ph pairs)
          × All (IsComplete Ph (limit_of Ph pairs)) s.pairs
    photon_pairs_finish rounds cover enough =
        let s = run (step Ph pairs) (init Ph pairs) (flatten rounds) in
        let inv = run-Inv terminating (init Ph pairs) (flatten rounds) init-Inv in
        let over =
          rounds_finish terminating (init Ph pairs) rounds init-Inv cover
            (omega (arith, measure-init, enough)) in
        (over.1, inv.size, IsComplete-pairs Ph (limit_of Ph pairs) s.pairs inv.turns over.0)

    -- If twice the number of pairs fits 64 bits, after any schedule each pair has stored its first
    -- messages 0, 1, 2, ... in order, and its two coroutines are never both about to write or read the
    -- value of a slot. `main` is still in its wait, or both coroutines of every pair have ended, with
    -- the messages 0, 1, ..., per_pair + 1 sent.
    pub slots_exclusive :
        (ks : List Coroutine)
        → let s = run (step Ph pairs) (init Ph pairs) ks in
          All (IsOrderly Ph (limit_of Ph pairs)) s.pairs
          × ((s.main ≡ awaiting) ⊎ All (IsComplete Ph (limit_of Ph pairs)) s.pairs)
    slots_exclusive ks =
        let s = run (step Ph pairs) (init Ph pairs) ks in
        let inv = run-Inv terminating (init Ph pairs) ks init-Inv in
        (
          IsOrderly-pairs Ph (limit_of Ph pairs) s.pairs inv.turns,
          elim (main_state s.main) [
            | inl at ↦ inl at
            | inr at ↦ inr (
                IsComplete-pairs Ph (limit_of Ph pairs) s.pairs inv.turns
                  (ended-IsOver Ph pairs s inv at))
          ],
        )
