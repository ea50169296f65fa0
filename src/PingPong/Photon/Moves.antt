-- ===== src/PingPong/Photon/Moves.antt =====
-- What each coroutine of a pair does in each phase.
use zio_benchmarks.Photon.{Photon}
use zio_benchmarks.Shared.{
  ℕ, suc, ◌+◌, ◌^◌, ◌<◌, ◌≤◌, ◌≡◌, inl, inr, refl, ap, ◌∙◌, Bool, true, false, List, [], ◌∷◌, ◌++◌,
  Option, none, some, WhenSome, length, length-append, arith, leb, Bool-cases, if◌then◌else◌,
}
use zio_benchmarks.Shared.Words.{u64}
use zio_benchmarks.PingPong.{upto}
use zio_benchmarks.PingPong.Split.{length-upto}
use zio_benchmarks.PingPong.Photon.{
  reserving, storing, filling, fetching, loading, emptying, signing, End, Moved, after_empty,
  after_full, proceed,
}
use zio_benchmarks.PingPong.Photon.Phases.{
  IsLeaving, Peer, IsClear, IsBusy, IsFilled, fetch, load, give_back, reserve, store, fill, Turn,
  is_gone, steps_left, task_steps,
}

module _ (Ph : Photon) (limit : ℕ) (fits : limit + 2 < 2 ^ 64) where
  open Ph use {Sem, count, wait, signal, wait_done, wait_blocked, count-signal}

  -- A step is followed by a turn, counts those who have signalled, and leaves fewer steps.
  abbrev pub Follows : End Ph → End Ph → List ℕ → Sem → Option (Moved Ph) → Type 0
  Follows x y log done = WhenSome (λ m.
      Turn Ph limit m.mine m.theirs m.log
      × (count m.done + is_gone x.task + is_gone y.task
          ≡ count done + is_gone m.mine.task + is_gone m.theirs.task)
      × (steps_left limit m.log m.mine.task m.theirs.task < steps_left limit log x.task y.task))

  -- What follows the signal behind a store.
  after_break :
      (last : Bool)
      → (is_gone (if last then signing else fetching) ≡ 0)
        × (task_steps (if last then signing else fetching) < 6)
  after_break true = omega arith
  after_break false = omega arith

  Peer-after : (w : ℕ) → w ≤ limit → Peer limit (suc w) (if leb limit w then signing else fetching)
  Peer-after w below = elim (Bool-cases (leb limit w)) [
    | inl last ↦ rw last (inr (inl refl, ground arith))
    | inr more ↦ rw more (inl (refl, ground arith))
  ]

  leaves : (w : ℕ) → w ≡ suc limit → IsLeaving (if leb limit w then signing else fetching)
  leaves w last = elim (Bool-cases (leb limit w)) [
    | inl e ↦ rw e (inl refl)
    | inr e ↦ absurd (ground arith)
  ]

  module _ (x y : End Ph) (log : List ℕ) (done : Sem) where
    pub after_empty-Follows :
        (w : ℕ) (r : Option Sem)
        → wait 1 x.out.empty ≡ r
        → x.task ≡ reserving w (leb limit w)
        → IsClear Ph x.out
        → IsClear Ph y.out
        → w ≤ suc limit
        → log ≡ upto w
        → Peer limit w y.task
        → Follows x y log done (after_empty Ph x y log done w (leb limit w) r)
    unfolding after_empty
    after_empty-Follows w none law at cx cy below all peer = tt
    after_empty-Follows w (some e) law at cx cy below all peer = (
      inl (
          inl (
            w,
            store refl (omega (arith, wait_done 1 x.out.empty e law, cx.0), cx.1) cy below all,
            peer,
          )),
      omega (arith, ap is_gone at),
      omega (arith, ap task_steps at),
    )

    pub after_full-Follows :
        (v : ℕ) (r : Option Sem)
        → wait 1 y.out.full ≡ r
        → x.task ≡ fetching
        → IsClear Ph x.out
        → IsFilled Ph y.out
        → y.out.value ≡ v
        → v ≤ limit
        → log ≡ upto (suc v)
        → Peer limit (suc v) y.task
        → Follows x y log done (after_full Ph x y log done r)
    unfolding after_full
    after_full-Follows v none law at cx fy here below all peer = tt
    after_full-Follows v (some f) law at cx fy here below all peer = (
      inl (
          inl (
            suc v,
            load v refl cx (fy.0, omega (arith, wait_done 1 y.out.full f law, fy.1)) here refl below
                all,
            peer,
          )),
      omega (arith, ap is_gone at),
      omega (arith, ap task_steps at),
    )

    pub store-Follows :
        (w : ℕ)
        → x.task ≡ storing w (leb limit w)
        → IsBusy Ph x.out
        → IsClear Ph y.out
        → w ≤ suc limit
        → log ≡ upto w
        → Peer limit w y.task
        → Follows x y log done (proceed Ph limit x y log done (storing w (leb limit w)))
    unfolding proceed
    store-Follows w at bx cy below all peer = (
      inl (inl (w, fill refl bx refl cy below (ap (λ vs. vs ++ w ∷ []) all), peer)),
      omega (arith, ap is_gone at),
      omega (
        arith,
        length-append log (w ∷ []),
        ap length all,
        length-upto w,
        below,
        ap task_steps at,
      ),
    )

    pub fill-Follows :
        (w : ℕ)
        → x.task ≡ filling (leb limit w)
        → IsBusy Ph x.out
        → x.out.value ≡ w
        → IsClear Ph y.out
        → log ≡ upto (suc w)
        → Peer limit w y.task
        → Follows x y log done (proceed Ph limit x y log done (filling (leb limit w)))
    unfolding proceed
    fill-Follows w at bx here cy all (inl (wait_, below)) =
        let filled : (count x.out.empty ≡ 0) × (count (signal 1 x.out.full) ≡ 1) =
          (bx.0, omega (arith, count-signal 1 x.out.full, bx.1)) in
        let next = after_break (leb limit w) in
        (
          inl (inr (suc w, fetch w wait_ cy filled here refl below all, Peer-after w below)),
          omega (arith, ap is_gone at, next),
          omega (arith, ap task_steps at, next),
        )
    fill-Follows w at bx here cy all (inr (leaving, last)) =
        let next = after_break (leb limit w) in
        (
          inr (leaves w last, leaving, all ∙ ap (λ n. upto (suc n)) last),
          omega (arith, ap is_gone at, next),
          omega (arith, ap task_steps at, next),
        )

    pub load-Follows :
        (v : ℕ)
        → x.task ≡ loading
        → IsClear Ph x.out
        → IsBusy Ph y.out
        → y.out.value ≡ v
        → v ≤ limit
        → log ≡ upto (suc v)
        → Peer limit (suc v) y.task
        → Follows x y log done (proceed Ph limit x y log done loading)
    unfolding proceed
    load-Follows v at cx by here below all peer = (
      inl (inl (suc v, give_back v (ap emptying here) cx by refl below all, peer)),
      omega (arith, ap is_gone at),
      omega (arith, ap task_steps at),
    )

    pub give_back-Follows :
        (v : ℕ)
        → x.task ≡ emptying v
        → IsClear Ph x.out
        → IsBusy Ph y.out
        → v ≤ limit
        → log ≡ upto (suc v)
        → Peer limit (suc v) y.task
        → Follows x y log done (proceed Ph limit x y log done (emptying v))
    unfolding proceed
    give_back-Follows v at cx by below all peer =
        let same : u64 (v + 1) ≡ suc v = omega (arith, below, fits) in
        let clear : (count (signal 1 y.out.empty) ≡ 1) × (count y.out.full ≡ 0) =
          (omega (arith, count-signal 1 y.out.empty, by.0), by.1) in
        (
          inl (
              inl (
                suc v,
                reserve (ap (λ n. reserving n (leb limit n)) same) cx clear (omega (arith, below))
                    all,
                peer,
              )),
          omega (arith, ap is_gone at),
          omega (arith, ap task_steps at),
        )
