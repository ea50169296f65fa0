-- ===== src/PingPong/Photon/Steps.antt =====
-- What a step of either coroutine of a pair leads to.
use zio_benchmarks.Photon.{Photon}
use zio_benchmarks.Shared.{
  ℕ, ◌+◌, ◌^◌, ◌<◌, ◌≡◌, inl, inr, refl, sym, ap, subst, List, Option, none, some, arith, leb,
}
use zio_benchmarks.PingPong.Photon.{
  Task, reserving, storing, filling, fetching, loading, emptying, signing, gone, Slot, End,
  after_full, proceed,
}
use zio_benchmarks.PingPong.Photon.Phases.{
  Peer, Doing, fetch, load, give_back, reserve, store, fill, Phase, Over, Turn, is_gone, task_steps,
}
use zio_benchmarks.PingPong.Photon.Moves.{
  Follows, after_empty-Follows, after_full-Follows, store-Follows, fill-Follows, load-Follows,
  give_back-Follows,
}

-- The slot of the one that sends holds nothing for the other.
pub Doing-no_message :
    (Ph : Photon) {limit w : ℕ} {t : Task} {out into : Slot Ph} {log : List ℕ}
    → Doing Ph limit w t out into log
    → Ph.count out.full ≡ 0
Doing-no_message Ph (fetch v at cx fy here next below all) = cx.1
Doing-no_message Ph (load v at cx by here next below all) = cx.1
Doing-no_message Ph (give_back v at cx by next below all) = cx.1
Doing-no_message Ph (reserve at cx cy below all) = cx.1
Doing-no_message Ph (store at bx cy below all) = bx.1
Doing-no_message Ph (fill at bx here cy below all) = bx.1

module _ (Ph : Photon) (limit : ℕ) (fits : limit + 2 < 2 ^ 64) where
  open Ph use {Sem, count, wait, signal, wait_done, count-signal}

  module _ (x y : End Ph) (log : List ℕ) (done : Sem) where
    abbrev Goes : Task → Type 0
    Goes t = Follows Ph limit fits x y log done (proceed Ph limit x y log done t)

    pub by_task : (t : Task) → x.task ≡ t → Goes t → Goes x.task
    by_task t at h = subst Goes (sym at) h

    mover-Follows : Phase Ph limit x y log → Goes x.task
    unfolding proceed
    mover-Follows (w, fetch v at cx fy here next below all, peer) = by_task fetching at (
        after_full-Follows Ph limit fits x y log done v (wait 1 y.out.full) refl at cx fy here below
          all (subst (λ n. Peer limit n y.task) next peer))
    mover-Follows (w, load v at cx by here next below all, peer) = by_task loading at (
        load-Follows Ph limit fits x y log done v at cx by here below all
          (subst (λ n. Peer limit n y.task) next peer))
    mover-Follows (w, give_back v at cx by next below all, peer) = by_task (emptying v) at (
        give_back-Follows Ph limit fits x y log done v at cx by below all
          (subst (λ n. Peer limit n y.task) next peer))
    mover-Follows (w, reserve at cx cy below all, peer) = by_task (reserving w (leb limit w)) at (
        after_empty-Follows Ph limit fits x y log done w (wait 1 x.out.empty) refl at cx cy below
          all peer)
    mover-Follows (w, store at bx cy below all, peer) =
        by_task (storing w (leb limit w)) at
          (store-Follows Ph limit fits x y log done w at bx cy below all peer)
    mover-Follows (w, fill at bx here cy below all, peer) =
        by_task (filling (leb limit w)) at
          (fill-Follows Ph limit fits x y log done w at bx here cy all peer)

    -- The other waits, or signals its end.
    fetching-Follows :
        (r : Option Sem)
        → wait 1 y.out.full ≡ r
        → count y.out.full ≡ 0
        → Follows Ph limit fits x y log done (after_full Ph x y log done r)
    unfolding after_full
    fetching-Follows none law nothing = tt
    fetching-Follows (some f) law nothing =
        absurd (omega (arith, wait_done 1 y.out.full f law, nothing))

    peer-Follows : Phase Ph limit y x log → Goes x.task
    unfolding proceed
    peer-Follows (w, doing, inl (at, below)) =
        by_task fetching at (fetching-Follows (wait 1 y.out.full) refl (Doing-no_message Ph doing))
    peer-Follows (w, doing, inr (inl at, last)) = by_task signing at (
      inl (inr (w, doing, inr (inr refl, last))),
      omega (arith, count-signal 1 done, ap is_gone at),
      omega (arith, ap task_steps at),
    )
    peer-Follows (w, doing, inr (inr at, last)) = by_task gone at tt

    Over-Follows : Over Ph limit x y log → Goes x.task
    unfolding proceed
    Over-Follows (inl at, other, all) = by_task signing at (
      inr (inr refl, other, all),
      omega (arith, count-signal 1 done, ap is_gone at),
      omega (arith, ap task_steps at),
    )
    Over-Follows (inr at, other, all) = by_task gone at tt

    -- Whichever coroutine is resumed.
    pub proceed-Follows : Turn Ph limit x y log → Goes x.task
    proceed-Follows (inl (inl ph)) = mover-Follows ph
    proceed-Follows (inl (inr ph)) = peer-Follows ph
    proceed-Follows (inr over) = Over-Follows over
