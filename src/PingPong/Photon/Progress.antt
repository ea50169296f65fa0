-- ===== src/PingPong/Photon/Progress.antt =====
-- Who of a pair can go on, and what its log and its slots are like meanwhile.
use zio_benchmarks.Photon.{Photon}
use zio_benchmarks.Shared.{
  ℕ, suc, ◌+◌, ◌≤◌, ◌≡◌, ◌⊎◌, inl, inr, refl, sym, ap, ◌∙◌, subst, List, Option, none, some, Bool,
  arith, leb,
}
use zio_benchmarks.PingPong.{upto}
use zio_benchmarks.PingPong.Photon.{
  Task, reserving, storing, filling, fetching, loading, emptying, signing, gone, Slot, End, Moved,
  after_empty, after_full, proceed,
}
use zio_benchmarks.PingPong.Photon.Phases.{
  IsLeaving, Peer, Doing, fetch, load, give_back, reserve, store, fill, Phase, Turn,
}

-- A coroutine is about to write, or to read, the value of a slot.
abbrev pub IsStoring : Task → Type 0
IsStoring t = (v : ℕ) × (last : Bool) × (t ≡ storing v last)

abbrev pub IsAccessing : Task → Type 0
IsAccessing t = IsStoring t ⊎ (t ≡ loading)

module _ (Ph : Photon) (limit : ℕ) where
  open Ph use {Sem, count, wait, wait_blocked}

  module _ (x y : End Ph) (log : List ℕ) (done : Sem) where
    abbrev CanGo : Task → Type 0
    CanGo t = (m : Moved Ph) × (proceed Ph limit x y log done t ≡ some m)

    abbrev pub GoesOn : Type 0
    GoesOn = CanGo x.task

    go_at : (t : Task) → x.task ≡ t → CanGo t → GoesOn
    go_at t at can = subst CanGo (sym at) can

    empty_goes :
        (v : ℕ) (last : Bool) (r : Option Sem)
        → wait 1 x.out.empty ≡ r
        → count x.out.empty ≡ 1
        → (m : Moved Ph) × (after_empty Ph x y log done v last r ≡ some m)
    unfolding after_empty
    empty_goes v last none law one = absurd (omega (arith, wait_blocked 1 x.out.empty law, one))
    empty_goes v last (some e) law one = (_, refl)

    full_goes :
        (r : Option Sem)
        → wait 1 y.out.full ≡ r
        → count y.out.full ≡ 1
        → (m : Moved Ph) × (after_full Ph x y log done r ≡ some m)
    unfolding after_full
    full_goes none law one = absurd (omega (arith, wait_blocked 1 y.out.full law, one))
    full_goes (some f) law one = (_, refl)

    pub Phase-goes : Phase Ph limit x y log → GoesOn
    unfolding proceed
    Phase-goes (w, fetch v at cx fy here next below all, peer) =
        go_at fetching at (full_goes (wait 1 y.out.full) refl fy.1)
    Phase-goes (w, load v at cx by here next below all, peer) = go_at loading at (_, refl)
    Phase-goes (w, give_back v at cx by next below all, peer) = go_at (emptying v) at (_, refl)
    Phase-goes (w, reserve at cx cy below all, peer) =
        go_at (reserving w (leb limit w)) at
          (empty_goes w (leb limit w) (wait 1 x.out.empty) refl cx.0)
    Phase-goes (w, store at bx cy below all, peer) = go_at (storing w (leb limit w)) at (_, refl)
    Phase-goes (w, fill at bx here cy below all, peer) = go_at (filling (leb limit w)) at (_, refl)

    pub signing_goes : x.task ≡ signing → GoesOn
    unfolding proceed
    signing_goes at = go_at signing at (_, refl)

  -- The first messages, in order.
  abbrev pub IsOrdered : List ℕ → Type 0
  IsOrdered log = (w : ℕ) × (w ≤ limit + 2) × (log ≡ upto w)

  Phase-IsOrdered : (x y : End Ph) (log : List ℕ) → Phase Ph limit x y log → IsOrdered log
  Phase-IsOrdered x y log (w, fetch v at cx fy here next below all, peer) =
      (suc v, omega (arith, below), all)
  Phase-IsOrdered x y log (w, load v at cx by here next below all, peer) =
      (suc v, omega (arith, below), all)
  Phase-IsOrdered x y log (w, give_back v at cx by next below all, peer) =
      (suc v, omega (arith, below), all)
  Phase-IsOrdered x y log (w, reserve at cx cy below all, peer) = (w, omega (arith, below), all)
  Phase-IsOrdered x y log (w, store at bx cy below all, peer) = (w, omega (arith, below), all)
  Phase-IsOrdered x y log (w, fill at bx here cy below all, peer) =
      (suc w, omega (arith, below), all)

  leaving_apart : (t : Task) → IsLeaving t → IsAccessing t → ⊥
  leaving_apart t (inl at) (inl (v, last, e)) = cc (at, e)
  leaving_apart t (inl at) (inr e) = cc (at, e)
  leaving_apart t (inr at) (inl (v, last, e)) = cc (at, e)
  leaving_apart t (inr at) (inr e) = cc (at, e)

  Peer-apart : (w : ℕ) (t : Task) → Peer limit w t → IsAccessing t → ⊥
  Peer-apart w t (inl (at, below)) (inl (v, last, e)) = cc (at, e)
  Peer-apart w t (inl (at, below)) (inr e) = cc (at, e)
  Peer-apart w t (inr (leaving, last)) acc = leaving_apart t leaving acc

  pub Turn-apart :
      (x y : End Ph) (log : List ℕ)
      → Turn Ph limit x y log
      → IsAccessing x.task
      → IsAccessing y.task
      → ⊥
  Turn-apart x y log (inl (inl (w, doing, peer))) ax ay = Peer-apart w y.task peer ay
  Turn-apart x y log (inl (inr (w, doing, peer))) ax ay = Peer-apart w x.task peer ax
  Turn-apart x y log (inr (one, other, all)) ax ay = leaving_apart x.task one ax

  pub Turn-IsOrdered : (x y : End Ph) (log : List ℕ) → Turn Ph limit x y log → IsOrdered log
  Turn-IsOrdered x y log (inl (inl ph)) = Phase-IsOrdered x y log ph
  Turn-IsOrdered x y log (inl (inr ph)) = Phase-IsOrdered y x log ph
  Turn-IsOrdered x y log (inr (one, other, all)) = (suc (suc limit), omega arith, all)

  -- Both have ended, or one can go on.
  pub Turn-goes :
      (x y : End Ph) (log : List ℕ) (done : Sem)
      → Turn Ph limit x y log
      → ((x.task ≡ gone) × (y.task ≡ gone)) ⊎ (GoesOn x y log done ⊎ GoesOn y x log done)
  Turn-goes x y log done (inl (inl ph)) = inr (inl (Phase-goes x y log done ph))
  Turn-goes x y log done (inl (inr ph)) = inr (inr (Phase-goes y x log done ph))
  Turn-goes x y log done (inr (inl at, other, all)) = inr (inl (signing_goes x y log done at))
  Turn-goes x y log done (inr (inr at, inl other, all)) =
      inr (inr (signing_goes y x log done other))
  Turn-goes x y log done (inr (inr at, inr other, all)) = inl (at, other)

  two_more : suc (suc limit) ≡ limit + 2
  two_more = omega arith

  doing_not_gone :
      {w : ℕ} {t : Task} {out into : Slot Ph} {log : List ℕ}
      → Doing Ph limit w t out into log
      → t ≡ gone
      → ⊥
  doing_not_gone (fetch v at cx fy here next below all) e = cc (at, e)
  doing_not_gone (load v at cx by here next below all) e = cc (at, e)
  doing_not_gone (give_back v at cx by next below all) e = cc (at, e)
  doing_not_gone (reserve at cx cy below all) e = cc (at, e)
  doing_not_gone (store at bx cy below all) e = cc (at, e)
  doing_not_gone (fill at bx here cy below all) e = cc (at, e)

  -- If both have ended, all messages have been sent.
  pub Turn-over :
      (x y : End Ph) (log : List ℕ)
      → Turn Ph limit x y log
      → x.task ≡ gone
      → y.task ≡ gone
      → log ≡ upto (limit + 2)
  Turn-over x y log (inl (inl ph)) at other = absurd (doing_not_gone ph.1 at)
  Turn-over x y log (inl (inr ph)) at other = absurd (doing_not_gone ph.1 other)
  Turn-over x y log (inr (one, two, all)) at other = all ∙ ap upto two_more
