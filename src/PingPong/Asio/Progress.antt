-- ===== src/PingPong/Asio/Progress.antt =====
-- Which task of a pair can go on, in each phase.
use zio_benchmarks.Channel.{Channel, Sent, full, refused, sent, Received, empty, drained, received}
use zio_benchmarks.Shared.{
  ℕ, ◌≡◌, ◌⊎◌, inl, inr, refl, sym, ap, subst, false, List, [], ◌∷◌, none, some, length, arith,
}
use zio_benchmarks.PingPong.Asio.{
  Task, starting, receiving, sending, closing, finished, End, Moved, after_first, after_send,
  after_receive, proceed,
}
use zio_benchmarks.PingPong.Asio.Phases.{
  Holds, Phase, opening, holding, arriving, ending, closed, over, Turn,
}

module _ (C : Channel) (limit : ℕ) where
  open C use {
    Chan, buffered, is_open, capacity, send, receive, full_lem, received_lem, empty_lem,
    drained_lem,
  }

  abbrev CanGo : End Chan → End Chan → List ℕ → Task → Type 0
  CanGo x y log t = (m : Moved Chan) × (proceed C limit x y log t ≡ some m)

  first_goes :
      (x y : End Chan) (log : List ℕ) (r : Sent Chan)
      → send x.out 0 ≡ r
      → Holds C [] x.out
      → (m : Moved Chan) × (after_first x y log r ≡ some m)
  unfolding after_first
  first_goes x y log full law (none_there, opened, one) =
      absurd (omega (arith, full_lem x.out 0 law, ap length none_there, one))
  first_goes x y log refused law clear = (_, refl)
  first_goes x y log (sent c) law clear = (_, refl)

  send_goes :
      (x y : End Chan) (log : List ℕ) (w : ℕ) (r : Sent Chan)
      → send x.out w ≡ r
      → Holds C [] x.out
      → (m : Moved Chan) × (after_send x y log w r ≡ some m)
  unfolding after_send
  send_goes x y log w full law (none_there, opened, one) =
      absurd (omega (arith, full_lem x.out w law, ap length none_there, one))
  send_goes x y log w refused law clear = (_, refl)
  send_goes x y log w (sent c) law clear = (_, refl)

  receive_goes :
      (x y : End Chan) (log : List ℕ) (w : ℕ) (r : Received Chan)
      → receive y.out ≡ r
      → Holds C (w ∷ []) y.out
      → (m : Moved Chan) × (after_receive x y log limit r ≡ some m)
  unfolding after_receive
  receive_goes x y log w empty law (there, opened, one) = cc ((empty_lem y.out law).0, there)
  receive_goes x y log w drained law here = (_, refl)
  receive_goes x y log w (received v c) law here = (_, refl)

  drained_goes :
      (x y : End Chan) (log : List ℕ) (r : Received Chan)
      → receive x.out ≡ r
      → is_open x.out ≡ false
      → (m : Moved Chan) × (after_receive y x log limit r ≡ some m)
  unfolding after_receive
  drained_goes x y log empty law shut = cc ((empty_lem x.out law).1, shut)
  drained_goes x y log drained law shut = (_, refl)
  drained_goes x y log (received v c) law shut = (_, refl)

  receive_waits :
      (x y : End Chan) (log : List ℕ) (r : Received Chan)
      → receive x.out ≡ r
      → Holds C [] x.out
      → after_receive y x log limit r ≡ none
  unfolding after_receive
  receive_waits x y log empty law clear = refl
  receive_waits x y log drained law (none_there, opened, one) =
      cc ((drained_lem x.out law).1, opened)
  receive_waits x y log (received v c) law (none_there, opened, one) =
      cc ((received_lem x.out v c law).0, none_there)

  abbrev GoesAt : End Chan → End Chan → List ℕ → Type 0
  GoesAt x y log = CanGo x y log x.task

  at_task :
      (x y : End Chan) (log : List ℕ) (t : Task) → x.task ≡ t → CanGo x y log t → GoesAt x y log
  at_task x y log t at can = subst (CanGo x y log) (sym at) can

  -- Both have finished, or one can go on.
  Phase-goes :
      (x y : End Chan) (log : List ℕ)
      → Phase C limit x y log
      → ((x.task ≡ finished) × (y.task ≡ finished)) ⊎ (GoesAt x y log ⊎ GoesAt y x log)
  unfolding proceed
  Phase-goes x y log (opening at wait cx cy none_yet) =
      inr (inl (at_task x y log starting at (first_goes x y log (send x.out 0) refl cx)))
  Phase-goes x y log (holding w at wait cx cy below all) =
      inr (inl (at_task x y log (sending w) at (send_goes x y log w (send x.out w) refl cx)))
  Phase-goes x y log (arriving w at wait cx cy below all) =
      inr (inl (at_task x y log receiving at (receive_goes x y log w (receive y.out) refl cy)))
  Phase-goes x y log (ending at wait cx cy all) = inr (inl (at_task x y log closing at (_, refl)))
  Phase-goes x y log (closed at wait none_there shut none_here all) =
      inr (inr (at_task y x log receiving wait (drained_goes x y log (receive x.out) refl shut)))
  Phase-goes x y log (over at gone none_there none_here all) = inl (at, gone)

  pub Turn-goes :
      (x y : End Chan) (log : List ℕ)
      → Turn C limit x y log
      → ((x.task ≡ finished) × (y.task ≡ finished)) ⊎ (GoesAt x y log ⊎ GoesAt y x log)
  Turn-goes x y log (inl ph) = Phase-goes x y log ph
  Turn-goes x y log (inr ph) = elim (Phase-goes y x log ph) [
    | inl both ↦ inl (both.1, both.0)
    | inr (inl goes) ↦ inr (inr goes)
    | inr (inr goes) ↦ inr (inl goes)
  ]

  abbrev Waits : End Chan → End Chan → List ℕ → Type 0
  Waits x y log = proceed C limit x y log x.task ≡ none

  Waits-at :
      (x y : End Chan) (log : List ℕ) (t : Task)
      → x.task ≡ t
      → proceed C limit x y log t ≡ none
      → Waits x y log
  Waits-at x y log t at e = subst (λ u. proceed C limit x y log u ≡ none) (sym at) e

  -- One of the two cannot go on.
  Phase-Waits :
      (x y : End Chan) (log : List ℕ) → Phase C limit x y log → Waits x y log ⊎ Waits y x log
  unfolding proceed
  Phase-Waits x y log (opening at wait cx cy none_yet) =
      inr (Waits-at y x log receiving wait (receive_waits x y log (receive x.out) refl cx))
  Phase-Waits x y log (holding w at wait cx cy below all) =
      inr (Waits-at y x log receiving wait (receive_waits x y log (receive x.out) refl cx))
  Phase-Waits x y log (arriving w at wait cx cy below all) =
      inr (Waits-at y x log receiving wait (receive_waits x y log (receive x.out) refl cx))
  Phase-Waits x y log (ending at wait cx cy all) =
      inr (Waits-at y x log receiving wait (receive_waits x y log (receive x.out) refl cx))
  Phase-Waits x y log (closed at wait none_there shut none_here all) =
      inl (Waits-at x y log finished at refl)
  Phase-Waits x y log (over at gone none_there none_here all) =
      inl (Waits-at x y log finished at refl)

  pub Turn-Waits :
      (x y : End Chan) (log : List ℕ) → Turn C limit x y log → Waits x y log ⊎ Waits y x log
  Turn-Waits x y log (inl ph) = Phase-Waits x y log ph
  Turn-Waits x y log (inr ph) = elim (Phase-Waits y x log ph) [
    | inl waits ↦ inr waits
    | inr waits ↦ inl waits
  ]
