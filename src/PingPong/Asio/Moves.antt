-- ===== src/PingPong/Asio/Moves.antt =====
-- What each task of a pair does in each phase.
use zio_benchmarks.Channel.{Channel, Sent, full, refused, sent, Received, empty, drained, received}
use zio_benchmarks.Shared.{
  ℕ, suc, ◌+◌, ◌^◌, ◌<◌, ◌≡◌, inl, inr, refl, sym, ap, subst, ◌∙◌, false, List, [], ◌∷◌, ◌++◌,
  Option, WhenSome, length, length-append, arith, leb, Bool-cases,
}
use zio_benchmarks.Shared.Words.{u64}
use zio_benchmarks.PingPong.{upto}
use zio_benchmarks.PingPong.Split.{length-upto}
use zio_benchmarks.PingPong.Asio.{
  Task, starting, receiving, sending, finished, End, Moved, after_first, after_send, after_receive,
  proceed,
}
use zio_benchmarks.PingPong.Asio.Phases.{
  Holds, Phase, opening, holding, arriving, ending, closed, over, Turn, task_steps, steps_left,
}

module _ (C : Channel) (limit : ℕ) (fits : limit < 2 ^ 64) (some_message : 0 < limit) where
  open C use {
    Chan, buffered, is_open, capacity, send, receive, close, sent_lem, full_lem, refused_lem,
    received_lem, empty_lem, drained_lem, close_lem,
  }

  -- A step is followed by a turn, with fewer steps left.
  abbrev pub Follows : End Chan → End Chan → List ℕ → Option (Moved Chan) → Type 0
  Follows x y log = WhenSome (λ m.
      Turn C limit m.mine m.theirs m.log
      × (steps_left limit m.log m.mine.task m.theirs.task < steps_left limit log x.task y.task))

  send_first :
      (x y : End Chan) (r : Sent Chan)
      → send x.out 0 ≡ r
      → x.task ≡ starting
      → y.task ≡ receiving
      → Holds C [] x.out
      → Holds C [] y.out
      → Follows x y [] (after_first x y [] r)
  unfolding after_first
  send_first x y full law at wait (none_there, opened, one) clear = tt
  send_first x y refused law at wait (none_there, opened, one) clear =
      cc (refused_lem x.out 0 law, opened)
  send_first x y (sent c) law at wait (none_there, opened, one) clear =
      let (now, was, open_, size, room) = sent_lem x.out 0 c law in
      (
        inr (
            arriving 0 wait refl clear (now ∙ ap (λ vs. vs ++ 0 ∷ []) none_there, open_, size ∙ one)
              some_message refl),
        omega (arith, ap task_steps at, ap task_steps wait),
      )

  -- Sending message `w`.
  send_next :
      (x y : End Chan) (log : List ℕ) (w : ℕ) (r : Sent Chan)
      → send x.out w ≡ r
      → x.task ≡ sending w
      → y.task ≡ receiving
      → Holds C [] x.out
      → Holds C [] y.out
      → w < limit
      → log ≡ upto w
      → Follows x y log (after_send x y log w r)
  unfolding after_send
  send_next x y log w full law at wait (none_there, opened, one) clear below all = tt
  send_next x y log w refused law at wait (none_there, opened, one) clear below all =
      cc (refused_lem x.out w law, opened)
  send_next x y log w (sent c) law at wait (none_there, opened, one) clear below all =
      let (now, was, open_, size, room) = sent_lem x.out w c law in
      (
        inr (
            arriving w wait refl clear (now ∙ ap (λ vs. vs ++ w ∷ []) none_there, open_, size ∙ one)
              below (ap (λ vs. vs ++ w ∷ []) all)),
        omega (
          arith,
          ap task_steps at,
          ap task_steps wait,
          ap length all,
          length-upto w,
          length-append log (w ∷ []),
        ),
      )

  -- Receiving message `w`.
  receive_next :
      (x y : End Chan) (log : List ℕ) (w : ℕ) (r : Received Chan)
      → receive y.out ≡ r
      → x.task ≡ receiving
      → y.task ≡ receiving
      → Holds C [] x.out
      → Holds C (w ∷ []) y.out
      → w < limit
      → log ≡ upto (suc w)
      → Follows x y log (after_receive x y log limit r)
  unfolding after_receive
  receive_next x y log w empty law at wait clear (there, opened, one) below all = tt
  receive_next x y log w drained law at wait clear (there, opened, one) below all =
      cc ((drained_lem y.out law).1, opened)
  receive_next x y log w (received v c) law at wait clear (there, opened, one) below all =
      let (taken, still, size) = received_lem y.out v c law in
      let same : v ≡ w = cc (taken, there) in
      let rest : buffered c ≡ [] = cc (taken, there) in
      let next : u64 (v + 1) ≡ w + 1 = omega (arith, same, fits) in
      let left : Holds C [] c = (rest, still ∙ opened, size ∙ one) in
      elim (Bool-cases (leb limit (u64 (v + 1)))) [
        | inl last ↦
            let end_ : suc w ≡ limit = ground arith in
            rw last (
              inl (ending refl wait clear left (all ∙ ap upto end_)),
              omega (arith, ap task_steps at),
            )
        | inr more ↦
            let below' : suc w < limit = ground arith in
            let named : sending (u64 (v + 1)) ≡ sending (suc w) =
              ap sending (omega (arith, next)) in
            rw more (
              inl (holding (suc w) named wait clear left below' all),
              omega (arith, ap task_steps at),
            )
      ]

  -- What the task whose turn it is does.
  mover-Follows :
      (x y : End Chan) (log : List ℕ)
      → Phase C limit x y log
      → (t : Task) → x.task ≡ t
      → Follows x y log (proceed C limit x y log t)
  unfolding proceed
  mover-Follows x y log (opening at wait cx cy none_yet) t is =
      subst (λ u. Follows x y log (proceed C limit x y log u)) (sym at ∙ is)
        (subst (λ l. Follows x y l (proceed C limit x y l starting)) (sym none_yet)
          (send_first x y (send x.out 0) refl at wait cx cy))
  mover-Follows x y log (holding w at wait cx cy below all) t is =
      subst (λ u. Follows x y log (proceed C limit x y log u)) (sym at ∙ is)
        (send_next x y log w (send x.out w) refl at wait cx cy below all)
  mover-Follows x y log (arriving w at wait cx cy below all) t is =
      subst (λ u. Follows x y log (proceed C limit x y log u)) (sym at ∙ is)
        (receive_next x y log w (receive y.out) refl at wait cx cy below all)
  mover-Follows x y log (ending at wait cx cy all) t is =
      subst (λ u. Follows x y log (proceed C limit x y log u)) (sym at ∙ is)
        (
          inl (closed refl wait ((close_lem x.out).0 ∙ cx.0) (close_lem x.out).1 cy.0 all),
          omega (arith, ap task_steps at),
        )
  mover-Follows x y log (closed at wait none_there shut none_here all) t is =
      subst (λ u. Follows x y log (proceed C limit x y log u)) (sym at ∙ is) tt
  mover-Follows x y log (over at gone none_there none_here all) t is =
      subst (λ u. Follows x y log (proceed C limit x y log u)) (sym at ∙ is) tt

  -- The other task waits for a message that is not there, or finds the channel closed.
  receive_none :
      (x y : End Chan) (log : List ℕ) (r : Received Chan)
      → receive x.out ≡ r
      → Holds C [] x.out
      → Follows y x log (after_receive y x log limit r)
  unfolding after_receive
  receive_none x y log empty law (none_there, opened, one) = tt
  receive_none x y log drained law (none_there, opened, one) =
      cc ((drained_lem x.out law).1, opened)
  receive_none x y log (received v c) law (none_there, opened, one) =
      cc ((received_lem x.out v c law).0, none_there)

  receive_closed :
      (x y : End Chan) (log : List ℕ) (r : Received Chan)
      → receive x.out ≡ r
      → x.task ≡ finished
      → y.task ≡ receiving
      → buffered x.out ≡ []
      → is_open x.out ≡ false
      → buffered y.out ≡ []
      → log ≡ upto limit
      → Follows y x log (after_receive y x log limit r)
  unfolding after_receive
  receive_closed x y log empty law at wait none_there shut none_here all = tt
  receive_closed x y log drained law at wait none_there shut none_here all =
      (inl (over refl at none_here none_there all), omega (arith, ap task_steps wait))
  receive_closed x y log (received v c) law at wait none_there shut none_here all =
      cc ((received_lem x.out v c law).0, none_there)

  waiter-Follows :
      (x y : End Chan) (log : List ℕ)
      → Phase C limit x y log
      → (t : Task) → y.task ≡ t
      → Follows y x log (proceed C limit y x log t)
  unfolding proceed
  waiter-Follows x y log (opening at wait cx cy none_yet) t is =
      subst (λ u. Follows y x log (proceed C limit y x log u)) (sym wait ∙ is)
        (receive_none x y log (receive x.out) refl cx)
  waiter-Follows x y log (holding w at wait cx cy below all) t is =
      subst (λ u. Follows y x log (proceed C limit y x log u)) (sym wait ∙ is)
        (receive_none x y log (receive x.out) refl cx)
  waiter-Follows x y log (arriving w at wait cx cy below all) t is =
      subst (λ u. Follows y x log (proceed C limit y x log u)) (sym wait ∙ is)
        (receive_none x y log (receive x.out) refl cx)
  waiter-Follows x y log (ending at wait cx cy all) t is =
      subst (λ u. Follows y x log (proceed C limit y x log u)) (sym wait ∙ is)
        (receive_none x y log (receive x.out) refl cx)
  waiter-Follows x y log (closed at wait none_there shut none_here all) t is =
      subst (λ u. Follows y x log (proceed C limit y x log u)) (sym wait ∙ is)
        (receive_closed x y log (receive x.out) refl at wait none_there shut none_here all)
  waiter-Follows x y log (over at gone none_there none_here all) t is =
      subst (λ u. Follows y x log (proceed C limit y x log u)) (sym gone ∙ is) tt

  -- Whichever task is resumed.
  pub proceed-Follows :
      (x y : End Chan) (log : List ℕ)
      → Turn C limit x y log
      → Follows x y log (proceed C limit x y log x.task)
  proceed-Follows x y log (inl ph) = mover-Follows x y log ph x.task refl
  proceed-Follows x y log (inr ph) = waiter-Follows y x log ph x.task refl
