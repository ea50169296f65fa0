-- ===== src/PingPong/Photon/Phases.antt =====
-- The states that a pair of queue_ping_pong_photon.cpp passes through. Message `w` is sent by one
-- coroutine, and the message before it was sent by the other, which then waits or is at its end.
use zio_benchmarks.Photon.{Photon}
use zio_benchmarks.Shared.{ℕ, suc, ◌+◌, ◌*◌, ◌-◌, ◌≤◌, ◌≡◌, ◌⊎◌, inl, inr, List, length, leb}
use zio_benchmarks.PingPong.{upto}
use zio_benchmarks.PingPong.Photon.{
  Task, reserving, storing, filling, fetching, loading, emptying, signing, gone, Slot, End,
}

-- Behind the loop.
abbrev pub IsLeaving : Task → Type 0
IsLeaving t = (t ≡ signing) ⊎ (t ≡ gone)

-- What the one does that does not send message `w`.
abbrev pub Peer : ℕ → ℕ → Task → Type 0
Peer limit w t = ((t ≡ fetching) × (w ≤ limit)) ⊎ (IsLeaving t × (w ≡ suc limit))

module _ (Ph : Photon) where
  open Ph use {count}

  abbrev pub IsClear : Slot Ph → Type 0
  IsClear s = (count s.empty ≡ 1) × (count s.full ≡ 0)

  abbrev pub IsBusy : Slot Ph → Type 0
  IsBusy s = (count s.empty ≡ 0) × (count s.full ≡ 0)

  abbrev pub IsFilled : Slot Ph → Type 0
  IsFilled s = (count s.empty ≡ 0) × (count s.full ≡ 1)

  -- How far the one is that sends message `w`, where `into` is the slot that it receives from.
  pub data Doing (limit w : ℕ) (t : Task) (out into : Slot Ph) (log : List ℕ) : Type 0 where
    fetch :
        (v : ℕ)
        → t ≡ fetching
        → IsClear out
        → IsFilled into
        → into.value ≡ v
        → w ≡ suc v
        → v ≤ limit
        → log ≡ upto (suc v)
        → Doing limit w t out into log
    load :
        (v : ℕ)
        → t ≡ loading
        → IsClear out
        → IsBusy into
        → into.value ≡ v
        → w ≡ suc v
        → v ≤ limit
        → log ≡ upto (suc v)
        → Doing limit w t out into log
    give_back :
        (v : ℕ)
        → t ≡ emptying v
        → IsClear out
        → IsBusy into
        → w ≡ suc v
        → v ≤ limit
        → log ≡ upto (suc v)
        → Doing limit w t out into log
    reserve :
        t ≡ reserving w (leb limit w)
        → IsClear out
        → IsClear into
        → w ≤ suc limit
        → log ≡ upto w
        → Doing limit w t out into log
    store :
        t ≡ storing w (leb limit w)
        → IsBusy out
        → IsClear into
        → w ≤ suc limit
        → log ≡ upto w
        → Doing limit w t out into log
    fill :
        t ≡ filling (leb limit w)
        → IsBusy out
        → out.value ≡ w
        → IsClear into
        → w ≤ suc limit
        → log ≡ upto (suc w)
        → Doing limit w t out into log

  -- `x` sends the next message.
  abbrev pub Phase : ℕ → End Ph → End Ph → List ℕ → Type 0
  Phase limit x y log = (w : ℕ) × Doing limit w x.task x.out y.out log × Peer limit w y.task

  -- Every message has been sent.
  abbrev pub Over : ℕ → End Ph → End Ph → List ℕ → Type 0
  Over limit x y log = IsLeaving x.task × IsLeaving y.task × (log ≡ upto (suc (suc limit)))

  abbrev pub Turn : ℕ → End Ph → End Ph → List ℕ → Type 0
  Turn limit x y log = (Phase limit x y log ⊎ Phase limit y x log) ⊎ Over limit x y log

  pub swap : {limit : ℕ} {x y : End Ph} {log : List ℕ} → Turn limit x y log → Turn limit y x log
  swap (inl (inl ph)) = inl (inr ph)
  swap (inl (inr ph)) = inl (inl ph)
  swap (inr (one, other, all)) = inr (other, one, all)

-- 1 for a coroutine that has signalled its end.
abbrev pub is_gone : Task → ℕ
is_gone (reserving v last) = 0
is_gone (storing v last) = 0
is_gone (filling last) = 0
is_gone fetching = 0
is_gone loading = 0
is_gone (emptying v) = 0
is_gone signing = 0
is_gone gone = 1

-- The steps that a coroutine has left beside those for each message.
abbrev pub task_steps : Task → ℕ
task_steps (reserving v last) = 2
task_steps (storing v last) = 1
task_steps (filling last) = 6
task_steps fetching = 5
task_steps loading = 4
task_steps (emptying v) = 3
task_steps signing = 1
task_steps gone = 0

abbrev pub steps_left : ℕ → List ℕ → Task → Task → ℕ
steps_left limit log t u = 6 * (limit + 2 - length log) + task_steps t + task_steps u
