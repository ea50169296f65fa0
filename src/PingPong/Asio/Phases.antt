-- ===== src/PingPong/Asio/Phases.antt =====
-- The states that a pair of queue_ping_pong.cpp passes through. `x` is the task whose turn it is.
use zio_benchmarks.Channel.{Channel}
use zio_benchmarks.Shared.{
  ℕ, suc, ◌+◌, ◌*◌, ◌-◌, ◌<◌, ◌≡◌, ◌⊎◌, inl, inr, true, false, List, [], ◌∷◌, length,
}
use zio_benchmarks.PingPong.{upto}
use zio_benchmarks.PingPong.Asio.{
  Task, starting, receiving, sending, closing, finished, thrown, End,
}

module _ (C : Channel) where
  open C use {Chan, buffered, is_open, capacity}

  -- A channel that is open and holds the values.
  abbrev pub Holds : List ℕ → Chan → Type 0
  Holds vs c = (buffered c ≡ vs) × (is_open c ≡ true) × (capacity c ≡ 1)

  pub data Phase (limit : ℕ) (x y : End Chan) (log : List ℕ) : Type 0 where
    -- `task_a` has not sent its first message.
    opening :
        x.task ≡ starting
        → y.task ≡ receiving
        → Holds [] x.out
        → Holds [] y.out
        → log ≡ []
        → Phase limit x y log
    -- `x` is about to send message `w`.
    holding :
        (w : ℕ)
        → x.task ≡ sending w
        → y.task ≡ receiving
        → Holds [] x.out
        → Holds [] y.out
        → w < limit
        → log ≡ upto w
        → Phase limit x y log
    -- Message `w` is on its way to `x`.
    arriving :
        (w : ℕ)
        → x.task ≡ receiving
        → y.task ≡ receiving
        → Holds [] x.out
        → Holds (w ∷ []) y.out
        → w < limit
        → log ≡ upto (suc w)
        → Phase limit x y log
    -- `x` has received the last message.
    ending :
        x.task ≡ closing
        → y.task ≡ receiving
        → Holds [] x.out
        → Holds [] y.out
        → log ≡ upto limit
        → Phase limit x y log
    -- `x` has closed its channel.
    closed :
        x.task ≡ finished
        → y.task ≡ receiving
        → buffered x.out ≡ []
        → is_open x.out ≡ false
        → buffered y.out ≡ []
        → log ≡ upto limit
        → Phase limit x y log
    over :
        x.task ≡ finished
        → y.task ≡ finished
        → buffered x.out ≡ []
        → buffered y.out ≡ []
        → log ≡ upto limit
        → Phase limit x y log

  -- It is the turn of one of the two.
  abbrev pub Turn : ℕ → End Chan → End Chan → List ℕ → Type 0
  Turn limit x y log = Phase limit x y log ⊎ Phase limit y x log

  pub swap : {limit : ℕ} {x y : End Chan} {log : List ℕ} → Turn limit x y log → Turn limit y x log
  swap (inl ph) = inr ph
  swap (inr ph) = inl ph

-- The steps that a task has left beside those for each message.
abbrev pub task_steps : Task → ℕ
task_steps starting = 1
task_steps receiving = 2
task_steps (sending v) = 1
task_steps closing = 1
task_steps finished = 0
task_steps thrown = 0

abbrev pub steps_left : ℕ → List ℕ → Task → Task → ℕ
steps_left limit log t u = 2 * (limit - length log) + task_steps t + task_steps u
