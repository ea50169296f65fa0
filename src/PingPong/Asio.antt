-- ===== src/PingPong/Asio.antt =====
-- queue_ping_pong.cpp: `task_a` and `task_b` of each pair, over two channels of capacity 1. A step of a
-- task is one operation on a channel, with the local code that follows it.
mod Phases
mod Moves
mod Progress
mod Runs
mod Turns
pub mod Args
mod Tests
use zio_benchmarks.Channel.{Channel, Sent, full, refused, sent, Received, empty, drained, received}
use zio_benchmarks.Shared.{
  ℕ, ◌+◌, ◌≡◌, List, [], ◌∷◌, ◌++◌, Option, none, some, leb, if◌then◌else◌, replicate, All,
}
use zio_benchmarks.Shared.Words.{u64}
use zio_benchmarks.Schedule.Many.{many}
use zio_benchmarks.PingPong.{at_least_one, per_pair}

-- Before the first send of `task_a`, at the head of the loop, before a later send, before `close`, or
-- at the end, by `co_return` or by an exception.
pub data Task : Type 0 where
  starting : Task
  receiving : Task
  sending : ℕ → Task
  closing : Task
  finished : Task
  thrown : Task

-- A task with the channel that it sends to.
pub record End (Chan : Type 0) : Type 0 where
  pub task : Task
  pub out : Chan

-- `log` is not in the program: the messages that have been sent, in order.
pub record Pair (Chan : Type 0) : Type 0 where
  pub a : End Chan
  pub b : End Chan
  pub log : List ℕ

pub record Moved (Chan : Type 0) : Type 0 where
  pub mine : End Chan
  pub theirs : End Chan
  pub log : List ℕ

pub data Side : Type 0 where
  task_a : Side
  task_b : Side

module _ {Chan : Type 0} (x y : End Chan) (log : List ℕ) where
  -- The first send of `task_a` asks for no error code, so that an error is thrown.
  unfoldable pub after_first : Sent Chan → Option (Moved Chan)
  after_first full = none
  after_first refused = some (record { mine = record x { task = thrown }; theirs = y; log = log })
  after_first (sent c) =
      some (record { mine = record { task = receiving; out = c }; theirs = y; log = log ++ 0 ∷ [] })

  -- `if (ec2) co_return;`
  unfoldable pub after_send : ℕ → Sent Chan → Option (Moved Chan)
  after_send v full = none
  after_send v refused =
      some (record { mine = record x { task = finished }; theirs = y; log = log })
  after_send v (sent c) =
      some (record { mine = record { task = receiving; out = c }; theirs = y; log = log ++ v ∷ [] })

  -- `if (ec) co_return;`, the next number, and the test of the limit.
  unfoldable pub after_receive : ℕ → Received Chan → Option (Moved Chan)
  after_receive limit empty = none
  after_receive limit drained =
      some (record { mine = record x { task = finished }; theirs = y; log = log })
  after_receive limit (received v c) =
      let next = u64 (v + 1) in
      some (record {
        mine = record x { task = (if leb limit next then closing else sending next) };
        theirs = record y { out = c };
        log = log;
      })

module _ (C : Channel) where
  open C use {Chan, make, send, receive, close}

  unfoldable pub proceed : ℕ → End Chan → End Chan → List ℕ → Task → Option (Moved Chan)
  unfolding after_first after_send after_receive
  proceed limit x y log starting = after_first x y log (send x.out 0)
  proceed limit x y log receiving = after_receive x y log limit (receive y.out)
  proceed limit x y log (sending v) = after_send x y log v (send x.out v)
  proceed limit x y log closing =
      some (record { mine = record { task = finished; out = close x.out }; theirs = y; log = log })
  proceed limit x y log finished = none
  proceed limit x y log thrown = none

  abbrev pub as_a : Option (Moved Chan) → Option (Pair Chan)
  as_a none = none
  as_a (some m) = some (record { a = m.mine; b = m.theirs; log = m.log })

  abbrev pub as_b : Option (Moved Chan) → Option (Pair Chan)
  as_b none = none
  as_b (some m) = some (record { a = m.theirs; b = m.mine; log = m.log })

  -- One resumption of a task of a pair.
  unfoldable pub pair_step : ℕ → Pair Chan → Side → Option (Pair Chan)
  unfolding proceed
  pair_step limit p task_a = as_a (proceed limit p.a p.b p.log p.a.task)
  pair_step limit p task_b = as_b (proceed limit p.b p.a p.log p.b.task)

  -- `pair`: the two channels and the two tasks.
  unfoldable pub new_pair : Pair Chan
  new_pair = record {
    a = record { task = starting; out = make 1 };
    b = record { task = receiving; out = make 1 };
    log = [];
  }

-- What `&&` waits for.
abbrev pub IsFinished : {Chan : Type 0} → Pair Chan → Type 0
IsFinished p = (p.a.task ≡ finished) × (p.b.task ≡ finished)

-- The pairs that `main` spawns, and a resumption of a task of one of them.
unfoldable pub init : (C : Channel) → ℕ → List (Pair C.Chan)
unfolding new_pair
init C pairs = replicate (at_least_one pairs) (new_pair C)

abbrev pub step : (C : Channel) → ℕ → List (Pair C.Chan) → ℕ × Side → Option (List (Pair C.Chan))
step C pairs = many (pair_step C (per_pair (at_least_one pairs)))
