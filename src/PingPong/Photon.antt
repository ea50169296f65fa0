-- ===== src/PingPong/Photon.antt =====
-- queue_ping_pong_photon.cpp: the two coroutines of each pair over two slots of two semaphores each,
-- and the semaphore `done`, on which `main` waits. A step is one access to a semaphore or to the value
-- of a slot, with the local code that follows it.
pub mod Args
mod Phases
mod Moves
mod Steps
mod Progress
mod Program
mod Ending
mod Runs
mod Tests
use zio_benchmarks.Photon.{Photon}
use zio_benchmarks.Shared.{
  ℕ, ◌+◌, ◌*◌, ◌≡◌, Bool, false, List, [], ◌∷◌, ◌++◌, Option, none, some, leb, if◌then◌else◌,
  replicate, get_elem?, set,
}
use zio_benchmarks.Shared.Words.{u64}
use zio_benchmarks.PingPong.{at_least_one, per_pair}

-- `send v` up to `empty.wait`, up to `value = v`, and up to `full.signal`, where the flag says that a
-- `break` follows; `recv` up to `full.wait`, up to the copy of `value`, and up to `empty.signal`;
-- before `done.signal`, and at the end.
pub data Task : Type 0 where
  reserving : ℕ → Bool → Task
  storing : ℕ → Bool → Task
  filling : Bool → Task
  fetching : Task
  loading : Task
  emptying : ℕ → Task
  signing : Task
  gone : Task

pub data Side : Type 0 where
  first : Side
  second : Side

-- `main` in `done.wait`, or behind it.
pub data Main : Type 0 where
  awaiting : Main
  ended : Main

pub data Coroutine : Type 0 where
  main : Coroutine
  task : ℕ → Side → Coroutine

module _ (Ph : Photon) where
  open Ph use {Sem, make, wait, signal}

  pub record Slot : Type 0 where
    pub value : ℕ
    pub full : Sem
    pub empty : Sem

  unfoldable pub new_slot : Slot
  new_slot = record { value = 0; full = make 0; empty = make 1 }

  -- A coroutine with the slot that it sends to.
  pub record End : Type 0 where
    pub task : Task
    pub out : Slot

  -- `log` is not in the program: the values that have been stored, in order.
  pub record Pair : Type 0 where
    pub a : End
    pub b : End
    pub log : List ℕ

  pub record Moved : Type 0 where
    pub mine : End
    pub theirs : End
    pub log : List ℕ
    pub done : Sem

  -- `empty.wait(1)`
  unfoldable pub after_empty : End → End → List ℕ → Sem → ℕ → Bool → Option Sem → Option Moved
  after_empty x y log done v last none = none
  after_empty x y log done v last (some e) = some (record {
    mine = record { task = storing v last; out = record x.out { empty = e } };
    theirs = y;
    log = log;
    done = done;
  })

  -- `full.wait(1)`
  unfoldable pub after_full : End → End → List ℕ → Sem → Option Sem → Option Moved
  after_full x y log done none = none
  after_full x y log done (some f) = some (record {
    mine = record x { task = loading };
    theirs = record y { out = record y.out { full = f } };
    log = log;
    done = done;
  })

  unfoldable pub proceed : ℕ → End → End → List ℕ → Sem → Task → Option Moved
  unfolding after_empty after_full
  proceed limit x y log done (reserving v last) =
      after_empty x y log done v last (wait 1 x.out.empty)
  proceed limit x y log done (storing v last) = some (record {
    mine = record { task = filling last; out = record x.out { value = v } };
    theirs = y;
    log = log ++ v ∷ [];
    done = done;
  })
  proceed limit x y log done (filling last) = some (record {
    mine = record {
      task = (if last then signing else fetching);
      out = record x.out { full = signal 1 x.out.full };
    };
    theirs = y;
    log = log;
    done = done;
  })
  proceed limit x y log done fetching = after_full x y log done (wait 1 y.out.full)
  proceed limit x y log done loading = some (record {
    mine = record x { task = emptying y.out.value };
    theirs = y;
    log = log;
    done = done;
  })
  proceed limit x y log done (emptying v) =
      let next = u64 (v + 1) in
      some (record {
        mine = record x { task = reserving next (leb limit next) };
        theirs = record y { out = record y.out { empty = signal 1 y.out.empty } };
        log = log;
        done = done;
      })
  proceed limit x y log done signing =
      some (record { mine = record x { task = gone }; theirs = y; log = log; done = signal 1 done })
  proceed limit x y log done gone = none

  abbrev pub as_first : Option Moved → Option (Sem × Pair)
  as_first none = none
  as_first (some m) = some (m.done, record { a = m.mine; b = m.theirs; log = m.log })

  abbrev pub as_second : Option Moved → Option (Sem × Pair)
  as_second none = none
  as_second (some m) = some (m.done, record { a = m.theirs; b = m.mine; log = m.log })

  -- One resumption of a coroutine of a pair.
  unfoldable pub pair_step : ℕ → Sem → Pair → Side → Option (Sem × Pair)
  unfolding proceed
  pair_step limit done p first = as_first (proceed limit p.a p.b p.log done p.a.task)
  pair_step limit done p second = as_second (proceed limit p.b p.a p.log done p.b.task)

  unfoldable pub new_pair : Pair
  unfolding new_slot
  new_pair = record {
    a = record { task = reserving 0 false; out = new_slot };
    b = record { task = fetching; out = new_slot };
    log = [];
  }

  pub record State : Type 0 where
    pub done : Sem
    pub pairs : List Pair
    pub main : Main

  abbrev pub put_pair : State → ℕ → Option (Sem × Pair) → Option State
  put_pair s i none = none
  put_pair s i (some (d, p)) = some (record s { done = d; pairs = set s.pairs i p })

  abbrev pub pass : State → Option Sem → Option State
  pass s none = none
  pass s (some d) = some (record s { done = d; main = ended })

  -- `done.wait(2 * pairs)`
  unfoldable pub main_step : ℕ → State → Main → Option State
  main_step n s awaiting = pass s (wait (u64 (2 * n)) s.done)
  main_step n s ended = none

  unfoldable pub step : ℕ → State → Coroutine → Option State
  unfolding pair_step main_step
  step pairs s main = main_step (at_least_one pairs) s s.main
  step pairs s (task i side) = elim (get_elem? s.pairs i) [
    | none ↦ none
    | some p ↦ put_pair s i (pair_step (per_pair (at_least_one pairs)) s.done p side)
  ]

  unfoldable pub init : ℕ → State
  unfolding new_pair
  init pairs = record {
    done = make 0;
    pairs = replicate (at_least_one pairs) new_pair;
    main = awaiting;
  }
