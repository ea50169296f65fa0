-- ===== src/Channel.antt =====
-- `asio::experimental::concurrent_channel<void(asio::error_code, uint64_t)>`, which cpp/ only calls:
-- its operations are parameters, with the behaviour that its documentation promises. An operation
-- that does not complete (`full`, `empty`) leaves the coroutine suspended: it is tried again later.
pub mod Fifo
use zio_benchmarks.Shared.{ℕ, ◌≤◌, ◌<◌, ◌≡◌, Bool, true, false, List, [], ◌∷◌, ◌++◌, length}

pub data Sent (Chan : Type 0) : Type 0 where
  full : Sent Chan
  refused : Sent Chan
  sent : Chan → Sent Chan

pub data Received (Chan : Type 0) : Type 0 where
  empty : Received Chan
  drained : Received Chan
  received : ℕ → Chan → Received Chan

pub record Channel : Type 1 where
  pub Chan : Type 0
  pub make : ℕ → Chan
  pub send : Chan → ℕ → Sent Chan
  pub receive : Chan → Received Chan
  pub close : Chan → Chan
  -- What can be observed of a channel: the values that are buffered, oldest first.
  pub buffered : Chan → List ℕ
  pub is_open : Chan → Bool
  pub capacity : Chan → ℕ
  pub make_lem :
      (n : ℕ) → (buffered (make n) ≡ []) × (is_open (make n) ≡ true) × (capacity (make n) ≡ n)
  -- A send completes on an open channel with room, waits on a full one, and fails on a closed one.
  pub sent_lem :
      (c : Chan) (v : ℕ) (d : Chan)
      → send c v ≡ sent d
      → (buffered d ≡ buffered c ++ v ∷ [])
        × (is_open c ≡ true)
        × (is_open d ≡ true)
        × (capacity d ≡ capacity c)
        × (length (buffered c) < capacity c)
  pub full_lem :
      (c : Chan) (v : ℕ) → send c v ≡ full → (is_open c ≡ true) × (capacity c ≤ length (buffered c))
  pub refused_lem : (c : Chan) (v : ℕ) → send c v ≡ refused → is_open c ≡ false
  -- A receive takes the oldest value, also from a closed channel; with no value it waits on an open
  -- channel and fails on a closed one.
  pub received_lem :
      (c : Chan) (v : ℕ) (d : Chan)
      → receive c ≡ received v d
      → (buffered c ≡ v ∷ buffered d) × (is_open d ≡ is_open c) × (capacity d ≡ capacity c)
  pub empty_lem : (c : Chan) → receive c ≡ empty → (buffered c ≡ []) × (is_open c ≡ true)
  pub drained_lem : (c : Chan) → receive c ≡ drained → (buffered c ≡ []) × (is_open c ≡ false)
  pub close_lem :
      (c : Chan)
      → (buffered (close c) ≡ buffered c)
        × (is_open (close c) ≡ false)
        × (capacity (close c) ≡ capacity c)
