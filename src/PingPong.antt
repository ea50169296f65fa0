-- ===== src/PingPong.antt =====
-- The ping-pong programs, queue_ping_pong.cpp and queue_ping_pong_photon.cpp: pairs of tasks that send
-- a number to and fro, one more each time.
mod Split
pub mod Asio
pub mod Photon
mod Options
mod Tests
use zio_benchmarks.Shared.{ℕ, zero, suc, ◌/◌, List, [], ◌∷◌, ◌++◌, ltb, ◌==◌, if◌then◌else◌}

-- The messages 0, 1, ..., n - 1.
abbrev pub upto : ℕ → List ℕ
upto zero = []
upto (suc n) = upto n ++ n ∷ []

-- The messages of all pairs together.
abbrev pub all_messages : ℕ
all_messages = 100000

-- `if (pairs == 0) pairs = 1;`
unfoldable pub at_least_one : ℕ → ℕ
at_least_one pairs = if pairs == 0 then 1 else pairs

-- The messages of one pair.
unfoldable pub per_pair : ℕ → ℕ
per_pair pairs = let share = all_messages / pairs in if ltb share 1 then 1 else share
