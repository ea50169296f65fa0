-- ===== src/WorkerPool/Items.antt =====
-- Counting an item of a worker pool: with a producer, and in a list of values. Item `n` stands in the
-- queue as the value n + 1.
use zio_benchmarks.Shared.{
  ℕ, suc, ◌+◌, ◌<◌, ◌≤◌, ◌≡◌, List, total, ltb, leb, ◌==◌, if◌then◌else◌, arith,
}

-- How often a value is in a list.
abbrev pub is_value : ℕ → ℕ → ℕ
is_value v x = if x == v then 1 else 0

abbrev pub count : ℕ → List ℕ → ℕ
count v xs = total (is_value v) xs

-- 1 for an item below a bound.
abbrev pub is_below : ℕ → ℕ → ℕ
is_below n bound = if ltb n bound then 1 else 0

-- 1 for an item from `i` on and below `end`.
abbrev pub ahead : ℕ → ℕ → ℕ → ℕ
ahead n i end = if leb i n then is_below n end else 0

-- The first item leaves a range.
pub ahead-next :
    (n i end v : ℕ) → i < end → v ≡ i + 1 → ahead n i end ≡ ahead n v end + is_value (suc n) v
ahead-next n i end v below next = ground arith

pub ahead_none : (n i end : ℕ) → end ≤ i → ahead n i end ≡ 0
ahead_none n i end past = ground arith

pub ahead-is_below : (n i end : ℕ) → i ≤ end → ahead n i end + is_below n i ≡ is_below n end
ahead-is_below n i end ordered = ground arith

pub is_below-zero : (n : ℕ) → is_below n 0 ≡ 0
is_below-zero n = ground arith

-- A sentinel is no item.
pub is_value_none : (n v : ℕ) → v ≡ 0 → is_value (suc n) v ≡ 0
is_value_none n v sentinel = ground arith
