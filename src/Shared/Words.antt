-- ===== src/Shared/Words.antt =====
-- Unsigned machine words as numbers: a result wraps by a remainder that is written out.
use zio_benchmarks.Shared.{ℕ, ◌+◌, ◌-◌, ◌%◌, ◌^◌}

abbrev pub u64_mod : ℕ
u64_mod = 2 ^ 64

-- `uint64_t` and `size_t`
abbrev pub u64 : ℕ → ℕ
u64 n = n % u64_mod

-- `-` on ℕ stops at 0, so the modulus is added first.
abbrev pub sub64 : ℕ → ℕ → ℕ
sub64 a b = u64 (a + u64_mod - b)
