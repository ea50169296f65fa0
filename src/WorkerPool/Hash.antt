-- ===== src/WorkerPool/Hash.antt =====
-- `work`: the recurrence that every runtime runs on each item.
use Prim.Native.Nat.add
use native.Mathlib.Nat.{mul_right_comm}
use mathlib.Core.Path.{◌≡⟨◌⟩◌, ◌∎}
use zio_benchmarks.Shared.{
  ℕ, zero, suc, ◌+◌, ◌*◌, ◌/◌, ◌%◌, ◌^◌, ◌<◌, ◌≡◌, refl, ap, ap₂, ◌∙◌, sym, bit_xor, arith,
}
use zio_benchmarks.Shared.Words.{u64}
use zio_benchmarks.Shared.Xor.{xor_assoc, xor-zero, zero-xor}

-- One round: `x = x * 6364136223846793005ULL + 1442695040888963407ULL`.
unfoldable pub advance : ℕ → ℕ
advance x = u64 (u64 (x * 6364136223846793005) + 1442695040888963407)

-- The rounds that are left of `for (i = 0; i < iters; i++)`, with `acc ^= x >> 29` in each.
rounds : ℕ → ℕ → ℕ → ℕ
rounds zero x acc = acc
rounds (suc n) x acc = rounds n (advance x) (bit_xor acc (advance x / 2 ^ 29))

unfoldable pub work : ℕ → ℕ → ℕ
unfolding rounds advance
work seed iters = rounds iters seed 0

-- `x` after `n` rounds.
pub orbit : ℕ → ℕ → ℕ
orbit zero x = x
orbit (suc n) x = orbit n (advance x)

advance-lt : (x : ℕ) → advance x < 2 ^ 64
unfolding advance
advance-lt x = omega arith

rounds-acc : (n x acc : ℕ) → rounds n x acc ≡ bit_xor acc (rounds n x 0)
unfolding rounds
rounds-acc zero x acc = sym (xor-zero acc)
rounds-acc (suc n) x acc =
    rounds-acc n (advance x) (bit_xor acc (advance x / 2 ^ 29))
    ∙ xor_assoc acc (advance x / 2 ^ 29) (rounds n (advance x) 0)
    ∙ ap (bit_xor acc) (
        sym (
          rounds-acc n (advance x) (bit_xor 0 (advance x / 2 ^ 29))
          ∙ ap (λ t. bit_xor t (rounds n (advance x) 0)) (zero-xor (advance x / 2 ^ 29))))

-- The work of `m + n` rounds is that of `m` rounds, joined by `^` to that of `n` rounds from where
-- the first `m` end.
pub work-add : (seed m n : ℕ) → work seed (m + n) ≡ bit_xor (work seed m) (work (orbit m seed) n)
unfolding work orbit
work-add seed zero n = ap (λ k. rounds k seed 0) (add.zero n) ∙ sym (zero-xor (rounds n seed 0))
work-add seed (suc m) n =
    rounds (suc m + n) seed 0
    ≡⟨ ap (λ k. rounds k seed 0) (add.suc m n) ⟩ rounds (m + n) x first
    ≡⟨ rounds-acc (m + n) x first ⟩ bit_xor first (rounds (m + n) x 0)
    ≡⟨ ap (bit_xor first) (work-add x m n) ⟩ bit_xor first (bit_xor (rounds m x 0) rest)
    ≡⟨ sym (xor_assoc first (rounds m x 0) rest) ⟩ bit_xor (bit_xor first (rounds m x 0)) rest
    ≡⟨ ap (λ t. bit_xor t rest) (sym (rounds-acc m x first)) ⟩ bit_xor (rounds m x first) rest ∎
  where
    x : ℕ
    x = advance seed

    first : ℕ
    first = bit_xor 0 (x / 2 ^ 29)

    rest : ℕ
    rest = rounds n (orbit m x) 0

-- `1 + a + ... + a ^ (n - 1)`, for the multiplier `a` of the recurrence.
unfoldable pub geometric : ℕ → ℕ
geometric zero = 0
geometric (suc n) = geometric n * 6364136223846793005 + 1

unfoldable pub multiplier : ℕ → ℕ
multiplier zero = 1
multiplier (suc n) = multiplier n * 6364136223846793005

-- `x` after `n` rounds, without the rounds before: `a ^ n * seed + c * (1 + a + ... + a ^ (n - 1))`
-- modulo 2 ^ 64.
abbrev pub jump : ℕ → ℕ → ℕ
jump seed n = (multiplier n * seed + 1442695040888963407 * geometric n) % 2 ^ 64

-- The exclusive or of the high bits after each of `n` rounds.
unfoldable pub joined_jumps : ℕ → ℕ → ℕ
joined_jumps seed zero = 0
joined_jumps seed (suc n) = bit_xor (joined_jumps seed n) (jump seed (suc n) / 2 ^ 29)

advance_mod :
    (y : ℕ) → advance (y % 2 ^ 64) ≡ (y * 6364136223846793005 + 1442695040888963407) % 2 ^ 64
unfolding advance
advance_mod y = omega arith

orbit-next : (x : ℕ) (n : ℕ) → orbit (suc n) x ≡ advance (orbit n x)
unfolding orbit
orbit-next x zero = refl
orbit-next x (suc n) = orbit-next (advance x) n

-- One more factor in each of the two sums.
next_jump :
    (seed n : ℕ)
    → (multiplier n * seed + 1442695040888963407 * geometric n) * 6364136223846793005
        + 1442695040888963407
      ≡ multiplier (suc n) * seed + 1442695040888963407 * geometric (suc n)
unfolding multiplier geometric
next_jump seed n = omega (arith, mul_right_comm (multiplier n) 6364136223846793005 seed)

advance-jump : (seed n : ℕ) → advance (jump seed n) ≡ jump seed (suc n)
advance-jump seed n =
    advance_mod (multiplier n * seed + 1442695040888963407 * geometric n)
    ∙ ap (λ t. t % 2 ^ 64) (next_jump seed n)

advance-orbit : (seed n : ℕ) → advance (orbit n seed) ≡ jump seed (suc n)
unfolding advance orbit multiplier geometric
advance-orbit seed zero = omega arith
advance-orbit seed (suc n) =
    ap advance (orbit-next seed n ∙ advance-orbit seed n) ∙ advance-jump seed (suc n)

work_one : (x : ℕ) → work x 1 ≡ advance x / 2 ^ 29
unfolding work rounds
work_one x = zero-xor (advance x / 2 ^ 29)

-- `work` is the exclusive or, for n from 1 to its number of rounds, of the number
-- a ^ n * seed + c * (1 + a + ... + a ^ (n - 1)) modulo 2 ^ 64, shifted right by 29, where a and c are
-- the constants of the source.
pub work_lem : (seed iters : ℕ) → work seed iters ≡ joined_jumps seed iters
unfolding work rounds joined_jumps
work_lem seed zero = refl
work_lem seed (suc n) =
    ap (work seed) one_more
    ∙ work-add seed n 1
    ∙ ap₂ bit_xor (work_lem seed n)
        (work_one (orbit n seed) ∙ ap (λ t. t / 2 ^ 29) (advance-orbit seed n))
  where
    one_more : suc n ≡ n + 1
    one_more = omega arith
