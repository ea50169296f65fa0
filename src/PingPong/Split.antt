-- ===== src/PingPong/Split.antt =====
-- How the messages are split among the pairs.
use native.Mathlib.Nat.{div-mul-le_self, lt-div-mul-add, div-le_self, div-lt_iff_lt-mul}
use zio_benchmarks.Shared.{
  ℕ, zero, suc, ◌+◌, ◌*◌, ◌/◌, ◌^◌, ◌<◌, ◌≤◌, ◌≡◌, inl, inr, refl, ap, arith, true, total,
  replicate, ltb, length, length-append, [], ◌∷◌, Bool-cases,
}
use zio_benchmarks.PingPong.{upto, all_messages, at_least_one, per_pair}

pub length-upto : (n : ℕ) → length (upto n) ≡ n
length-upto zero = refl
length-upto (suc n) = omega (arith, length-append (upto n) (n ∷ []), length-upto n)

pub total-replicate : {A : Type 0} (w : A → ℕ) (n : ℕ) (a : A) → total w (replicate n a) ≡ n * w a
total-replicate w zero a = omega arith
total-replicate w (suc n) a = omega (arith, total-replicate w n a)

share-bounds :
    (n : ℕ)
    → 0 < n
    → (n * (all_messages / n) ≤ all_messages) × (all_messages < n * (all_messages / n) + n)
share-bounds n pos = (
  omega (arith, div-mul-le_self all_messages n),
  omega (arith, lt-div-mul-add {a = all_messages} pos),
)

pub per_pair-positive : (pairs : ℕ) → 0 < per_pair pairs
unfolding per_pair
per_pair-positive pairs = ground arith

pub per_pair-le : (pairs : ℕ) → per_pair pairs ≤ all_messages
unfolding per_pair
per_pair-le pairs =
    let le = div-le_self all_messages pairs in
    elim (Bool-cases (ltb (all_messages / pairs) 1)) [
      | inl small ↦ rw small (omega arith)
      | inr large ↦ rw large (omega (arith, le))
    ]

pub per_pair-fits : (pairs : ℕ) → per_pair pairs < 2 ^ 64
per_pair-fits pairs = omega (arith, per_pair-le pairs)

pub at_least_one-positive : (pairs : ℕ) → 0 < at_least_one pairs
unfolding at_least_one
at_least_one-positive pairs = ground arith

-- Where there are at most as many pairs as messages, the pairs together have no more messages than
-- there are, and miss fewer than one for each pair.
pub messages_split :
    (pairs : ℕ)
    → at_least_one pairs ≤ all_messages
    → let n = at_least_one pairs in
      (n * per_pair n ≤ all_messages) × (all_messages < n * per_pair n + n)
unfolding per_pair
messages_split pairs fewer =
    let bounds = share-bounds (at_least_one pairs) (at_least_one-positive pairs) in
    elim (Bool-cases (ltb (all_messages / at_least_one pairs) 1)) [
      | inl small ↦
          absurd (omega (arith, fewer, bounds.1, ap (λ q. at_least_one pairs * q) (nothing small)))
      | inr large ↦ rw large bounds
    ]
  where
    nothing :
        ltb (all_messages / at_least_one pairs) 1 ≡ true → all_messages / at_least_one pairs ≡ 0
    nothing small = ground arith

-- With more pairs than messages, each pair has one.
pub single_message :
    (pairs : ℕ) → all_messages < at_least_one pairs → per_pair (at_least_one pairs) ≡ 1
unfolding per_pair
single_message pairs more =
    let none_each : all_messages / at_least_one pairs < 1 =
      (div-lt_iff_lt-mul (at_least_one-positive pairs)).1 (omega (arith, more)) in
    ground arith
