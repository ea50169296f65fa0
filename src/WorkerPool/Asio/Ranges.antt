-- ===== src/WorkerPool/Asio/Ranges.antt =====
-- How `main` splits the items between the producers: `s = p * items / producers` and
-- `e = (p + 1) * items / producers`.
use Prim.Native.Nat.add
use native.Mathlib.Nat.{
  div-mul-le_self, le-div_iff_mul-le, mul-div_cancel_left, zero-div, div-le_self, div-lt_iff_lt-mul,
  lt-div-mul-add, le_trans, zero-mul,
}
use zio_benchmarks.Shared.{
  ℕ, zero, suc, ◌+◌, ◌-◌, ◌*◌, ◌/◌, ◌^◌, ◌≤◌, ◌<◌, ◌≡◌, refl, sym, ap, ap₂, ◌∙◌, arith, bit_xor,
  length, total, All,
}
use zio_benchmarks.Shared.Words.{u64}
use zio_benchmarks.Shared.XorTotal.{xor_total}
use zio_benchmarks.WorkerPool.Expected.{
  range_work, range_work-add, range_work_none, expected_checksum,
}
use zio_benchmarks.WorkerPool.Asio.{Options, range_start, range_end, spawn_producers}
use zio_benchmarks.WorkerPool.Asio.Measures.{is_sending, owed, unsent_work, Fits}

-- The options fit their 64 bits, and so does the product that the split computes.
pub record IsBounded (o : Options) : Type 0 where
  pub some_producer : 0 < o.producers
  pub producers_fit : o.producers < 2 ^ 64
  pub consumers_fit : o.consumers < 2 ^ 64
  pub product_fits : o.producers * o.items < 2 ^ 64

-- Where range `p` begins, in exact arithmetic.
abbrev pub cut : Options → ℕ → ℕ
cut o p = p * o.items / o.producers

div_mono : (a b k : ℕ) → 0 < k → a ≤ b → a / k ≤ b / k
div_mono a b k pos h = (le-div_iff_mul-le pos).1 (le_trans (div-mul-le_self a k) h)

div-add_bounds :
    (a b k : ℕ) → 0 < k → (a / k + b / k ≤ (a + b) / k) × ((a + b) / k < a / k + b / k + 2)
div-add_bounds a b k pos = (
  (le-div_iff_mul-le pos).1 (omega (arith, div-mul-le_self a k, div-mul-le_self b k)),
  (div-lt_iff_lt-mul pos).1 (omega (arith, lt-div-mul-add {a = a} pos, lt-div-mul-add {a = b} pos)),
)

module _ {o : Options} (fit : IsBounded o) where
  open fit use {some_producer, producers_fit, product_fits}

  product-le : (p : ℕ) → p ≤ o.producers → p * o.items ≤ o.producers * o.items
  product-le p h = grind arith

  pub range_start-cut : (p : ℕ) → p ≤ o.producers → range_start o p ≡ cut o p
  unfolding range_start
  range_start-cut p h =
      let exact : u64 (p * o.items) ≡ p * o.items = omega (arith, product-le p h, product_fits) in
      ap (λ t. t / o.producers) exact

  pub range_end-cut : (p : ℕ) → p < o.producers → range_end o p ≡ cut o (p + 1)
  unfolding range_end
  range_end-cut p h =
      let next : u64 (p + 1) ≡ p + 1 = omega (arith, producers_fit) in
      ap (λ t. u64 (t * o.items) / o.producers) next ∙ ap (λ t. t / o.producers) exact
    where
      exact : u64 ((p + 1) * o.items) ≡ (p + 1) * o.items
      exact = omega (arith, product-le (p + 1) (omega arith), product_fits)

  pub cut_mono : (p q : ℕ) → p ≤ q → cut o p ≤ cut o q
  cut_mono p q h = div_mono (p * o.items) (q * o.items) o.producers some_producer (grind arith)

  pub cut-zero : cut o 0 ≡ 0
  cut-zero = ap (λ t. t / o.producers) (zero-mul o.items) ∙ zero-div o.producers

  pub cut-producers : cut o o.producers ≡ o.items
  cut-producers = mul-div_cancel_left o.items some_producer

  -- The work of `left` producers from `p` on is that of the items between their cuts.
  spawned_work :
      (iters p left : ℕ)
      → p + left ≤ o.producers
      → xor_total (unsent_work iters) (spawn_producers o p left)
        ≡ range_work iters (cut o p) (cut o (p + left) - cut o p)
  unfolding spawn_producers
  spawned_work iters p zero h = sym (
      range_work_none iters (cut o p) (cut o (p + 0) - cut o p)
        (omega (arith, cut_mono (p + 0) p (omega arith))))
  spawned_work iters p (suc left) h =
      ap₂ bit_xor own (spawned_work iters (p + 1) left (omega arith))
      ∙ ap
          (λ k.
            bit_xor (range_work iters (cut o p) (cut o (p + 1) - cut o p))
              (range_work iters k (cut o (p + 1 + left) - cut o (p + 1))))
          meet
      ∙ sym (
          range_work-add iters (cut o p) (cut o (p + 1) - cut o p)
            (cut o (p + 1 + left) - cut o (p + 1)))
      ∙ ap (range_work iters (cut o p)) joined
    where
      own :
          range_work iters (range_start o p) (range_end o p - range_start o p)
          ≡ range_work iters (cut o p) (cut o (p + 1) - cut o p)
      own =
          ap₂ (λ a b. range_work iters a (b - a)) (range_start-cut p (omega arith))
            (range_end-cut p (omega arith))

      meet : cut o (p + 1) ≡ cut o p + (cut o (p + 1) - cut o p)
      meet = omega (arith, cut_mono p (p + 1) (omega arith))

      last : cut o (p + 1 + left) ≡ cut o (p + suc left)
      last = let same : p + 1 + left ≡ p + suc left = omega arith in ap (cut o) same

      joined :
          cut o (p + 1) - cut o p + (cut o (p + 1 + left) - cut o (p + 1))
          ≡ cut o (p + suc left) - cut o p
      joined = omega (
        arith,
        last,
        cut_mono p (p + 1) (omega arith),
        cut_mono (p + 1) (p + 1 + left) (omega arith),
      )

  -- All the producers together have the work of all the items.
  pub spawned_work_all :
      (iters : ℕ)
      → xor_total (unsent_work iters) (spawn_producers o 0 o.producers)
        ≡ expected_checksum iters o.items
  unfolding expected_checksum
  spawned_work_all iters =
      spawned_work iters 0 o.producers (omega arith)
      ∙ ap₂ (λ a n. range_work iters a n) cut-zero
          (omega (arith, cut-zero, cut-producers, ap (cut o) (add.zero o.producers)))

  -- If the options fit 64 bits, with their product, and there is a producer, then the ranges of the
  -- producers begin at item 0, follow one another without a gap, end at the last item, and each has
  -- items / producers items or one more.
  pub ranges_partition :
      (range_start o 0 ≡ 0)
      × ((p : ℕ) → p + 1 < o.producers → range_end o p ≡ range_start o (p + 1))
      × (range_end o (o.producers - 1) ≡ o.items)
      × ((p : ℕ)
          → p < o.producers
          → (range_start o p + o.items / o.producers ≤ range_end o p)
            × (range_end o p ≤ range_start o p + o.items / o.producers + 1))
  ranges_partition = (
    range_start-cut 0 (omega arith) ∙ cut-zero,
    (λ p h. range_end-cut p (omega arith) ∙ sym (range_start-cut (p + 1) (omega arith))),
    range_end-cut (o.producers - 1) (omega arith) ∙ ap (cut o) last ∙ cut-producers,
    balanced,
  )
    where
      last : o.producers - 1 + 1 ≡ o.producers
      last = omega arith

      balanced :
          (p : ℕ)
          → p < o.producers
          → (range_start o p + o.items / o.producers ≤ range_end o p)
            × (range_end o p ≤ range_start o p + o.items / o.producers + 1)
      balanced p h = omega (
        arith,
        range_start-cut p (omega arith),
        range_end-cut p h,
        div-add_bounds (p * o.items) o.items o.producers some_producer,
        ap (λ t. t / o.producers) (next p),
      )
        where
          next : (q : ℕ) → (q + 1) * o.items ≡ q * o.items + o.items
          next q = omega arith

pub spawn_sending : (o : Options) (p left : ℕ) → total is_sending (spawn_producers o p left) ≡ left
unfolding spawn_producers
spawn_sending o p zero = refl
spawn_sending o p (suc left) = omega (arith, spawn_sending o (p + 1) left)

pub spawn_owed :
    (o : Options) (p left consumers : ℕ) → total (owed consumers) (spawn_producers o p left) ≡ 0
unfolding spawn_producers
spawn_owed o p zero consumers = refl
spawn_owed o p (suc left) consumers = omega (arith, spawn_owed o (p + 1) left consumers)

pub spawn-Fits :
    (o : Options) (p left consumers : ℕ) → All (Fits consumers) (spawn_producers o p left)
unfolding spawn_producers range_end
spawn-Fits o p zero consumers = tt
spawn-Fits o p (suc left) consumers = (
  omega (arith, div-le_self (u64 (u64 (p + 1) * o.items)) o.producers),
  spawn-Fits o (p + 1) left consumers,
)

pub length-spawn_producers : (o : Options) (p left : ℕ) → length (spawn_producers o p left) ≡ left
unfolding spawn_producers
length-spawn_producers o p zero = refl
length-spawn_producers o p (suc left) = ap suc (length-spawn_producers o (p + 1) left)
