-- ===== src/WorkerPool/Expected.antt =====
-- What the checksum of a run should be: the exclusive or of the work on each item, and how a range
-- of items splits. Items are numbered from 0; the value sent for item `i` is `i + 1`.
use Prim.Native.Nat.add
use zio_benchmarks.Shared.{ℕ, zero, suc, ◌+◌, ◌-◌, ◌<◌, ◌≡◌, sym, ap, ap₂, ◌∙◌, bit_xor, arith}
use zio_benchmarks.Shared.Xor.{zero-xor, xor_assoc}
use zio_benchmarks.WorkerPool.Hash.{work}

-- The work on the `n` items from item `i` on.
pub range_work : ℕ → ℕ → ℕ → ℕ
range_work iters i zero = 0
range_work iters i (suc n) = bit_xor (work (i + 1) iters) (range_work iters (i + 1) n)

unfoldable pub expected_checksum : ℕ → ℕ → ℕ
expected_checksum iters items = range_work iters 0 items

pub range_work-add :
    (iters i m n : ℕ)
    → range_work iters i (m + n) ≡ bit_xor (range_work iters i m) (range_work iters (i + m) n)
unfolding range_work
range_work-add iters i zero n =
    let same : i ≡ i + 0 = omega arith in
    ap (λ k. range_work iters i k) (add.zero n)
    ∙ sym (zero-xor (range_work iters i n))
    ∙ ap (λ k. bit_xor 0 (range_work iters k n)) same
range_work-add iters i (suc m) n =
    let same : i + 1 + m ≡ i + suc m = omega arith in
    ap (λ k. range_work iters i k) (add.suc m n)
    ∙ ap (bit_xor (work (i + 1) iters)) (range_work-add iters (i + 1) m n)
    ∙ sym (
        xor_assoc (work (i + 1) iters) (range_work iters (i + 1) m)
          (range_work iters (i + 1 + m) n))
    ∙ ap (λ k. bit_xor (range_work iters i (suc m)) (range_work iters k n)) same

-- The first item of a range that is not empty.
range_work_first :
    (iters i n : ℕ)
    → 0 < n
    → range_work iters i n ≡ bit_xor (work (i + 1) iters) (range_work iters (i + 1) (n - 1))
unfolding range_work
range_work_first iters i zero h = absurd (omega arith)
range_work_first iters i (suc n) h =
    let same : n ≡ suc n - 1 = omega arith in
    ap (λ k. bit_xor (work (i + 1) iters) (range_work iters (i + 1) k)) same

pub range_work-next :
    (iters i end v : ℕ)
    → i < end
    → v ≡ i + 1
    → range_work iters i (end - i) ≡ bit_xor (work v iters) (range_work iters v (end - v))
range_work-next iters i end v below e =
    let fewer : end - i - 1 ≡ end - v = omega arith in
    range_work_first iters i (end - i) (omega arith)
    ∙ ap₂ (λ k n. bit_xor (work k iters) (range_work iters k n)) (sym e) fewer

pub range_work_none : (iters i n : ℕ) → n ≡ 0 → range_work iters i n ≡ 0
unfolding range_work
range_work_none iters i n h = ap (range_work iters i) h
