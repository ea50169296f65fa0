-- ===== src/WorkerPool/Buffer.antt =====
-- The values in the shared queue of a worker pool: items, which are not 0, and stop sentinels, 0.
use zio_benchmarks.Shared.{
  ℕ, ◌+◌, ◌<◌, ◌≡◌, refl, ap, ◌∙◌, List, [], ◌∷◌, ◌++◌, bit_xor, total, length, ◌==◌, if◌then◌else◌,
  arith,
}
use zio_benchmarks.Shared.Xor.{xor-zero, zero-xor, xor_comm}
use zio_benchmarks.Shared.XorTotal.{xor_total, xor_total-append}
use zio_benchmarks.WorkerPool.Hash.{work}

abbrev pub is_sentinel : ℕ → ℕ
is_sentinel v = if v == 0 then 1 else 0

abbrev pub is_item : ℕ → ℕ
is_item v = if v == 0 then 0 else 1

-- What a consumer adds to its accumulator for a value.
abbrev pub value_work : ℕ → ℕ → ℕ
value_work iters v = if v == 0 then 0 else work v iters

-- No item stands behind a sentinel.
abbrev pub ItemsFirst : List ℕ → Type 0
ItemsFirst [] = Unit
ItemsFirst (v ∷ vs) = (v ≡ 0 → total is_item vs ≡ 0) × ItemsFirst vs

pub total-append : (w : ℕ → ℕ) (xs ys : List ℕ) → total w (xs ++ ys) ≡ total w xs + total w ys
total-append w [] ys = omega arith
total-append w (x ∷ xs) ys = omega (arith, total-append w xs ys)

pub ItemsFirst-sentinel : (vs : List ℕ) → ItemsFirst vs → ItemsFirst (vs ++ 0 ∷ [])
ItemsFirst-sentinel [] h = (λ _. refl, tt)
ItemsFirst-sentinel (v ∷ vs) h =
    ((λ z. omega (arith, total-append is_item vs (0 ∷ []), h.0 z)), ItemsFirst-sentinel vs h.1)

pub ItemsFirst-item : (vs : List ℕ) (v : ℕ) → total is_sentinel vs ≡ 0 → ItemsFirst (vs ++ v ∷ [])
ItemsFirst-item [] v h = (λ _. refl, tt)
ItemsFirst-item (x ∷ vs) v h = (λ z. absurd (ground arith), ItemsFirst-item vs v (omega arith))

-- Every value is an item or a sentinel.
pub length-total : (vs : List ℕ) → length vs ≡ total is_item vs + total is_sentinel vs
length-total [] = refl
length-total (v ∷ vs) = ground (arith, length-total vs)

work-append_one :
    (iters : ℕ) (vs : List ℕ) (v : ℕ)
    → xor_total (value_work iters) (vs ++ v ∷ [])
      ≡ bit_xor (xor_total (value_work iters) vs) (value_work iters v)
work-append_one iters vs v =
    xor_total-append (value_work iters) vs (v ∷ [])
    ∙ ap (bit_xor (xor_total (value_work iters) vs)) (xor-zero (value_work iters v))

pub work-append_item :
    (iters : ℕ) (vs : List ℕ) (v : ℕ)
    → 0 < v
    → xor_total (value_work iters) (vs ++ v ∷ [])
      ≡ bit_xor (work v iters) (xor_total (value_work iters) vs)
work-append_item iters vs v h =
    let item : value_work iters v ≡ work v iters = ground arith in
    work-append_one iters vs v
    ∙ ap (bit_xor (xor_total (value_work iters) vs)) item
    ∙ xor_comm (xor_total (value_work iters) vs) (work v iters)

pub work-append_sentinel :
    (iters : ℕ) (vs : List ℕ)
    → xor_total (value_work iters) (vs ++ 0 ∷ []) ≡ xor_total (value_work iters) vs
work-append_sentinel iters vs =
    work-append_one iters vs 0 ∙ xor-zero (xor_total (value_work iters) vs)

-- A buffer of sentinels alone has no work in it.
pub work_no_items :
    (iters : ℕ) (vs : List ℕ) → total is_item vs ≡ 0 → xor_total (value_work iters) vs ≡ 0
work_no_items iters [] h = refl
work_no_items iters (v ∷ vs) h =
    let idle : value_work iters v ≡ 0 = ground arith in
    ap (λ t. bit_xor t (xor_total (value_work iters) vs)) idle
    ∙ zero-xor (xor_total (value_work iters) vs)
    ∙ work_no_items iters vs (ground arith)
