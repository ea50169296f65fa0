-- ===== src/WorkerPool/Photon/Slots.antt =====
-- The array of `Queue` in worker_pool_photon.cpp, with its two counters, which only grow and wrap at
-- 2^64: a first-in first-out queue of up to 256 values.
use zio_benchmarks.Shared.{
  ℕ, zero, suc, ◌+◌, ◌%◌, ◌^◌, ◌≤◌, ◌<◌, ◌≡◌, refl, ap, ap₂, ◌∙◌, List, [], ◌∷◌, ◌++◌, arith,
  length, length-set, get_or, set, get_or-set_self, get_or-set_ne,
}
use zio_benchmarks.Shared.Words.{u64, sub64}

abbrev pub capacity : ℕ
capacity = 256

pub record Ring : Type 0 where
  pub buf : List ℕ
  pub head : ℕ
  pub tail : ℕ

-- What the array holds at the start is not known: `buf` has no initial value.
unfoldable pub new_ring : List ℕ → Ring
new_ring buf = record { buf = buf; head = 0; tail = 0 }

-- `buf[tail++ % CAP] = v`
unfoldable pub write_slot : Ring → ℕ → Ring
write_slot r v = record r { buf = set r.buf (r.tail % capacity) v; tail = u64 (r.tail + 1) }

-- `v = buf[head++ % CAP]`
unfoldable pub read_slot : Ring → Ring × ℕ
read_slot r = (record r { head = u64 (r.head + 1) }, get_or r.buf (r.head % capacity) 0)

-- How many values are in the ring: `tail - head` in 64 bits.
abbrev pub used : Ring → ℕ
used r = sub64 r.tail r.head

-- The `n` values from counter `h` on.
abbrev pub window : List ℕ → ℕ → ℕ → List ℕ
window buf h zero = []
window buf h (suc n) = get_or buf (h % capacity) 0 ∷ window buf (u64 (h + 1)) n

-- The values in the ring, oldest first.
abbrev pub contents : Ring → List ℕ
contents r = window r.buf r.head (used r)

pub record IsValid (r : Ring) : Type 0 where
  pub sized : length r.buf ≡ capacity
  pub head_fits : r.head < 2 ^ 64
  pub tail_fits : r.tail < 2 ^ 64
  pub within : used r ≤ capacity

-- Writing at a counter that the window has not reached leaves the window alone.
window-set_outside :
    (buf : List ℕ) (v n h t : ℕ)
    → h < 2 ^ 64
    → t < 2 ^ 64
    → n ≤ sub64 t h
    → sub64 t h < capacity
    → window (set buf (t % capacity) v) h n ≡ window buf h n
window-set_outside buf v zero h t hh ht short room = refl
window-set_outside buf v (suc n) h t hh ht short room =
    ap₂ ◌∷◌ (get_or-set_ne buf v 0 (omega arith))
      (window-set_outside buf v n (u64 (h + 1)) t (omega arith) ht (omega arith) (omega arith))

-- A window that ends with the counter `t` has the slot of `t` as its last value.
window-last :
    (buf : List ℕ) (n h t : ℕ)
    → h < 2 ^ 64
    → t < 2 ^ 64
    → sub64 t h ≡ n
    → window buf h (suc n) ≡ window buf h n ++ get_or buf (t % capacity) 0 ∷ []
window-last buf zero h t hh ht reach =
    let same : h ≡ t = omega arith in ap (λ k. get_or buf (k % capacity) 0 ∷ []) same
window-last buf (suc n) h t hh ht reach =
    ap (◌∷◌ (get_or buf (h % capacity) 0))
      (window-last buf n (u64 (h + 1)) t (omega arith) ht (omega arith))

length-window : (buf : List ℕ) (h n : ℕ) → length (window buf h n) ≡ n
length-window buf h zero = refl
length-window buf h (suc n) = ap suc (length-window buf (u64 (h + 1)) n)

pub length-contents : (r : Ring) → length (contents r) ≡ used r
length-contents r = length-window r.buf r.head (used r)

module _ {r : Ring} (ok : IsValid r) where
  open ok use {sized, head_fits, tail_fits, within}

  -- A write to a ring that is not full adds one value at the end, and loses none.
  pub write_slot_lem :
      (v : ℕ)
      → used r < capacity
      → IsValid (write_slot r v)
        × (contents (write_slot r v) ≡ contents r ++ v ∷ [])
        × (used (write_slot r v) ≡ used r + 1)
  unfolding write_slot
  write_slot_lem v room = (
    record {
      sized = length-set r.buf (r.tail % capacity) v ∙ sized;
      head_fits = head_fits;
      tail_fits = omega arith;
      within = omega arith;
    },
    ap (window written r.head) longer
        ∙ window-last written (used r) r.head r.tail head_fits tail_fits refl
        ∙ ap₂ (λ ws w. ws ++ w ∷ [])
            (window-set_outside r.buf v (used r) r.head r.tail head_fits tail_fits (omega arith)
              room)
            (get_or-set_self r.buf (r.tail % capacity) v 0 (omega arith)),
    omega arith,
  )
    where
      written : List ℕ
      written = set r.buf (r.tail % capacity) v

      longer : used (write_slot r v) ≡ suc (used r)
      longer = omega arith

  -- A read from a ring that is not empty takes the oldest value.
  pub read_slot_lem :
      0 < used r
      → IsValid (read_slot r).0
        × (contents r ≡ (read_slot r).1 ∷ contents (read_slot r).0)
        × (used r ≡ used (read_slot r).0 + 1)
  unfolding read_slot
  read_slot_lem loaded = (
    record { sized = sized; head_fits = omega arith; tail_fits = tail_fits; within = omega arith },
    ap (window r.buf r.head) fewer,
    omega arith,
  )
    where
      fewer : used r ≡ suc (sub64 r.tail (u64 (r.head + 1)))
      fewer = omega arith

-- The new ring is empty, whatever its array holds.
pub new_ring_lem :
    (buf : List ℕ) → length buf ≡ capacity → IsValid (new_ring buf) × (contents (new_ring buf) ≡ [])
unfolding new_ring
new_ring_lem buf sized = (
  record { sized = sized; head_fits = omega arith; tail_fits = omega arith; within = omega arith },
  refl,
)
