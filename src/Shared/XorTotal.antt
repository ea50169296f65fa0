-- ===== src/Shared/XorTotal.antt =====
-- The exclusive or of a weight over a list, and what a write does to it.
use zio_benchmarks.Shared.{
  ℕ, zero, suc, ◌≡◌, refl, sym, ap, ◌∙◌, List, [], ◌∷◌, ◌++◌, some, bit_xor, get_elem?, set,
  replicate, All,
}
use zio_benchmarks.Shared.Xor.{xor_self, xor_assoc, xor_left_comm, zero-xor}

-- `h ^` undoes itself.
pub xor_involutive : (h a : ℕ) → bit_xor h (bit_xor h a) ≡ a
xor_involutive h a = sym (xor_assoc h h a) ∙ ap (λ t. bit_xor t a) (xor_self h) ∙ zero-xor a

pub xor_flip : (h a b : ℕ) → a ≡ bit_xor h b → b ≡ bit_xor h a
xor_flip h a b e = sym (xor_involutive h b) ∙ ap (bit_xor h) (sym e)

-- `h` passes from `a` to `b`.
pub xor_pass : (h a a' b b' : ℕ) → a ≡ bit_xor h a' → b' ≡ bit_xor h b → bit_xor a b ≡ bit_xor a' b'
xor_pass h a a' b b' p q =
    ap (λ t. bit_xor t b) p ∙ xor_assoc h a' b ∙ xor_left_comm h a' b ∙ ap (bit_xor a') (sym q)

-- The same inside a longer exclusive or.
pub xor_pass_left :
    (h a a' b b' r : ℕ)
    → a ≡ bit_xor h a'
    → b' ≡ bit_xor h b
    → bit_xor a (bit_xor b r) ≡ bit_xor a' (bit_xor b' r)
xor_pass_left h a a' b b' r p q =
    sym (xor_assoc a b r) ∙ ap (λ t. bit_xor t r) (xor_pass h a a' b b' p q) ∙ xor_assoc a' b' r

module _ {ℓ} {A : Type ℓ} (w : A → ℕ) where
  abbrev pub xor_total : List A → ℕ
  xor_total [] = 0
  xor_total (x ∷ xs) = bit_xor (w x) (xor_total xs)

  -- If an element gives up `h`, so does the list.
  pub xor_total-set :
      (h : ℕ) (xs : List A) (i : ℕ) (a b : A)
      → get_elem? xs i ≡ some a
      → w a ≡ bit_xor h (w b)
      → xor_total xs ≡ bit_xor h (xor_total (set xs i b))
  xor_total-set h [] i a b e p = cc
  xor_total-set h (x ∷ xs) zero a b e p =
      let same : x ≡ a = cc in
      ap (λ t. bit_xor t (xor_total xs)) (ap w same ∙ p) ∙ xor_assoc h (w b) (xor_total xs)
  xor_total-set h (x ∷ xs) (suc i) a b e p =
      ap (bit_xor (w x)) (xor_total-set h xs i a b e p)
      ∙ xor_left_comm (w x) h (xor_total (set xs i b))

  -- A write that keeps the weight keeps the exclusive or.
  pub xor_total-set_same :
      (xs : List A) (i : ℕ) (a b : A)
      → get_elem? xs i ≡ some a
      → w a ≡ w b
      → xor_total xs ≡ xor_total (set xs i b)
  xor_total-set_same xs i a b e p =
      xor_total-set 0 xs i a b e (p ∙ sym (zero-xor (w b))) ∙ zero-xor (xor_total (set xs i b))

  pub xor_total-append :
      (xs ys : List A) → xor_total (xs ++ ys) ≡ bit_xor (xor_total xs) (xor_total ys)
  xor_total-append [] ys = sym (zero-xor (xor_total ys))
  xor_total-append (x ∷ xs) ys =
      ap (bit_xor (w x)) (xor_total-append xs ys)
      ∙ sym (xor_assoc (w x) (xor_total xs) (xor_total ys))

  pub xor_total-replicate_zero : (n : ℕ) (a : A) → w a ≡ 0 → xor_total (replicate n a) ≡ 0
  xor_total-replicate_zero zero a h = refl
  xor_total-replicate_zero (suc n) a h =
      ap (λ t. bit_xor t (xor_total (replicate n a))) h
      ∙ zero-xor (xor_total (replicate n a))
      ∙ xor_total-replicate_zero n a h

  pub xor_total-All_same : (b : A) (xs : List A) → All (λ a. a ≡ b) xs → w b ≡ 0 → xor_total xs ≡ 0
  xor_total-All_same b [] h z = refl
  xor_total-All_same b (x ∷ xs) h z =
      ap (λ t. bit_xor t (xor_total xs)) (ap w h.0 ∙ z)
      ∙ zero-xor (xor_total xs)
      ∙ xor_total-All_same b xs h.1 z
