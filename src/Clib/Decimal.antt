-- ===== src/Clib/Decimal.antt =====
-- `strtoull` and `atoi` read what `printf` writes, and `strtoull` stays in its type.
use native.Mathlib.Nat.{pow-suc}
use zio_benchmarks.Clib.{
  Bytes, is_digit, skip_spaces, read_digits, read_signed, to_ull, strtoull, atoi, print_digits,
  print_lu,
}
use zio_benchmarks.Shared.{
  ℕ, zero, suc, ◌+◌, ◌-◌, ◌*◌, ◌/◌, ◌%◌, ◌^◌, ◌<◌, ◌≡◌, refl, ap, ◌∙◌, Bool, true, false, [], ◌∷◌,
  some, All, arith, Bool-cases, ltb, inl, inr,
}

-- `strtoull` returns a 64-bit number, whatever the text.
pub strtoull-lt : (s : Bytes) → strtoull s < 2 ^ 64
unfolding strtoull
strtoull-lt s = fits (read_signed (skip_spaces s))
  where
    fits : (r : Bool × ℕ) → to_ull r < 2 ^ 64
    fits (true, n) = ground arith
    fits (false, n) = ground arith

read_digits-nil : (n : ℕ) → read_digits n [] ≡ n
unfolding read_digits
read_digits-nil n = refl

read_digits-digit :
    (n d k : ℕ) (s : Bytes)
    → d < 10
    → n * 10 + d ≡ k
    → read_digits n ((b'0' + d) ∷ s) ≡ read_digits k s
unfolding read_digits
read_digits-digit n d k s h e =
    let digit : is_digit (b'0' + d) ≡ true = ground arith in
    let next : n * 10 + (b'0' + d - b'0') ≡ k = omega arith in rw (digit, next)

print_digits-read :
    (fuel n : ℕ) (out : Bytes)
    → n < 10 ^ fuel
    → read_digits 0 (print_digits fuel n out) ≡ read_digits n out
unfolding print_digits
print_digits-read zero n out h =
    let none_left : 0 ≡ n = omega arith in ap (λ k. read_digits k out) none_left
print_digits-read (suc fuel) n out h = elim (Bool-cases (ltb n 10)) [
  | inl last ↦ rw last (read_digits-digit 0 n n out (ground arith) (omega arith))
  | inr more ↦ rw more (
      print_digits-read fuel (n / 10) _ (omega (arith, pow-suc 10 fuel))
      ∙ read_digits-digit (n / 10) (n % 10) n out (omega arith) (omega arith))
]

print_digits-All :
    (fuel n : ℕ) (out : Bytes)
    → All (λ c. is_digit c ≡ true) out
    → All (λ c. is_digit c ≡ true) (print_digits fuel n out)
unfolding print_digits
print_digits-All zero n out h = h
print_digits-All (suc fuel) n out h = elim (Bool-cases (ltb n 10)) [
  | inl last ↦ rw last (ground arith, h)
  | inr more ↦ rw more (print_digits-All fuel (n / 10) _ (ground arith, h))
]

-- Text that begins with a digit has neither space nor sign to skip.
read_signed-digits :
    (s : Bytes)
    → All (λ c. is_digit c ≡ true) s
    → read_signed (skip_spaces s) ≡ (false, read_digits 0 s)
unfolding read_signed skip_spaces
read_signed-digits [] h = refl
read_signed-digits (c ∷ s) h = ground arith

read_signed-print : (n : ℕ) → n < 2 ^ 64 → read_signed (skip_spaces (print_lu n)) ≡ (false, n)
unfolding print_lu
read_signed-print n h =
    read_signed-digits (print_digits 20 n []) (print_digits-All 20 n [] tt)
    ∙ ap (λ k. (false, k)) (print_digits-read 20 n [] (omega arith) ∙ read_digits-nil n)

-- `strtoull` reads back every 64-bit number that `printf` writes.
pub strtoull-print_lu : (n : ℕ) → n < 2 ^ 64 → strtoull (print_lu n) ≡ n
unfolding strtoull
strtoull-print_lu n h = rw (read_signed-print n h) (ground arith)

-- `atoi` reads back every number that an `int` holds.
pub atoi-print_lu : (n : ℕ) → n < 2 ^ 31 → atoi (print_lu n) ≡ some n
unfolding atoi
atoi-print_lu n h = rw (read_signed-print n (omega arith)) (ground arith)
