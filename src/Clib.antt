-- ===== src/Clib.antt =====
-- What the programs use of the C library: `strcmp`, `strncmp`, `strtoull`, `atoi`, and `printf` of
-- `%lu`. A string is the list of its bytes before the terminating 0.
pub mod Decimal
use Prim.Native.Char.{code}
use Prim.Native.String.{String}
use zio_benchmarks.Shared.{
  ℕ, zero, suc, ◌+◌, ◌-◌, ◌*◌, ◌/◌, ◌%◌, ◌^◌, Bool, true, false, ◌&&◌, ◌||◌, List, [], ◌∷◌, Option,
  none, some, ltb, leb, ◌==◌, if◌then◌else◌,
}
use zio_benchmarks.Shared.Words.{u64, u64_mod}

abbrev pub Bytes : Type 0
Bytes = List ℕ

-- A literal of the source.
abbrev pub codes : String → Bytes
codes String.[] = []
codes (String.◌∷◌ c s) = code c ∷ codes s

-- `!strncmp(s, t, n)`
unfoldable pub same_prefix : ℕ → Bytes → Bytes → Bool
same_prefix zero s t = true
same_prefix (suc n) [] [] = true
same_prefix (suc n) [] (y ∷ t) = false
same_prefix (suc n) (x ∷ s) [] = false
same_prefix (suc n) (x ∷ s) (y ∷ t) = x == y && same_prefix n s t

-- `!strcmp(s, t)`
unfoldable pub same_string : Bytes → Bytes → Bool
same_string [] [] = true
same_string [] (y ∷ t) = false
same_string (x ∷ s) [] = false
same_string (x ∷ s) (y ∷ t) = x == y && same_string s t

-- `isspace` and `isdigit` in the "C" locale.
abbrev pub is_space : ℕ → Bool
is_space c = c == 32 || (leb 9 c && leb c 13)

abbrev pub is_digit : ℕ → Bool
is_digit c = leb b'0' c && leb c b'9'

unfoldable pub skip_spaces : Bytes → Bytes
skip_spaces [] = []
skip_spaces (c ∷ s) = if is_space c then skip_spaces s else c ∷ s

-- The number that the digits at the front of `s` continue `n` to, without any limit.
unfoldable pub read_digits : ℕ → Bytes → ℕ
read_digits n [] = n
read_digits n (c ∷ s) =
    let more = read_digits (n * 10 + (c - b'0')) s in if is_digit c then more else n

-- An optional sign, then digits: whether the sign is `-`, and the number.
unfoldable pub read_signed : Bytes → Bool × ℕ
unfolding read_digits
read_signed [] = (false, 0)
read_signed (c ∷ s) =
    if c == b'-'
    then (true, read_digits 0 s)
    else (if c == b'+' then (false, read_digits 0 s) else (false, read_digits 0 (c ∷ s)))

-- A number beyond `ULLONG_MAX` gives `ULLONG_MAX`; a `-` negates modulo 2^64.
unfoldable pub to_ull : Bool × ℕ → ℕ
to_ull (negative, n) =
    if ltb n u64_mod then (if negative then u64 (u64_mod - n) else n) else u64_mod - 1

-- `strtoull(s, nullptr, 10)`
unfoldable pub strtoull : Bytes → ℕ
unfolding skip_spaces read_signed to_ull
strtoull s = to_ull (read_signed (skip_spaces s))

-- An `int` as its 32 bits in two's complement; the behaviour is undefined (`none`) out of range.
unfoldable pub to_int : Bool × ℕ → Option ℕ
to_int (true, n) = if leb n (2 ^ 31) then some ((2 ^ 32 - n) % 2 ^ 32) else none
to_int (false, n) = if ltb n (2 ^ 31) then some n else none

-- `atoi(s)`
unfoldable pub atoi : Bytes → Option ℕ
unfolding skip_spaces read_signed to_int
atoi s = to_int (read_signed (skip_spaces s))

-- `printf("%lu", n)`, from the last digit on; `fuel` bounds the digits.
unfoldable pub print_digits : ℕ → ℕ → Bytes → Bytes
print_digits zero n out = out
print_digits (suc fuel) n out =
    let more = print_digits fuel (n / 10) ((b'0' + n % 10) ∷ out) in
    if ltb n 10 then (b'0' + n) ∷ out else more

-- More digits than 20 are never printed: `n` is below 2^64.
unfoldable pub print_lu : ℕ → Bytes
unfolding print_digits
print_lu n = print_digits 20 n []
