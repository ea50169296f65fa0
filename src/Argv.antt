-- ===== src/Argv.antt =====
-- The loop `for (int i = 1; i < argc; i++)` that begins each `main`: it takes the arguments in turn
-- and may end the program.
use zio_benchmarks.Clib.{Bytes}
use zio_benchmarks.Shared.{ℕ, ◌≡◌, refl, ap, List, [], ◌∷◌, ◌++◌}

-- `exits n` is `return n` from `main`; `undefined` is undefined behaviour, of `atoi` out of range.
pub data Parsed {ℓ} (S : Type ℓ) : Type ℓ where
  parsed : S → Parsed S
  exits : ℕ → Parsed S
  undefined : Parsed S

infixl 5 ◌>>=◌
abbrev pub ◌>>=◌ {ℓ κ} : {S : Type ℓ} {T : Type κ} → Parsed S → (S → Parsed T) → Parsed T
parsed s >>= f = f s
exits n >>= f = exits n
undefined >>= f = undefined

-- What is kept where the program goes on.
abbrev pub WhenParsed {ℓ κ} : {S : Type ℓ} → (S → Type κ) → Parsed S → Type κ
WhenParsed P (parsed s) = P s
WhenParsed P (exits n) = Unit
WhenParsed P undefined = Unit

-- The program goes on, or returns `n`.
abbrev pub OnlyExits {ℓ} : {S : Type ℓ} → ℕ → Parsed S → Type 0
OnlyExits n (parsed s) = Unit
OnlyExits n (exits m) = m ≡ n
OnlyExits n undefined = ⊥

module _ {ℓ} {S : Type ℓ} (take_arg : S → Bytes → Parsed S) where
  unfoldable pub for_args : S → List Bytes → Parsed S
  for_args s [] = parsed s
  for_args s (arg ∷ args) = do t ← take_arg s arg; for_args t args

  pub for_args-append :
      (s : S) (xs ys : List Bytes) → for_args s (xs ++ ys) ≡ (for_args s xs >>= λ t. for_args t ys)
  unfolding for_args
  for_args-append s [] ys = refl
  for_args-append s (x ∷ xs) ys = step (take_arg s x) (λ t. for_args-append t xs ys)
    where
      step :
          (r : Parsed S)
          → ((t : S) → for_args t (xs ++ ys) ≡ (for_args t xs >>= λ u. for_args u ys))
          → (r >>= λ t. for_args t (xs ++ ys)) ≡ (r >>= (λ t. for_args t xs) >>= λ t. for_args t ys)
      step (parsed t) h = h t
      step (exits n) h = refl
      step undefined h = refl

  -- An argument that always ends the program with `n` does so wherever it stands, if there is no
  -- other way to end it.
  pub for_args_exits :
      (n : ℕ) (bad : Bytes)
      → ((s : S) (arg : Bytes) → OnlyExits n (take_arg s arg))
      → ((s : S) → take_arg s bad ≡ exits n)
      → (s : S) (xs ys : List Bytes) → for_args s (xs ++ bad ∷ ys) ≡ exits n
  unfolding for_args
  for_args_exits n bad only ends s [] ys = ap (λ r. r >>= λ t. for_args t ys) (ends s)
  for_args_exits n bad only ends s (x ∷ xs) ys =
      step (take_arg s x) (only s x) (λ t. for_args_exits n bad only ends t xs ys)
    where
      step :
          (r : Parsed S)
          → OnlyExits n r
          → ((t : S) → for_args t (xs ++ bad ∷ ys) ≡ exits n)
          → (r >>= λ t. for_args t (xs ++ bad ∷ ys)) ≡ exits n
      step (parsed t) h g = g t
      step (exits m) h g = ap exits h
      step undefined h g = absurd h

  -- What every argument keeps, the loop keeps.
  pub for_args_keeps {κ} :
      (P : S → Type κ)
      → ((s : S) (arg : Bytes) → P s → WhenParsed P (take_arg s arg))
      → (s : S) (args : List Bytes) → P s
      → WhenParsed P (for_args s args)
  unfolding for_args
  for_args_keeps P keeps s [] h = h
  for_args_keeps P keeps s (arg ∷ args) h =
      step (take_arg s arg) (keeps s arg h) (λ t. for_args_keeps P keeps t args)
    where
      step :
          (r : Parsed S)
          → WhenParsed P r
          → ((t : S) → P t → WhenParsed P (for_args t args))
          → WhenParsed P (r >>= λ t. for_args t args)
      step (parsed t) h g = g t h
      step (exits n) h g = tt
      step undefined h g = tt

  -- If no round can end the program but with `n`, neither can the loop.
  pub for_args-OnlyExits :
      (n : ℕ)
      → ((s : S) (arg : Bytes) → OnlyExits n (take_arg s arg))
      → (s : S) (args : List Bytes) → OnlyExits n (for_args s args)
  unfolding for_args
  for_args-OnlyExits n only s [] = tt
  for_args-OnlyExits n only s (arg ∷ args) =
      step (take_arg s arg) (only s arg) (λ t. for_args-OnlyExits n only t args)
    where
      step :
          (r : Parsed S)
          → OnlyExits n r
          → ((t : S) → OnlyExits n (for_args t args))
          → OnlyExits n (r >>= λ t. for_args t args)
      step (parsed t) h g = g t
      step (exits m) h g = h
      step undefined h g = absurd h
