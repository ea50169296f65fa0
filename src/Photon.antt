-- ===== src/Photon.antt =====
-- The primitives of PhotonLibOS that cpp/ only calls: `photon::semaphore` and `photon::mutex`, as
-- parameters with their documented behaviour. A `wait` or `lock` that does not complete (`none`)
-- leaves the coroutine suspended: it is tried again later.
pub mod Counting
use zio_benchmarks.Shared.{ℕ, ◌+◌, ◌<◌, ◌≡◌, Bool, true, false, Option, none, some}

pub record Photon : Type 1 where
  pub Sem : Type 0
  pub make : ℕ → Sem
  pub wait : ℕ → Sem → Option Sem
  pub signal : ℕ → Sem → Sem
  -- The value of a semaphore.
  pub count : Sem → ℕ
  pub count-make : (n : ℕ) → count (make n) ≡ n
  pub wait_done : (n : ℕ) (s t : Sem) → wait n s ≡ some t → count s ≡ count t + n
  pub wait_blocked : (n : ℕ) (s : Sem) → wait n s ≡ none → count s < n
  pub count-signal : (n : ℕ) (s : Sem) → count (signal n s) ≡ count s + n
  pub Mutex : Type 0
  pub free : Mutex
  pub lock : Mutex → Option Mutex
  pub unlock : Mutex → Mutex
  -- Whether a coroutine holds the mutex.
  pub is_locked : Mutex → Bool
  pub is_locked-free : is_locked free ≡ false
  pub lock_done : (m k : Mutex) → lock m ≡ some k → (is_locked m ≡ false) × (is_locked k ≡ true)
  pub lock_blocked : (m : Mutex) → lock m ≡ none → is_locked m ≡ true
  pub is_locked-unlock : (m : Mutex) → is_locked (unlock m) ≡ false
