-- ===== src/Photon/Counting.antt =====
-- A semaphore as a number and a mutex as a flag, which behave as the documentation says.
use zio_benchmarks.Photon.{Photon}
use zio_benchmarks.Shared.{
  ℕ, ◌+◌, ◌-◌, ◌<◌, ◌≡◌, refl, Bool, true, false, Option, none, some, arith, leb, if◌then◌else◌,
}

abbrev pub count_wait : ℕ → ℕ → Option ℕ
count_wait n s = if leb n s then some (s - n) else none

abbrev pub flag_lock : Bool → Option Bool
flag_lock b = if b then none else some true

pub count_wait_done : (n s t : ℕ) → count_wait n s ≡ some t → s ≡ t + n
count_wait_done n s t h = ground arith

pub count_wait_blocked : (n s : ℕ) → count_wait n s ≡ none → s < n
count_wait_blocked n s h = ground arith

pub flag_lock_done : (m k : Bool) → flag_lock m ≡ some k → (m ≡ false) × (k ≡ true)
flag_lock_done m k h = ground arith

pub flag_lock_blocked : (m : Bool) → flag_lock m ≡ none → m ≡ true
flag_lock_blocked m h = ground arith

abbrev pub counting : Photon
counting = record {
  Sem = ℕ;
  make = λ n. n;
  wait = count_wait;
  signal = λ n s. s + n;
  count = λ s. s;
  count-make = λ n. refl;
  wait_done = count_wait_done;
  wait_blocked = count_wait_blocked;
  count-signal = λ n s. refl;
  Mutex = Bool;
  free = false;
  lock = flag_lock;
  unlock = λ m. false;
  is_locked = λ m. m;
  is_locked-free = refl;
  lock_done = flag_lock_done;
  lock_blocked = flag_lock_blocked;
  is_locked-unlock = λ m. refl;
}
