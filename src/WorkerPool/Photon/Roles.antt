-- ===== src/WorkerPool/Photon/Roles.antt =====
-- How the weights of a thread of the Photon worker pool bound one another.
use zio_benchmarks.Shared.{ℕ, ◌+◌, ◌≤◌, ◌≡◌, arith, refl}
use zio_benchmarks.WorkerPool.Buffer.{is_sentinel}
use zio_benchmarks.WorkerPool.Photon.{
  Pushing, reserving, locking, writing, posting, fetching, entering, reading, freeing, Thread,
  producing, produced, consuming, leaving, signing, consumed, awaiting_producers, stopping,
  awaiting_consumers, ended,
}
use zio_benchmarks.WorkerPool.Photon.Weights.{
  reserved, pending, ready, is_consumer, is_consuming, is_busy, is_stopped, is_main, in_main,
}

is_sentinel-le : (v : ℕ) → is_sentinel v ≤ 1
is_sentinel-le v = ground arith

-- What is taken or missing is with a thread that is ready.
pub reserved-le_ready : (t : Thread) → reserved t + pending t ≤ ready t
reserved-le_ready (producing i e reserving) = omega arith
reserved-le_ready (producing i e locking) = omega arith
reserved-le_ready (producing i e writing) = omega arith
reserved-le_ready (producing i e posting) = omega arith
reserved-le_ready produced = omega arith
reserved-le_ready (consuming acc fetching) = omega arith
reserved-le_ready (consuming acc entering) = omega arith
reserved-le_ready (consuming acc reading) = omega arith
reserved-le_ready (consuming acc (freeing v)) = omega arith
reserved-le_ready (leaving acc) = omega arith
reserved-le_ready signing = omega arith
reserved-le_ready consumed = omega arith
reserved-le_ready awaiting_producers = omega arith
reserved-le_ready (stopping c reserving) = omega arith
reserved-le_ready (stopping c locking) = omega arith
reserved-le_ready (stopping c writing) = omega arith
reserved-le_ready (stopping c posting) = omega arith
reserved-le_ready awaiting_consumers = omega arith
reserved-le_ready ended = omega arith

-- A consumer that is not ready is in its loop.
pub is_busy-le : (t : Thread) → is_busy t ≤ is_consuming t + ready t
is_busy-le (producing i e pc) = omega arith
is_busy-le produced = omega arith
is_busy-le (consuming acc pc) = omega arith
is_busy-le (leaving acc) = omega arith
is_busy-le signing = omega arith
is_busy-le consumed = omega arith
is_busy-le awaiting_producers = omega arith
is_busy-le (stopping c pc) = omega arith
is_busy-le awaiting_consumers = omega arith
is_busy-le ended = omega arith

pub is_consumer-le : (t : Thread) → is_consumer t ≤ is_busy t + is_stopped t
is_consumer-le (producing i e pc) = omega arith
is_consumer-le produced = omega arith
is_consumer-le (consuming acc pc) = omega arith
is_consumer-le (leaving acc) = omega arith
is_consumer-le signing = omega arith
is_consumer-le consumed = omega arith
is_consumer-le awaiting_producers = omega arith
is_consumer-le (stopping c pc) = omega arith
is_consumer-le awaiting_consumers = omega arith
is_consumer-le ended = omega arith

pub is_stopped-le : (t : Thread) → is_stopped t + is_busy t ≤ is_consumer t + ready t
is_stopped-le (producing i e pc) = omega arith
is_stopped-le produced = omega arith
is_stopped-le (consuming acc fetching) = omega arith
is_stopped-le (consuming acc entering) = omega arith
is_stopped-le (consuming acc reading) = omega arith
is_stopped-le (consuming acc (freeing v)) = omega (arith, is_sentinel-le v)
is_stopped-le (leaving acc) = omega arith
is_stopped-le signing = omega arith
is_stopped-le consumed = omega arith
is_stopped-le awaiting_producers = omega arith
is_stopped-le (stopping c pc) = omega arith
is_stopped-le awaiting_consumers = omega arith
is_stopped-le ended = omega arith

-- Two weights that share out the parts of `main` between them.
module _ (a b c d a' b' c' d' : ℕ) (before : a + a' ≡ 1) (push : b + b' ≡ 1) (behind : c + c' ≡ 1)
    (last : d + d' ≡ 1) where
  pub is_main-split :
      (t : Thread) → is_main t ≡ in_main a (λ n pc. b) c d t + in_main a' (λ n pc. b') c' d' t
  is_main-split (producing i e pc) = omega arith
  is_main-split produced = omega arith
  is_main-split (consuming acc pc) = omega arith
  is_main-split (leaving acc) = omega arith
  is_main-split signing = omega arith
  is_main-split consumed = omega arith
  is_main-split awaiting_producers = omega arith
  is_main-split (stopping n pc) = omega arith
  is_main-split awaiting_consumers = omega arith
  is_main-split ended = omega arith

-- A weight of `main` that is only where another is.
module _ (a b c d a' c' d' : ℕ) (push : ℕ → Pushing → ℕ) (before : a ≡ 0 → a' ≡ 0)
    (inside : b ≡ 0 → (n : ℕ) (pc : Pushing) → push n pc ≡ 0) (behind : c ≡ 0 → c' ≡ 0)
    (last : d ≡ 0 → d' ≡ 0) where
  pub in_main_none : (t : Thread) → in_main a (λ n pc. b) c d t ≡ 0 → in_main a' push c' d' t ≡ 0
  in_main_none (producing i e pc) h = refl
  in_main_none produced h = refl
  in_main_none (consuming acc pc) h = refl
  in_main_none (leaving acc) h = refl
  in_main_none signing h = refl
  in_main_none consumed h = refl
  in_main_none awaiting_producers h = before h
  in_main_none (stopping n pc) h = inside h n pc
  in_main_none awaiting_consumers h = behind h
  in_main_none ended h = last h
