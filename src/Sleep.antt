-- ===== src/Sleep.antt =====
-- The sleep programs, sleep_asio.cpp and sleep_photon.cpp: many tasks sleep once and are counted.
pub mod Asio
pub mod Photon
use zio_benchmarks.Shared.{ℕ}

-- The variables of `main` that the options set.
pub record Options : Type 0 where
  pub tasks : ℕ
  pub sleep_ms : ℕ

abbrev pub defaults : Options
defaults = record { tasks = 10000; sleep_ms = 1 }
