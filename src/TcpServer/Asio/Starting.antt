-- ===== src/TcpServer/Asio/Starting.antt =====
-- `main` of tcp_server_asio.cpp around its options: the acceptor, which throws where the port cannot be
-- bound or listened on, and the threads that run the context.
use zio_benchmarks.Clib.{Bytes}
use zio_benchmarks.Argv.{Parsed, parsed, exits, undefined}
use zio_benchmarks.Shared.{
  ℕ, zero, suc, ◌+◌, ◌-◌, ◌≤◌, ◌≡◌, ◌↔◌, ◌⊎◌, inl, inr, refl, Bool, true, List, ltb, if◌then◌else◌,
  arith,
}
use zio_benchmarks.TcpServer.Asio.Args.{Settings, parse_args}

-- Whether the constructor of the acceptor returns for a port, and `listen` for a backlog.
pub record Host : Type 0 where
  pub binds : ℕ → Bool
  pub listens : ℕ → Bool

-- `main` serves, returns, has undefined behaviour, or throws.
pub data Started : Type 0 where
  serving : Settings → Started
  returns : ℕ → Started
  no_meaning : Started
  uncaught : Started

abbrev pub listen_on : Host → Parsed Settings → Started
listen_on host (parsed s) =
    if host.binds s.port then (if host.listens 4096 then serving s else uncaught) else uncaught
listen_on host (exits n) = returns n
listen_on host undefined = no_meaning

unfoldable pub start_server : ℕ → Host → List Bytes → Started
start_server cores host args = listen_on host (parse_args cores args)

-- `for (unsigned i = 1; i < num_threads; i++)`, which starts a thread each time; `fuel` bounds the
-- rounds.
unfoldable pub threads_from : ℕ → ℕ → ℕ → ℕ
threads_from zero i num_threads = 0
threads_from (suc fuel) i num_threads =
    let more = threads_from fuel (i + 1) num_threads in if ltb i num_threads then 1 + more else 0

-- With the thread of `main`.
unfoldable pub runners : ℕ → ℕ
unfolding threads_from
runners num_threads = 1 + threads_from num_threads 1 num_threads

threads_from_lem :
    (fuel i num_threads : ℕ)
    → num_threads - i ≤ fuel
    → threads_from fuel i num_threads ≡ num_threads - i
unfolding threads_from
threads_from_lem zero i num_threads enough = omega arith
threads_from_lem (suc fuel) i num_threads enough =
    let later = threads_from_lem fuel (i + 1) num_threads (omega arith) in ground arith

-- As many threads run the context as asked for, and one where none is asked for.
pub runners_lem :
    (num_threads : ℕ)
    → (runners num_threads ≡ num_threads) ⊎ ((num_threads ≡ 0) × (runners num_threads ≡ 1))
unfolding runners
runners_lem zero = inr (refl, omega (arith, threads_from_lem 0 1 0 (omega arith)))
runners_lem (suc n) = inl (omega (arith, threads_from_lem (suc n) 1 (suc n) (omega arith)))

listen_on_lem :
    (host : Host) (r : Parsed Settings) (t : Settings)
    → (listen_on host r ≡ serving t)
      ↔ ((r ≡ parsed t) × (host.binds t.port ≡ true) × (host.listens 4096 ≡ true))
listen_on_lem host (parsed s) t = ((λ h. ground arith), λ h. ground arith)
listen_on_lem host (exits n) t = ((λ h. cc h), λ h. cc h.0)
listen_on_lem host undefined t = ((λ h. cc h), λ h. cc h.0)

-- `main` serves with some settings exactly if its arguments say so and the port can be bound and
-- listened on.
pub start_server_lem :
    (cores : ℕ) (host : Host) (args : List Bytes) (t : Settings)
    → (start_server cores host args ≡ serving t) ↔ (
        (parse_args cores args ≡ parsed t)
        × (host.binds t.port ≡ true)
        × (host.listens 4096 ≡ true))
unfolding start_server
start_server_lem cores host args t = listen_on_lem host (parse_args cores args) t
