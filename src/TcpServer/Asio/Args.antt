-- ===== src/TcpServer/Asio/Args.antt =====
-- The options of tcp_server_asio.cpp.
use zio_benchmarks.Clib.{Bytes, codes, same_string, same_prefix, atoi, print_lu}
use zio_benchmarks.Clib.Decimal.{atoi-print_lu}
use zio_benchmarks.Argv.{Parsed, parsed, exits, undefined, for_args}
use zio_benchmarks.Shared.{
  ℕ, ◌%◌, ◌^◌, ◌<◌, ◌≡◌, refl, ap, ◌++◌, arith, Option, none, some, List, [], ◌∷◌, if◌then◌else◌,
  drop,
}
use zio_benchmarks.TcpServer.Asio.{Mode, echo, sink, source}

pub record Settings : Type 0 where
  pub num_threads : ℕ
  pub port : ℕ
  pub mode : Mode

-- `num_threads = atoi(...)`, an `unsigned`, and `port = atoi(...)`, a `uint16_t`.
abbrev pub set_threads : Settings → Option ℕ → Parsed Settings
set_threads s none = undefined
set_threads s (some n) = parsed (record s { num_threads = n % 2 ^ 32 })

abbrev pub set_port : Settings → Option ℕ → Parsed Settings
set_port s none = undefined
set_port s (some n) = parsed (record s { port = n % 2 ^ 16 })

abbrev pub set_mode : Settings → Bytes → Parsed Settings
set_mode s m =
    if same_string m (codes "echo")
    then parsed (record s { mode = echo })
    else (if same_string m (codes "sink")
        then parsed (record s { mode = sink })
        else (if same_string m (codes "source")
            then parsed (record s { mode = source })
            else exits 2))

unfoldable pub take_arg : Settings → Bytes → Parsed Settings
take_arg s arg =
    if same_string arg (codes "--st")
    then parsed (record s { num_threads = 1 })
    else (if same_prefix 10 arg (codes "--threads=")
        then set_threads s (atoi (drop 10 arg))
        else (if same_prefix 7 arg (codes "--port=")
            then set_port s (atoi (drop 7 arg))
            else (if same_prefix 7 arg (codes "--mode=")
                then set_mode s (drop 7 arg)
                else exits 2)))

-- `cores` is what `std::thread::hardware_concurrency` returns.
unfoldable pub parse_args : ℕ → List Bytes → Parsed Settings
unfolding take_arg for_args
parse_args cores args =
    for_args take_arg (record { num_threads = cores; port = 18800; mode = echo }) args

abbrev pub mode_name : Mode → Bytes
mode_name echo = codes "echo"
mode_name sink = codes "sink"
mode_name source = codes "source"

-- The arguments that ask for some settings.
pub print_server : Settings → List Bytes
print_server s =
    (codes "--threads=" ++ print_lu s.num_threads)
    ∷ (codes "--port=" ++ print_lu s.port)
    ∷ (codes "--mode=" ++ mode_name s.mode)
    ∷ []

named_mode : (s : Settings) (m : Mode) → set_mode s (mode_name m) ≡ parsed (record s { mode = m })
unfolding same_string
named_mode s echo = refl
named_mode s sink = refl
named_mode s source = refl

pub threads_arg :
    (s : Settings) (n : ℕ)
    → n < 2 ^ 31
    → take_arg s (codes "--threads=" ++ print_lu n) ≡ parsed (record s { num_threads = n })
unfolding take_arg same_string same_prefix
threads_arg s n fits =
    let same : n % 2 ^ 32 ≡ n = omega arith in
    rw (atoi-print_lu n fits) (ap (λ k. parsed (record s { num_threads = k })) same)

pub port_arg :
    (s : Settings) (n : ℕ)
    → n < 2 ^ 16
    → take_arg s (codes "--port=" ++ print_lu n) ≡ parsed (record s { port = n })
unfolding take_arg same_string same_prefix
port_arg s n fits =
    let same : n % 2 ^ 16 ≡ n = omega arith in
    rw (atoi-print_lu n (omega arith)) (ap (λ k. parsed (record s { port = k })) same)

pub mode_arg :
    (s : Settings) (m : Mode)
    → take_arg s (codes "--mode=" ++ mode_name m) ≡ parsed (record s { mode = m })
unfolding take_arg same_string same_prefix
mode_arg s m = named_mode s m
