-- ===== src/TcpServer/Photon/Args.antt =====
-- The options of tcp_server_photon.cpp, and what can end `main` before its loop.
use zio_benchmarks.Clib.{Bytes, codes, same_string, same_prefix, atoi}
use zio_benchmarks.Argv.{Parsed, parsed, exits, undefined, ◌>>=◌, for_args}
use zio_benchmarks.Shared.{
  ℕ, ◌%◌, ◌^◌, Bool, true, false, Option, none, some, List, if◌then◌else◌, drop, ◌==◌,
}
use zio_benchmarks.TcpServer.Asio.{Mode, echo, sink, source}

-- Whether the engine is io_uring, with signals, the port, and the mode.
pub record Settings : Type 0 where
  pub uring : Bool
  pub port : ℕ
  pub mode : Mode

abbrev pub defaults : Settings
defaults = record { uring = false; port = 18800; mode = echo }

-- `port = atoi(...)`, a `uint16_t`.
abbrev pub set_port : Settings → Option ℕ → Parsed Settings
set_port s none = undefined
set_port s (some n) = parsed (record s { port = n % 2 ^ 16 })

abbrev pub set_mode : Settings → Bytes → Parsed Settings
set_mode s m =
    if same_string m (codes "echo")
    then parsed (record s { mode = echo })
    else (if same_string m (codes "sink")
        then parsed (record s { mode = sink })
        else (if same_string m (codes "source")
            then parsed (record s { mode = source })
            else exits 2))

unfoldable pub take_arg : Settings → Bytes → Parsed Settings
take_arg s arg =
    if same_string arg (codes "--uring")
    then parsed (record s { uring = true })
    else (if same_prefix 7 arg (codes "--port=")
        then set_port s (atoi (drop 7 arg))
        else (if same_prefix 7 arg (codes "--mode=") then set_mode s (drop 7 arg) else exits 2))

unfoldable pub parse_args : List Bytes → Parsed Settings
unfolding take_arg for_args
parse_args args = for_args take_arg defaults args

-- What `photon::init` returns for an engine, `bind` for a port, and `listen`; 0 is success.
pub record Host : Type 0 where
  pub init : Bool → ℕ
  pub bind : ℕ → ℕ
  pub listen : ℕ → ℕ

-- `main` up to its loop.
unfoldable pub prepare : Host → List Bytes → Parsed Settings
unfolding parse_args
prepare host args = parse_args args >>= λ s.
    if host.init s.uring == 0
    then (if host.bind s.port == 0
        then (if host.listen 4096 == 0 then parsed s else exits 1)
        else exits 1)
    else exits 1
