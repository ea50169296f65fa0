-- ===== src/TcpServer/Asio/Requests.antt =====
-- Arguments of tcp_server_asio.cpp in any order and number, and what `main` makes of them.
use zio_benchmarks.Clib.{Bytes, codes, same_string, same_prefix, print_lu}
use zio_benchmarks.Argv.{Parsed, parsed, exits, ◌>>=◌, for_args, for_args-append}
use zio_benchmarks.Shared.{
  ℕ, ◌^◌, ◌<◌, ◌≡◌, ◌⊎◌, inl, inr, refl, ap, ◌∙◌, ◌++◌, false, List, [], ◌∷◌, All,
}
use zio_benchmarks.TcpServer.Asio.{Mode, echo}
use zio_benchmarks.TcpServer.Asio.Args.{
  Settings, take_arg, parse_args, mode_name, threads_arg, port_arg, mode_arg,
}

pub data Request : Type 0 where
  single_thread : Request
  threads : ℕ → Request
  on_port : ℕ → Request
  in_mode : Mode → Request

unfoldable pub print_request : Request → Bytes
print_request single_thread = codes "--st"
print_request (threads n) = codes "--threads=" ++ print_lu n
print_request (on_port n) = codes "--port=" ++ print_lu n
print_request (in_mode m) = codes "--mode=" ++ mode_name m

unfoldable pub print_requests : List Request → List Bytes
print_requests [] = []
print_requests (r ∷ rs) = print_request r ∷ print_requests rs

-- An `int` holds the number of threads, and 16 bits the port.
abbrev pub InRange : Request → Type 0
InRange single_thread = Unit
InRange (threads n) = n < 2 ^ 31
InRange (on_port n) = n < 2 ^ 16
InRange (in_mode m) = Unit

-- The last number of threads that is asked for, or `n` where none is.
unfoldable pub last_threads : ℕ → List Request → ℕ
last_threads n [] = n
last_threads n (single_thread ∷ rs) = last_threads 1 rs
last_threads n (threads k ∷ rs) = last_threads k rs
last_threads n (on_port k ∷ rs) = last_threads n rs
last_threads n (in_mode m ∷ rs) = last_threads n rs

unfoldable pub last_port : ℕ → List Request → ℕ
last_port n [] = n
last_port n (single_thread ∷ rs) = last_port n rs
last_port n (threads k ∷ rs) = last_port n rs
last_port n (on_port k ∷ rs) = last_port k rs
last_port n (in_mode m ∷ rs) = last_port n rs

unfoldable pub last_mode : Mode → List Request → Mode
last_mode n [] = n
last_mode n (single_thread ∷ rs) = last_mode n rs
last_mode n (threads k ∷ rs) = last_mode n rs
last_mode n (on_port k ∷ rs) = last_mode n rs
last_mode n (in_mode m ∷ rs) = last_mode m rs

-- Some settings, and then what the requests change.
abbrev after_requests : Settings → List Request → Settings
after_requests s rs = record {
  num_threads = last_threads s.num_threads rs;
  port = last_port s.port rs;
  mode = last_mode s.mode rs;
}

single_arg : (s : Settings) → take_arg s (codes "--st") ≡ parsed (record s { num_threads = 1 })
unfolding take_arg same_string
single_arg s = refl

-- A round that reads one argument, and the rounds behind it.
read_on :
    (s t : Settings) (arg : Bytes) (args : List Bytes) {out : Parsed Settings}
    → take_arg s arg ≡ parsed t
    → for_args take_arg t args ≡ out
    → for_args take_arg s (arg ∷ args) ≡ out
unfolding for_args
read_on s t arg args read later = ap (λ r. r >>= λ u. for_args take_arg u args) read ∙ later

for_args-print_requests :
    (s : Settings) (rs : List Request)
    → All InRange rs
    → for_args take_arg s (print_requests rs) ≡ parsed (after_requests s rs)
unfolding for_args print_requests print_request last_threads last_port last_mode
for_args-print_requests s [] fit = refl
for_args-print_requests s (single_thread ∷ rs) fit =
    let t = record s { num_threads = 1 } in
    read_on s t (codes "--st") (print_requests rs) (single_arg s)
      (for_args-print_requests t rs fit.1)
for_args-print_requests s (threads n ∷ rs) fit =
    let t = record s { num_threads = n } in
    read_on s t (codes "--threads=" ++ print_lu n) (print_requests rs) (threads_arg s n fit.0)
      (for_args-print_requests t rs fit.1)
for_args-print_requests s (on_port n ∷ rs) fit =
    let t = record s { port = n } in
    read_on s t (codes "--port=" ++ print_lu n) (print_requests rs) (port_arg s n fit.0)
      (for_args-print_requests t rs fit.1)
for_args-print_requests s (in_mode m ∷ rs) fit =
    let t = record s { mode = m } in
    read_on s t (codes "--mode=" ++ mode_name m) (print_requests rs) (mode_arg s m)
      (for_args-print_requests t rs fit.1)

-- `main` reads any sequence of options with numbers in range as the last mode, the last port and the
-- last number of threads that they ask for, where `--st` asks for one thread; without any they are
-- echo, 18800 and the number of cores.
pub parse_args-print_requests :
    (cores : ℕ) (rs : List Request)
    → All InRange rs
    → parse_args cores (print_requests rs)
      ≡ parsed (record {
        num_threads = last_threads cores rs;
        port = last_port 18800 rs;
        mode = last_mode echo rs;
      })
unfolding parse_args
parse_args-print_requests cores rs fit =
    for_args-print_requests (record { num_threads = cores; port = 18800; mode = echo }) rs fit

-- None of the options, or a mode that has none of the three names.
abbrev pub IsRefused : Bytes → Type 0
IsRefused arg =
    ((same_string arg (codes "--st") ≡ false)
      × (same_prefix 10 arg (codes "--threads=") ≡ false)
      × (same_prefix 7 arg (codes "--port=") ≡ false)
      × (same_prefix 7 arg (codes "--mode=") ≡ false))
    ⊎ ((m : Bytes) × (arg ≡ codes "--mode=" ++ m)
        × (same_string m (codes "echo") ≡ false)
        × (same_string m (codes "sink") ≡ false)
        × (same_string m (codes "source") ≡ false))

take_arg_refused : (s : Settings) (bad : Bytes) → IsRefused bad → take_arg s bad ≡ exits 2
unfolding take_arg same_string same_prefix
take_arg_refused s bad (inl (not_st, not_threads, not_port, not_mode)) =
    rw (not_st, not_threads, not_port, not_mode) refl
take_arg_refused s bad (inr (m, same, not_echo, not_sink, not_source)) =
    ap (take_arg s) same ∙ rw (not_echo, not_sink, not_source) refl

-- Behind any sequence of options with numbers in range, an argument that is none of them, or asks for
-- a mode of another name, makes `main` return 2, whatever stands behind it.
pub parse_args_refused :
    (cores : ℕ) (rs : List Request) (bad : Bytes) (args : List Bytes)
    → All InRange rs
    → IsRefused bad
    → parse_args cores (print_requests rs ++ bad ∷ args) ≡ exits 2
unfolding parse_args for_args
parse_args_refused cores rs bad args fit refused =
    let first : Settings = record { num_threads = cores; port = 18800; mode = echo } in
    for_args-append take_arg first (print_requests rs) (bad ∷ args)
    ∙ ap (λ r. r >>= λ t. for_args take_arg t (bad ∷ args)) (for_args-print_requests first rs fit)
    ∙ ap (λ r. r >>= λ t. for_args take_arg t args)
        (take_arg_refused (after_requests first rs) bad refused)
