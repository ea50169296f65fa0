-- ===== src/TcpServer/Photon/Requests.antt =====
-- Arguments of tcp_server_photon.cpp in any order and number, and how `main` ends or comes to its loop.
use zio_benchmarks.Clib.{Bytes, codes, same_string, same_prefix, print_lu}
use zio_benchmarks.Clib.Decimal.{atoi-print_lu}
use zio_benchmarks.Argv.{Parsed, parsed, exits, ◌>>=◌, for_args, for_args-append}
use zio_benchmarks.Shared.{
  ℕ, ◌%◌, ◌^◌, ◌<◌, ◌≡◌, ◌⊎◌, inl, inr, refl, ap, ◌∙◌, ◌++◌, Bool, true, false, List, [], ◌∷◌, All,
  if◌then◌else◌, ◌==◌, arith,
}
use zio_benchmarks.TcpServer.Asio.{Mode, echo, sink, source}
use zio_benchmarks.TcpServer.Asio.Args.{mode_name}
use zio_benchmarks.TcpServer.Photon.Args.{
  Settings, defaults, take_arg, set_mode, parse_args, Host, prepare,
}

pub data Request : Type 0 where
  with_uring : Request
  on_port : ℕ → Request
  in_mode : Mode → Request

unfoldable pub print_request : Request → Bytes
print_request with_uring = codes "--uring"
print_request (on_port n) = codes "--port=" ++ print_lu n
print_request (in_mode m) = codes "--mode=" ++ mode_name m

unfoldable pub print_requests : List Request → List Bytes
print_requests [] = []
print_requests (r ∷ rs) = print_request r ∷ print_requests rs

abbrev pub InRange : Request → Type 0
InRange with_uring = Unit
InRange (on_port n) = n < 2 ^ 16
InRange (in_mode m) = Unit

-- Whether io_uring is asked for, or was before.
unfoldable pub asks_uring : Bool → List Request → Bool
asks_uring b [] = b
asks_uring b (with_uring ∷ rs) = asks_uring true rs
asks_uring b (on_port k ∷ rs) = asks_uring b rs
asks_uring b (in_mode m ∷ rs) = asks_uring b rs

-- The last port that is asked for, or `n` where none is.
unfoldable pub last_port : ℕ → List Request → ℕ
last_port n [] = n
last_port n (with_uring ∷ rs) = last_port n rs
last_port n (on_port k ∷ rs) = last_port k rs
last_port n (in_mode m ∷ rs) = last_port n rs

unfoldable pub last_mode : Mode → List Request → Mode
last_mode n [] = n
last_mode n (with_uring ∷ rs) = last_mode n rs
last_mode n (on_port k ∷ rs) = last_mode n rs
last_mode n (in_mode m ∷ rs) = last_mode m rs

abbrev after_requests : Settings → List Request → Settings
after_requests s rs = record {
  uring = asks_uring s.uring rs;
  port = last_port s.port rs;
  mode = last_mode s.mode rs;
}

uring_arg : (s : Settings) → take_arg s (codes "--uring") ≡ parsed (record s { uring = true })
unfolding take_arg same_string
uring_arg s = refl

port_arg :
    (s : Settings) (n : ℕ)
    → n < 2 ^ 16
    → take_arg s (codes "--port=" ++ print_lu n) ≡ parsed (record s { port = n })
unfolding take_arg same_string same_prefix
port_arg s n fits =
    let same : n % 2 ^ 16 ≡ n = omega arith in
    rw (atoi-print_lu n (omega arith)) (ap (λ k. parsed (record s { port = k })) same)

named_mode : (s : Settings) (m : Mode) → set_mode s (mode_name m) ≡ parsed (record s { mode = m })
unfolding same_string
named_mode s echo = refl
named_mode s sink = refl
named_mode s source = refl

mode_arg :
    (s : Settings) (m : Mode)
    → take_arg s (codes "--mode=" ++ mode_name m) ≡ parsed (record s { mode = m })
unfolding take_arg same_string same_prefix
mode_arg s m = named_mode s m

read_on :
    (s t : Settings) (arg : Bytes) (args : List Bytes) {out : Parsed Settings}
    → take_arg s arg ≡ parsed t
    → for_args take_arg t args ≡ out
    → for_args take_arg s (arg ∷ args) ≡ out
unfolding for_args
read_on s t arg args read later = ap (λ r. r >>= λ u. for_args take_arg u args) read ∙ later

for_args-print_requests :
    (s : Settings) (rs : List Request)
    → All InRange rs
    → for_args take_arg s (print_requests rs) ≡ parsed (after_requests s rs)
unfolding for_args print_requests print_request asks_uring last_port last_mode
for_args-print_requests s [] fit = refl
for_args-print_requests s (with_uring ∷ rs) fit =
    let t = record s { uring = true } in
    read_on s t (codes "--uring") (print_requests rs) (uring_arg s)
      (for_args-print_requests t rs fit.1)
for_args-print_requests s (on_port n ∷ rs) fit =
    let t = record s { port = n } in
    read_on s t (codes "--port=" ++ print_lu n) (print_requests rs) (port_arg s n fit.0)
      (for_args-print_requests t rs fit.1)
for_args-print_requests s (in_mode m ∷ rs) fit =
    let t = record s { mode = m } in
    read_on s t (codes "--mode=" ++ mode_name m) (print_requests rs) (mode_arg s m)
      (for_args-print_requests t rs fit.1)

-- What a sequence of options asks for.
abbrev pub asked : List Request → Settings
asked rs = record {
  uring = asks_uring false rs;
  port = last_port 18800 rs;
  mode = last_mode echo rs;
}

-- Photon starts, and the port can be bound and listened on.
abbrev pub IsServing : Host → Settings → Type 0
IsServing host t = (host.init t.uring ≡ 0) × (host.bind t.port ≡ 0) × (host.listen 4096 ≡ 0)

-- Behind the argument loop.
opening :
    (host : Host) (s : Settings) (r : Parsed Settings)
    → r ≡ (
        if host.init s.uring == 0
        then (if host.bind s.port == 0
            then (if host.listen 4096 == 0 then parsed s else exits 1)
            else exits 1)
        else exits 1)
    → ((r ≡ parsed s) × IsServing host s) ⊎ ((r ≡ exits 1) × (¬ IsServing host s))
opening host s r e = ground arith

-- After any sequence of options with ports in range, `main` comes to its loop with io_uring if they
-- ask for it, the last port and the last mode, by default 18800 and echo, where Photon starts with
-- that engine and the port can be bound and listened on; otherwise it returns 1.
pub prepare-print_requests :
    (host : Host) (rs : List Request)
    → All InRange rs
    → ((prepare host (print_requests rs) ≡ parsed (asked rs)) × IsServing host (asked rs))
      ⊎ ((prepare host (print_requests rs) ≡ exits 1) × (¬ IsServing host (asked rs)))
unfolding prepare parse_args
prepare-print_requests host rs fit =
    opening host (asked rs) (prepare host (print_requests rs))
      (rw (for_args-print_requests defaults rs fit) refl)

-- None of the options, or a mode that has none of the three names.
abbrev pub IsRefused : Bytes → Type 0
IsRefused arg =
    ((same_string arg (codes "--uring") ≡ false)
      × (same_prefix 7 arg (codes "--port=") ≡ false)
      × (same_prefix 7 arg (codes "--mode=") ≡ false))
    ⊎ ((m : Bytes) × (arg ≡ codes "--mode=" ++ m)
        × (same_string m (codes "echo") ≡ false)
        × (same_string m (codes "sink") ≡ false)
        × (same_string m (codes "source") ≡ false))

take_arg_refused : (s : Settings) (bad : Bytes) → IsRefused bad → take_arg s bad ≡ exits 2
unfolding take_arg same_string same_prefix
take_arg_refused s bad (inl (not_uring, not_port, not_mode)) =
    rw (not_uring, not_port, not_mode) refl
take_arg_refused s bad (inr (m, same, not_echo, not_sink, not_source)) =
    ap (take_arg s) same ∙ rw (not_echo, not_sink, not_source) refl

-- Behind any sequence of options with ports in range, an argument that is none of them, or asks for a
-- mode of another name, makes `main` return 2, whatever stands behind it, and whether Photon would
-- start or the port could be bound or not.
pub prepare_refused :
    (host : Host) (rs : List Request) (bad : Bytes) (args : List Bytes)
    → All InRange rs
    → IsRefused bad
    → prepare host (print_requests rs ++ bad ∷ args) ≡ exits 2
unfolding prepare parse_args for_args
prepare_refused host rs bad args fit refused = rw read refl
  where
    read : for_args take_arg defaults (print_requests rs ++ bad ∷ args) ≡ exits 2
    read =
        for_args-append take_arg defaults (print_requests rs) (bad ∷ args)
        ∙ ap (λ r. r >>= λ t. for_args take_arg t (bad ∷ args))
            (for_args-print_requests defaults rs fit)
        ∙ ap (λ r. r >>= λ t. for_args take_arg t args)
            (take_arg_refused (after_requests defaults rs) bad refused)
