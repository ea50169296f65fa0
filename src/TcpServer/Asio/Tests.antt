-- ===== src/TcpServer/Asio/Tests.antt =====
-- Small connections of tcp_server_asio.cpp, and its options.
use zio_benchmarks.Argv.{parsed, exits}
use zio_benchmarks.Clib.{codes, same_string}
use zio_benchmarks.TcpServer.Asio.Requests.{
  Request, single_thread, threads, on_port, in_mode, InRange, print_requests, last_threads,
  last_port, last_mode, IsRefused, parse_args-print_requests, parse_args_refused,
}
use zio_benchmarks.Shared.{◌≡◌, refl, inr, All, List, [], ◌∷◌, ◌++◌, arith}
use zio_benchmarks.TcpServer.Asio.{echo, sink, source, Outcome, got, wrote, failed, start, handler}
use zio_benchmarks.TcpServer.Asio.Echo.{Owes, echoes_in_order}
use zio_benchmarks.TcpServer.Asio.OneWay.{incoming, outgoing, zeros, one_way}
use zio_benchmarks.TcpServer.Asio.Args.{Settings, parse_args}

-- Two messages; the answer to the second fails.
abbrev outcomes : List Outcome
outcomes = got (1 ∷ 2 ∷ []) ∷ wrote ∷ got (3 ∷ []) ∷ failed 0 ∷ []

echoed : (handler echo (start echo) outcomes).sent ≡ 1 ∷ 2 ∷ []
unfolding handler start
echoed = refl

echoes_in_order_example :
    Owes (handler echo (start echo) outcomes) (handler echo (start echo) outcomes).waiting
echoes_in_order_example = echoes_in_order outcomes

one_way_example :
    ((handler sink (start sink) outcomes).sent ≡ [])
    × ((handler sink (start sink) outcomes).received ≡ incoming outcomes)
    × ((handler source (start source) outcomes).received ≡ [])
    × ((handler source (start source) outcomes).sent ≡ zeros (outgoing 65536 outcomes))
one_way_example = one_way outcomes

taken_in : incoming outcomes ≡ 1 ∷ 2 ∷ 3 ∷ []
unfolding incoming
taken_in = refl

-- One write is complete, and three bytes of the next one have gone.
cut_short : outgoing 65536 (wrote ∷ failed 3 ∷ []) ≡ 65539
unfolding outgoing
cut_short = omega arith

abbrev local : Settings
local = record { num_threads = 1; port = 8080; mode = sink }

-- Options that are asked for twice.
abbrev requests : List Request
requests = threads 4 ∷ on_port 80 ∷ in_mode source ∷ single_thread ∷ in_mode sink ∷ []

requests-InRange : All InRange requests
requests-InRange = omega arith

parse_args-print_requests_example :
    parse_args 8 (print_requests requests)
    ≡ parsed (record {
      num_threads = last_threads 8 requests;
      port = last_port 18800 requests;
      mode = last_mode echo requests;
    })
parse_args-print_requests_example = parse_args-print_requests 8 requests requests-InRange

last_wins : (last_threads 8 requests ≡ 1) × (last_port 18800 requests ≡ 80)
unfolding last_threads last_port
last_wins = (refl, refl)

silent-IsRefused : IsRefused (codes "--mode=silent")
unfolding same_string
silent-IsRefused = inr (codes "silent", refl, refl, refl, refl)

silent_refused : parse_args 8 (print_requests requests ++ codes "--mode=silent" ∷ []) ≡ exits 2
silent_refused =
    parse_args_refused 8 requests (codes "--mode=silent") [] requests-InRange silent-IsRefused
