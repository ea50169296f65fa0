-- ===== src/TcpServer/Photon/Tests.antt =====
-- A small connection of tcp_server_photon.cpp, and its options.
use zio_benchmarks.Clib.{codes, same_string, same_prefix}
use zio_benchmarks.Shared.{
  ◌≡◌, ◌⊎◌, inl, refl, if◌then◌else◌, ◌==◌, ◌++◌, List, [], ◌∷◌, All, arith,
}
use zio_benchmarks.Argv.{parsed, exits}
use zio_benchmarks.TcpServer.Asio.{echo, start}
use zio_benchmarks.TcpServer.Asio.Echo.{Owes}
use zio_benchmarks.TcpServer.Photon.{Returned, received, written, serve}
use zio_benchmarks.TcpServer.Photon.Echo.{serves_in_order}
use zio_benchmarks.TcpServer.Photon.Args.{Host, prepare}
use zio_benchmarks.TcpServer.Photon.Requests.{
  Request, with_uring, on_port, InRange, print_requests, last_port, asked, IsServing, IsRefused,
  prepare-print_requests, prepare_refused,
}

-- The second write is cut short.
abbrev results : List Returned
results = received (1 ∷ 2 ∷ []) ∷ written 2 ∷ received (3 ∷ 4 ∷ []) ∷ written 1 ∷ []

served : (serve echo (start echo) results).sent ≡ 1 ∷ 2 ∷ 3 ∷ []
unfolding serve start
served = refl

serves_in_order_example :
    Owes (serve echo (start echo) results) (serve echo (start echo) results).waiting
serves_in_order_example = serves_in_order results

-- A host on which one port is taken.
abbrev host : Host
host = record {
  init = λ uring. 0;
  bind = λ port. if port == 80 then 1 else 0;
  listen = λ backlog. 0;
}

-- Port 80 is asked for last.
abbrev requests : List Request
requests = on_port 90 ∷ with_uring ∷ on_port 80 ∷ []

requests-InRange : All InRange requests
requests-InRange = omega arith

prepare-print_requests_example :
    ((prepare host (print_requests requests) ≡ parsed (asked requests))
      × IsServing host (asked requests))
    ⊎ ((prepare host (print_requests requests) ≡ exits 1) × (¬ IsServing host (asked requests)))
prepare-print_requests_example = prepare-print_requests host requests requests-InRange

port_taken : ¬ IsServing host (asked requests)
unfolding last_port
port_taken h = omega (arith, h.1)

help-IsRefused : IsRefused (codes "--help")
unfolding same_string same_prefix
help-IsRefused = inl (refl, refl, refl)

help_refused :
    prepare host (print_requests requests ++ codes "--help" ∷ codes "--uring" ∷ []) ≡ exits 2
help_refused =
    prepare_refused host requests (codes "--help") (codes "--uring" ∷ []) requests-InRange
      help-IsRefused
