-- ===== src/TcpServer/Photon/Accepting.antt =====
-- The loop of `main` of tcp_server_photon.cpp over `accept`, with a thread for each connection. The
-- program ends, and every connection with it, when `accept` returns no stream.
mod Runs
mod Tests
use zio_benchmarks.Shared.{ℕ, true, false, List, [], ◌∷◌, ◌++◌, if◌then◌else◌}
use zio_benchmarks.TcpServer.Connections.{Event, accepted, refused, came, Server, deliver}
use zio_benchmarks.TcpServer.Asio.{Mode, Connection, start}
use zio_benchmarks.TcpServer.Photon.{Returned, proceed}

-- The thread of a connection goes on to its next call.
abbrev pub go_on : Mode → Connection → Returned → Connection
go_on mode c r = proceed mode c c.waiting r

abbrev pub main_step : Mode → Server Connection → Event Returned → Server Connection
main_step mode s accepted =
    if s.accepting then record s { connections = s.connections ++ start mode ∷ [] } else s
main_step mode s refused = record s { accepting = false }
main_step mode s (came i r) =
    if s.accepting then record s { connections = deliver (go_on mode) s.connections i r } else s

unfoldable pub main_loop : Mode → Server Connection → List (Event Returned) → Server Connection
main_loop mode s [] = s
main_loop mode s (e ∷ es) = main_loop mode (main_step mode s e) es

-- What happens before `accept` returns no stream.
abbrev pub before_refused : {E : Type 0} → List (Event E) → List (Event E)
before_refused [] = []
before_refused (accepted ∷ es) = accepted ∷ before_refused es
before_refused (refused ∷ es) = []
before_refused (came i r ∷ es) = came i r ∷ before_refused es
