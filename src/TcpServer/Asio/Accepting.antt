-- ===== src/TcpServer/Asio/Accepting.antt =====
-- `server` of tcp_server_asio.cpp: it accepts connections until an `accept` fails, and each connection
-- has its own handler. The events come in any order, on one thread or several.
mod Runs
mod Echoing
mod Tests
use zio_benchmarks.Shared.{ℕ, true, false, List, [], ◌∷◌, ◌++◌, if◌then◌else◌}
use zio_benchmarks.TcpServer.Connections.{Event, accepted, refused, came, Server, deliver}
use zio_benchmarks.TcpServer.Asio.{Mode, Outcome, Connection, start, resume}

-- The handler of a connection goes on to its next `co_await`.
abbrev pub go_on : Mode → Connection → Outcome → Connection
go_on mode c e = resume mode c c.waiting e

abbrev pub server_step : Mode → Server Connection → Event Outcome → Server Connection
server_step mode s accepted =
    if s.accepting then record s { connections = s.connections ++ start mode ∷ [] } else s
server_step mode s refused = record s { accepting = false }
server_step mode s (came i e) = record s { connections = deliver (go_on mode) s.connections i e }

unfoldable pub server : Mode → Server Connection → List (Event Outcome) → Server Connection
server mode s [] = s
server mode s (e ∷ es) = server mode (server_step mode s e) es
