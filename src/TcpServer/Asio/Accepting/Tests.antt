-- ===== src/TcpServer/Asio/Accepting/Tests.antt =====
-- Two connections of an echo server, one after the other.
use mathlib.Core.Option as Option
use zio_benchmarks.Shared.{◌≡◌, refl, List, [], ◌∷◌, some, get_elem?}
use zio_benchmarks.TcpServer.Connections.{Event, accepted, refused, came, no_connections}
use zio_benchmarks.TcpServer.Asio.{echo, writing, Outcome, got, wrote, Connection, start, handler}
use zio_benchmarks.TcpServer.Asio.Echo.{Owes}
use zio_benchmarks.TcpServer.Asio.Accepting.{server}
use zio_benchmarks.TcpServer.Asio.Accepting.Runs.{histories, served_alone}
use zio_benchmarks.TcpServer.Asio.Accepting.Echoing.{connections_echo}

-- The third one that would be accepted comes too late.
abbrev events : List (Event Outcome)
events =
    accepted
    ∷ came 0 (got (7 ∷ []))
    ∷ accepted
    ∷ came 1 (got (9 ∷ []))
    ∷ came 0 wrote
    ∷ refused
    ∷ accepted
    ∷ []

came_back : histories 0 events ≡ (got (7 ∷ []) ∷ wrote ∷ []) ∷ (got (9 ∷ []) ∷ []) ∷ []
unfolding histories
came_back = refl

served_alone_example :
    get_elem? (server echo no_connections events).connections 1
    ≡ Option.map (handler echo (start echo)) (get_elem? (histories 0 events) 1)
served_alone_example = served_alone echo events 1

abbrev second : Connection
second = record { waiting = writing (9 ∷ []); received = 9 ∷ []; sent = [] }

second_there : get_elem? (server echo no_connections events).connections 1 ≡ some second
unfolding server start
second_there = refl

second_echoes : Owes second (writing (9 ∷ []))
second_echoes = connections_echo events 1 second second_there
