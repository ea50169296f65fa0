-- ===== src/TcpServer/Photon/Accepting/Tests.antt =====
-- A connection of an echo server, cut off by the end of the program.
use zio_benchmarks.Shared.{◌≡◌, refl, List, [], ◌∷◌, some, get_elem?}
use zio_benchmarks.TcpServer.Connections.{
  Event, accepted, refused, came, no_connections, for_connection,
}
use zio_benchmarks.TcpServer.Asio.{echo, start}
use zio_benchmarks.TcpServer.Photon.{Returned, received, written, serve}
use zio_benchmarks.TcpServer.Photon.Accepting.{main_loop, before_refused}
use zio_benchmarks.TcpServer.Photon.Accepting.Runs.{streams_alone}

abbrev events : List (Event Returned)
events = came 0 (received (7 ∷ [])) ∷ accepted ∷ refused ∷ came 0 (written 1) ∷ []

streams_alone_example :
    get_elem? (main_loop echo no_connections (accepted ∷ events)).connections 0
    ≡ some (serve echo (start echo) (for_connection 0 (before_refused events)))
streams_alone_example = streams_alone echo no_connections events refl

cut_off : (serve echo (start echo) (for_connection 0 (before_refused events))).sent ≡ []
unfolding serve start
cut_off = refl
