-- ===== src/TcpServer/Asio/Accepting/Echoing.antt =====
-- The connections of a tcp_server_asio.cpp that echoes.
use mathlib.Core.Option as Option
use zio_benchmarks.Shared.{ℕ, ◌≡◌, sym, subst, ◌∙◌, List, Option, none, some, get_elem?}
use zio_benchmarks.TcpServer.Connections.{Event, no_connections}
use zio_benchmarks.TcpServer.Asio.{echo, Outcome, Connection, start, handler}
use zio_benchmarks.TcpServer.Asio.Echo.{Owes, echoes_in_order}
use zio_benchmarks.TcpServer.Asio.Accepting.{server}
use zio_benchmarks.TcpServer.Asio.Accepting.Runs.{histories, served_alone}

run_back :
    (h : Option (List Outcome)) (c : Connection)
    → Option.map (handler echo (start echo)) h ≡ some c
    → Owes c c.waiting
run_back none c e = cc e
run_back (some es) c e =
    let same : handler echo (start echo) es ≡ c = cc e in
    subst (λ d. Owes d d.waiting) same (echoes_in_order es)

-- Whatever happens to the server and its connections, in any order, each connection of an echo server
-- sends back what it receives itself, in order: all of it when it awaits a read, all but the bytes of
-- the write that it awaits, and if it was closed all but some last bytes.
pub connections_echo :
    (es : List (Event Outcome)) (i : ℕ) (c : Connection)
    → get_elem? (server echo no_connections es).connections i ≡ some c
    → Owes c c.waiting
connections_echo es i c at =
    run_back (get_elem? (histories 0 es) i) c (sym (served_alone echo es i) ∙ at)
