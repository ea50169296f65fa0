-- ===== src/TcpServer/Photon.antt =====
-- tcp_server_photon.cpp: one thread for each connection. The stream is the sequence of what `recv` and
-- `write` return: the bytes that came or the number that went, or a negative number.
mod Echo
pub mod Args
mod Requests
mod Accepting
mod Tests
use zio_benchmarks.Shared.{ℕ, zero, suc, List, [], ◌∷◌, ◌++◌, length, if◌then◌else◌, ◌==◌}
use zio_benchmarks.Clib.{Bytes}
use zio_benchmarks.TcpServer.Asio.{
  Mode, echo, sink, source, Connection, Waiting, reading, writing, closed, take,
}

-- No byte is received at the end of the stream.
pub data Returned : Type 0 where
  received : Bytes → Returned
  written : ℕ → Returned
  negative : Returned

-- Behind `recv`, whose bytes are still to be tested for the end of the stream.
abbrev pub after_recv : Mode → Bytes → Waiting
after_recv echo bs = if length bs == 0 then closed else writing bs
after_recv sink bs = if length bs == 0 then closed else reading
after_recv source bs = reading

-- Behind a `write` of `bs` that returned `n`.
abbrev pub behind_write : Mode → Bytes → ℕ → Waiting
behind_write echo bs n = if n == length bs then reading else closed
behind_write sink bs n = reading
behind_write source bs n = if n == length bs then writing bs else closed

-- A call returns. One that the handler has not made changes nothing.
abbrev pub proceed : Mode → Connection → Waiting → Returned → Connection
proceed mode c reading (received bs) = record c {
  waiting = after_recv mode bs;
  received = c.received ++ bs;
}
proceed mode c reading (written n) = c
proceed mode c reading negative = record c { waiting = closed }
proceed mode c (writing bs) (received cs) = c
proceed mode c (writing bs) (written n) = record c {
  waiting = behind_write mode bs n;
  sent = c.sent ++ take n bs;
}
proceed mode c (writing bs) negative = record c { waiting = closed }
proceed mode c closed r = c

unfoldable pub serve : Mode → Connection → List Returned → Connection
serve mode c [] = c
serve mode c (r ∷ rs) = serve mode (proceed mode c c.waiting r) rs
