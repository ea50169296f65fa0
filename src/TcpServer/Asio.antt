-- ===== src/TcpServer/Asio.antt =====
-- tcp_server_asio.cpp: one coroutine for each connection. The socket is the sequence of what its
-- operations come to: a read that got some bytes, a write that is complete, or an exception. The
-- handler begins behind `sock.set_option`; where that throws, `detached` drops the exception and the
-- connection is closed, as it is where its first operation fails with no byte transferred.
pub mod Args
mod Requests
pub mod Accepting
pub mod Starting
pub mod Echo
mod OneWay
mod Tests
use zio_benchmarks.Shared.{ℕ, zero, suc, List, [], ◌∷◌, ◌++◌, replicate}
use zio_benchmarks.Clib.{Bytes}

abbrev pub buf_size : ℕ
buf_size = 65536

pub data Mode : Type 0 where
  echo : Mode
  sink : Mode
  source : Mode

-- `failed n` is an exception. A write has transferred `n` bytes by then, a read none.
pub data Outcome : Type 0 where
  got : Bytes → Outcome
  wrote : Outcome
  failed : ℕ → Outcome

abbrev pub take : ℕ → Bytes → Bytes
take zero bs = []
take (suc n) [] = []
take (suc n) (b ∷ bs) = b ∷ take n bs

-- The operation that the handler awaits, and the bytes that it writes.
pub data Waiting : Type 0 where
  reading : Waiting
  writing : Bytes → Waiting
  closed : Waiting

pub record Connection : Type 0 where
  pub waiting : Waiting
  pub received : Bytes
  pub sent : Bytes

-- `std::vector<char> buf(BUF_SIZE)` is all zeros.
unfoldable pub block : Bytes
block = replicate buf_size 0

unfoldable pub start : Mode → Connection
unfolding block
start echo = record { waiting = reading; received = []; sent = [] }
start sink = record { waiting = reading; received = []; sent = [] }
start source = record { waiting = writing block; received = []; sent = [] }

-- What the handler does when a read comes back: it writes the bytes, or reads on.
abbrev pub after_read : Mode → Bytes → Waiting
after_read echo bs = writing bs
after_read sink bs = reading
after_read source bs = reading

-- What it does when a write comes back.
abbrev pub after_write : Mode → Bytes → Waiting
after_write echo bs = reading
after_write sink bs = reading
after_write source bs = writing bs

-- An operation comes back. One that the handler does not await changes nothing.
abbrev pub resume : Mode → Connection → Waiting → Outcome → Connection
resume mode c reading (got bs) = record c {
  waiting = after_read mode bs;
  received = c.received ++ bs;
}
resume mode c reading wrote = c
resume mode c reading (failed n) = record c { waiting = closed }
resume mode c (writing bs) (got cs) = c
resume mode c (writing bs) wrote = record c { waiting = after_write mode bs; sent = c.sent ++ bs }
resume mode c (writing bs) (failed n) = record c { waiting = closed; sent = c.sent ++ take n bs }
resume mode c closed outcome = c

unfoldable pub handler : Mode → Connection → List Outcome → Connection
handler mode c [] = c
handler mode c (e ∷ es) = handler mode (resume mode c c.waiting e) es
