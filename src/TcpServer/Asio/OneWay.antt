-- ===== src/TcpServer/Asio/OneWay.antt =====
-- What a sink and a source of tcp_server_asio.cpp have sent and received after any sequence of outcomes.
use Prim.Native.Nat.{min}
use zio_benchmarks.Shared.{
  ℕ, zero, suc, ◌+◌, ◌≡◌, refl, sym, ap, ◌∙◌, List, [], ◌∷◌, ◌++◌, replicate, arith,
}
use zio_benchmarks.Clib.{Bytes}
use zio_benchmarks.TcpServer.Asio.{
  Mode, sink, source, Outcome, got, wrote, failed, reading, writing, closed, Connection, block,
  start, resume, handler, take,
}
use zio_benchmarks.TcpServer.Asio.Echo.{append-nil, append_assoc}

-- What comes in before the first exception.
unfoldable pub incoming : List Outcome → Bytes
incoming [] = []
incoming (got bs ∷ es) = bs ++ incoming es
incoming (wrote ∷ es) = incoming es
incoming (failed n ∷ es) = []

-- How many bytes go out before the first exception, where each write is of `size` bytes, and with
-- the one that it interrupts.
unfoldable pub outgoing : ℕ → List Outcome → ℕ
outgoing size [] = 0
outgoing size (got bs ∷ es) = outgoing size es
outgoing size (wrote ∷ es) = size + outgoing size es
outgoing size (failed n ∷ es) = min n size

abbrev pub zeros : ℕ → Bytes
zeros n = replicate n 0

zeros-add : (m n : ℕ) → zeros (m + n) ≡ zeros m ++ zeros n
zeros-add zero n = let same : 0 + n ≡ n = omega arith in ap zeros same
zeros-add (suc m) n =
    let next : suc m + n ≡ suc (m + n) = omega arith in ap zeros next ∙ ap (◌∷◌ 0) (zeros-add m n)

take-zeros : (n m : ℕ) → take n (zeros m) ≡ zeros (min n m)
take-zeros zero m = let none : 0 ≡ min 0 m = omega arith in ap zeros none
take-zeros (suc n) zero = let none : 0 ≡ min (suc n) 0 = omega arith in ap zeros none
take-zeros (suc n) (suc m) =
    let next : suc (min n m) ≡ min (suc n) (suc m) = omega arith in
    ap (◌∷◌ 0) (take-zeros n m) ∙ ap zeros next

-- A closed connection stays as it is.
closed_stays :
    (mode : Mode) (c : Connection) (es : List Outcome) → c.waiting ≡ closed → handler mode c es ≡ c
unfolding handler
closed_stays mode c [] shut = refl
closed_stays mode c (e ∷ es) shut =
    ap (λ w. handler mode (resume mode c w e) es) shut ∙ closed_stays mode c es shut

sinking :
    (sent received : Bytes) (es : List Outcome)
    → let d = handler sink (record { waiting = reading; received = received; sent = sent }) es in
      (d.sent ≡ sent) × (d.received ≡ received ++ incoming es)
unfolding handler incoming
sinking sent received [] = (refl, sym (append-nil received))
sinking sent received (got bs ∷ es) =
    let (silent, read) = sinking sent (received ++ bs) es in
    (silent, read ∙ append_assoc received bs (incoming es))
sinking sent received (wrote ∷ es) = sinking sent received es
sinking sent received (failed n ∷ es) =
    let shut : Connection = record { waiting = closed; received = received; sent = sent } in
    let stays = closed_stays sink shut es refl in
    (ap (λ d. d.sent) stays, ap (λ d. d.received) stays ∙ sym (append-nil received))

-- A source that writes `size` zeros at a time and has sent some bytes.
abbrev source_at : ℕ → Bytes → Connection
source_at size bs = record { waiting = writing (zeros size); received = []; sent = bs }

pouring :
    (size m : ℕ) (es : List Outcome)
    → let d = handler source (source_at size (zeros m)) es in
      (d.received ≡ []) × (d.sent ≡ zeros (m + outgoing size es))
unfolding handler outgoing
pouring size m [] = let same : m ≡ m + 0 = omega arith in (refl, ap zeros same)
pouring size m (got bs ∷ es) = pouring size m es
pouring size m (wrote ∷ es) =
    let (none_read, sent) = pouring size (m + size) es in
    let more = ap (λ bs. handler source (source_at size bs) es) (sym (zeros-add m size)) in
    let joined : m + size + outgoing size es ≡ m + (size + outgoing size es) = omega arith in
    (ap (λ d. d.received) more ∙ none_read, ap (λ d. d.sent) more ∙ sent ∙ ap zeros joined)
pouring size m (failed n ∷ es) =
    let shut : Connection = record {
      waiting = closed;
      received = [];
      sent = zeros m ++ take n (zeros size);
    } in
    let stays = closed_stays source shut es refl in
    (
      ap (λ d. d.received) stays,
      ap (λ d. d.sent) stays
          ∙ ap (λ bs. zeros m ++ bs) (take-zeros n size)
          ∙ sym (zeros-add m (min n size)),
    )

source_starts : (size : ℕ) → block ≡ zeros size → start source ≡ source_at size []
unfolding start
source_starts size all_zeros =
    ap (λ bs. record { waiting = writing bs; received = []; sent = [] }) all_zeros

source_pours :
    (size : ℕ) (es : List Outcome)
    → block ≡ zeros size
    → let d = handler source (start source) es in
      (d.received ≡ []) × (d.sent ≡ zeros (outgoing size es))
source_pours size es all_zeros =
    let (none_read, sent) = pouring size 0 es in
    let starts = ap (λ c. handler source c es) (source_starts size all_zeros) in
    let first : 0 + outgoing size es ≡ outgoing size es = omega arith in
    (ap (λ d. d.received) starts ∙ none_read, ap (λ d. d.sent) starts ∙ sent ∙ ap zeros first)

block-zeros : block ≡ zeros 65536
unfolding block
block-zeros = refl

-- Whatever the outcomes of the operations, a sink sends nothing and has received what came in before
-- the first exception, in order; a source receives nothing and has sent zeros only, 65536 for each
-- write that is complete before the first exception, and as many of 65536 as the write transferred
-- that the exception interrupts.
pub one_way :
    (es : List Outcome)
    → ((handler sink (start sink) es).sent ≡ [])
      × ((handler sink (start sink) es).received ≡ incoming es)
      × ((handler source (start source) es).received ≡ [])
      × ((handler source (start source) es).sent ≡ zeros (outgoing 65536 es))
unfolding start
one_way es =
    let (silent, read) = sinking [] [] es in
    let (none_read, sent) = source_pours 65536 es block-zeros in (silent, read, none_read, sent)
