-- ===== src/Channel/Fifo.antt =====
-- A bounded queue that behaves as the documentation of the channel says.
use zio_benchmarks.Channel.{Channel, Sent, full, refused, sent, Received, empty, drained, received}
use zio_benchmarks.Shared.{
  ℕ, ◌≤◌, ◌<◌, ◌≡◌, refl, Bool, true, false, List, [], ◌∷◌, ◌++◌, length, arith, ltb, if◌then◌else◌,
}

pub record Fifo : Type 0 where
  pub values : List ℕ
  pub alive : Bool
  pub cap : ℕ

abbrev pub fifo_send : Fifo → ℕ → Sent Fifo
fifo_send c v =
    if c.alive
    then (if ltb (length c.values) c.cap
        then sent (record c { values = c.values ++ v ∷ [] })
        else full)
    else refused

abbrev pub take_oldest : List ℕ → Fifo → Received Fifo
take_oldest [] c = if c.alive then empty else drained
take_oldest (v ∷ vs) c = received v (record c { values = vs })

abbrev pub fifo_receive : Fifo → Received Fifo
fifo_receive c = take_oldest c.values c

pub fifo_sent :
    (c : Fifo) (v : ℕ) (d : Fifo)
    → fifo_send c v ≡ sent d
    → (d.values ≡ c.values ++ v ∷ [])
      × (c.alive ≡ true)
      × (d.alive ≡ true)
      × (d.cap ≡ c.cap)
      × (length c.values < c.cap)
fifo_sent c v d h = ground arith

pub fifo_full :
    (c : Fifo) (v : ℕ) → fifo_send c v ≡ full → (c.alive ≡ true) × (c.cap ≤ length c.values)
fifo_full c v h = ground arith

pub fifo_refused : (c : Fifo) (v : ℕ) → fifo_send c v ≡ refused → c.alive ≡ false
fifo_refused c v h = ground arith

pub take_oldest_received :
    (vs : List ℕ) (c : Fifo) (v : ℕ) (d : Fifo)
    → take_oldest vs c ≡ received v d
    → (vs ≡ v ∷ d.values) × (d.alive ≡ c.alive) × (d.cap ≡ c.cap)
take_oldest_received [] c v d h = ground arith
take_oldest_received (x ∷ vs) c v d h = ground arith

pub take_oldest_empty :
    (vs : List ℕ) (c : Fifo) → take_oldest vs c ≡ empty → (vs ≡ []) × (c.alive ≡ true)
take_oldest_empty [] c h = ground arith
take_oldest_empty (x ∷ vs) c h = ground arith

pub take_oldest_drained :
    (vs : List ℕ) (c : Fifo) → take_oldest vs c ≡ drained → (vs ≡ []) × (c.alive ≡ false)
take_oldest_drained [] c h = ground arith
take_oldest_drained (x ∷ vs) c h = ground arith

abbrev pub fifo : Channel
fifo = record {
  Chan = Fifo;
  make = λ n. record { values = []; alive = true; cap = n };
  send = fifo_send;
  receive = fifo_receive;
  close = λ c. record c { alive = false };
  buffered = λ c. c.values;
  is_open = λ c. c.alive;
  capacity = λ c. c.cap;
  make_lem = λ n. (refl, refl, refl);
  sent_lem = fifo_sent;
  full_lem = fifo_full;
  refused_lem = fifo_refused;
  received_lem = λ c. take_oldest_received c.values c;
  empty_lem = λ c. take_oldest_empty c.values c;
  drained_lem = λ c. take_oldest_drained c.values c;
  close_lem = λ c. (refl, refl, refl);
}
