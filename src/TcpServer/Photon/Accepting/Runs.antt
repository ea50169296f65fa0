-- ===== src/TcpServer/Photon/Accepting/Runs.antt =====
-- What becomes of one connection of tcp_server_photon.cpp among others.
use zio_benchmarks.Shared.{
  ℕ, ◌≡◌, refl, sym, ap, subst, if◌then◌else◌, ◌∙◌, inl, inr, true, false, List, [], ◌∷◌, ◌++◌,
  Option, some, get_elem?, get_elem?-append_left, get_elem?-append_new, length, ◌==◌, Bool-cases,
}
use zio_benchmarks.TcpServer.Connections.{
  Event, accepted, refused, came, Server, for_connection, deliver, deliver_self, deliver-ne,
  same_index, other_index,
}
use zio_benchmarks.TcpServer.Asio.{Mode, Connection, start}
use zio_benchmarks.TcpServer.Photon.{Returned, serve}
use zio_benchmarks.TcpServer.Photon.Accepting.{go_on, main_step, main_loop, before_refused}

module _ (mode : Mode) (s : Server Connection) where
  abbrev grown : Server Connection
  grown = record s { connections = s.connections ++ start mode ∷ [] }

  abbrev delivered : ℕ → Returned → Server Connection
  delivered i r = record s { connections = deliver (go_on mode) s.connections i r }

  accepted_on : s.accepting ≡ true → main_step mode s accepted ≡ grown
  accepted_on on = ap (λ b. if b then grown else s) on

  accepted_off : s.accepting ≡ false → main_step mode s accepted ≡ s
  accepted_off off = ap (λ b. if b then grown else s) off

  came_on :
      (i : ℕ) (r : Returned) → s.accepting ≡ true → main_step mode s (came i r) ≡ delivered i r
  came_on i r on = ap (λ b. if b then delivered i r else s) on

  came_off : (i : ℕ) (r : Returned) → s.accepting ≡ false → main_step mode s (came i r) ≡ s
  came_off i r off = ap (λ b. if b then delivered i r else s) off

-- Behind the loop nothing happens any more.
ended_stays :
    (mode : Mode) (s : Server Connection) (es : List (Event Returned))
    → s.accepting ≡ false
    → (main_loop mode s es).connections ≡ s.connections
unfolding main_loop
ended_stays mode s [] off = refl
ended_stays mode s (accepted ∷ es) off =
    ap (λ t. (main_loop mode t es).connections) (accepted_off mode s off)
    ∙ ended_stays mode s es off
ended_stays mode s (refused ∷ es) off = ended_stays mode (record s { accepting = false }) es refl
ended_stays mode s (came i r ∷ es) off =
    ap (λ t. (main_loop mode t es).connections) (came_off mode s i r off)
    ∙ ended_stays mode s es off

-- Connection `i` behind the loop.
abbrev at_end : Mode → List (Event Returned) → ℕ → Server Connection → Option Connection
at_end mode es i s = get_elem? (main_loop mode s es).connections i

main_loop-alone :
    (mode : Mode) (s : Server Connection) (es : List (Event Returned)) (i : ℕ) (c : Connection)
    → s.accepting ≡ true
    → get_elem? s.connections i ≡ some c
    → get_elem? (main_loop mode s es).connections i
      ≡ some (serve mode c (for_connection i (before_refused es)))
unfolding main_loop serve
main_loop-alone mode s [] i c on at = at
main_loop-alone mode s (accepted ∷ es) i c on at =
    ap (at_end mode es i) (accepted_on mode s on)
    ∙ main_loop-alone mode (grown mode s) es i c on
        (get_elem?-append_left s.connections (start mode ∷ []) i at)
main_loop-alone mode s (refused ∷ es) i c on at =
    subst (λ cs. get_elem? cs i ≡ some c)
      (sym (ended_stays mode (record s { accepting = false }) es refl)) at
main_loop-alone mode s (came j r ∷ es) i c on at =
    ap (at_end mode es i) (came_on mode s j r on) ∙ elim (Bool-cases (j == i)) [
      | inl mine ↦ rw mine (
          main_loop-alone mode (delivered mode s j r) es i (go_on mode c r) on (
            subst
              (λ k. get_elem? (deliver (go_on mode) s.connections k r) i ≡ some (go_on mode c r))
              (sym (same_index j i mine)) (deliver_self (go_on mode) s.connections i r at)))
      | inr other ↦ rw other (
          main_loop-alone mode (delivered mode s j r) es i c on
            (deliver-ne (go_on mode) s.connections j i r (other_index j i other) ∙ at))
    ]

-- While the program runs, a new connection is served as its handler alone would serve what its calls
-- return until `accept` returns no stream, whatever happens to the other connections.
pub streams_alone :
    (mode : Mode) (s : Server Connection) (es : List (Event Returned))
    → s.accepting ≡ true
    → let i = length s.connections in
      get_elem? (main_loop mode s (accepted ∷ es)).connections i
      ≡ some (serve mode (start mode) (for_connection i (before_refused es)))
unfolding main_loop
streams_alone mode s es on =
    ap (at_end mode es (length s.connections)) (accepted_on mode s on)
    ∙ main_loop-alone mode (grown mode s) es (length s.connections) (start mode) on
        (get_elem?-append_new s.connections (start mode))
