-- ===== src/TcpServer/Asio/Accepting/Runs.antt =====
-- What becomes of one connection of tcp_server_asio.cpp among others.
use mathlib.Core.Option
use zio_benchmarks.Shared.{
  ℕ, zero, suc, ◌+◌, ◌≤◌, ◌≡◌, refl, sym, ap, subst, ◌∙◌, inl, inr, true, false, List, [], ◌∷◌,
  ◌++◌, none, some, get_elem?, get_elem?_out, get_elem?-append_left, get_elem?-append_new, length,
  length-append, ◌==◌, Bool-cases, if◌then◌else◌, arith,
}
use zio_benchmarks.TcpServer.Connections.{
  Event, accepted, refused, came, Server, no_connections, for_connection, length-deliver, deliver,
  deliver_self, deliver-ne, same_index, other_index,
}
use zio_benchmarks.TcpServer.Asio.{Mode, Outcome, Connection, start, handler}
use zio_benchmarks.TcpServer.Asio.Accepting.{go_on, server_step, server}

abbrev grown : Mode → Server Connection → Server Connection
grown mode s = record s { connections = s.connections ++ start mode ∷ [] }

accepted_on :
    (mode : Mode) (s : Server Connection)
    → s.accepting ≡ true
    → server_step mode s accepted ≡ grown mode s
accepted_on mode s on = ap (λ b. if b then grown mode s else s) on

accepted_off :
    (mode : Mode) (s : Server Connection) → s.accepting ≡ false → server_step mode s accepted ≡ s
accepted_off mode s off = ap (λ b. if b then grown mode s else s) off

accepted_keeps :
    (mode : Mode) (s : Server Connection) (i : ℕ) {c : Connection}
    → get_elem? s.connections i ≡ some c
    → get_elem? (server_step mode s accepted).connections i ≡ some c
accepted_keeps mode s i at = elim (Bool-cases s.accepting) [
  | inl on ↦ rw on (get_elem?-append_left s.connections (start mode ∷ []) i at)
  | inr off ↦ rw off at
]

-- A connection that is there is served as if it were alone.
server-alone :
    (mode : Mode) (s : Server Connection) (es : List (Event Outcome)) (i : ℕ) (c : Connection)
    → get_elem? s.connections i ≡ some c
    → get_elem? (server mode s es).connections i ≡ some (handler mode c (for_connection i es))
unfolding server handler
server-alone mode s [] i c at = at
server-alone mode s (accepted ∷ es) i c at =
    server-alone mode (server_step mode s accepted) es i c (accepted_keeps mode s i at)
server-alone mode s (refused ∷ es) i c at = server-alone mode (server_step mode s refused) es i c at
server-alone mode s (came j e ∷ es) i c at = elim (Bool-cases (j == i)) [
  | inl mine ↦ rw mine (
      server-alone mode (server_step mode s (came j e)) es i (go_on mode c e) (
        subst (λ k. get_elem? (deliver (go_on mode) s.connections k e) i ≡ some (go_on mode c e))
          (sym (same_index j i mine)) (deliver_self (go_on mode) s.connections i e at)))
  | inr other ↦ rw other (
      server-alone mode (server_step mode s (came j e)) es i c
        (deliver-ne (go_on mode) s.connections j i e (other_index j i other) ∙ at))
]

-- What comes back to each connection that is accepted, if `k` are there already and `accept` has not
-- failed.
unfoldable pub histories : ℕ → List (Event Outcome) → List (List Outcome)
histories k [] = []
histories k (accepted ∷ es) = for_connection k es ∷ histories (k + 1) es
histories k (refused ∷ es) = []
histories k (came i e ∷ es) = histories k es

-- Once `accept` has failed, no connection is added.
refused-none :
    (mode : Mode) (s : Server Connection) (es : List (Event Outcome)) (i : ℕ)
    → s.accepting ≡ false
    → length s.connections ≤ i
    → get_elem? (server mode s es).connections i ≡ none
unfolding server
refused-none mode s [] i off out = get_elem?_out s.connections i out
refused-none mode s (accepted ∷ es) i off out =
    subst (λ t. get_elem? (server mode t es).connections i ≡ none) (sym (accepted_off mode s off))
      (refused-none mode s es i off out)
refused-none mode s (refused ∷ es) i off out =
    refused-none mode (server_step mode s refused) es i refl out
refused-none mode s (came j e ∷ es) i off out =
    refused-none mode (server_step mode s (came j e)) es i off
      (omega (arith, length-deliver (go_on mode) s.connections j e))

server-histories :
    (mode : Mode) (s : Server Connection) (k : ℕ) (es : List (Event Outcome)) (i : ℕ)
    → s.accepting ≡ true
    → length s.connections ≡ k
    → get_elem? (server mode s es).connections (k + i)
      ≡ Option.map (handler mode (start mode)) (get_elem? (histories k es) i)
unfolding server histories
server-histories mode s k [] i on size = get_elem?_out s.connections (k + i) (omega (arith, size))
server-histories mode s k (accepted ∷ es) zero on size =
    subst
      (λ n.
        get_elem? (server mode (server_step mode s accepted) es).connections n
        ≡ some (handler mode (start mode) (for_connection k es)))
      here
      (server-alone mode (server_step mode s accepted) es k (start mode) (
        subst (λ n. get_elem? (server_step mode s accepted).connections n ≡ some (start mode)) size
          (rw on (get_elem?-append_new s.connections (start mode)))))
  where
    here : k ≡ k + 0
    here = omega arith
server-histories mode s k (accepted ∷ es) (suc i) on size =
    subst
      (λ n.
        get_elem? (server mode (server_step mode s accepted) es).connections n
        ≡ Option.map (handler mode (start mode)) (get_elem? (histories (k + 1) es) i))
      next
      (subst
        (λ t.
          get_elem? (server mode t es).connections (k + 1 + i)
          ≡ Option.map (handler mode (start mode)) (get_elem? (histories (k + 1) es) i))
        (sym (accepted_on mode s on))
        (server-histories mode (grown mode s) (k + 1) es i on
          (omega (arith, size, length-append s.connections (start mode ∷ [])))))
  where
    next : k + 1 + i ≡ k + suc i
    next = omega arith
server-histories mode s k (refused ∷ es) i on size =
    refused-none mode (server_step mode s refused) es (k + i) refl (omega (arith, size))
server-histories mode s k (came j e ∷ es) i on size =
    server-histories mode (server_step mode s (came j e)) k es i on
      (length-deliver (go_on mode) s.connections j e ∙ size)

-- Whatever happens, in any order, the server that began with no connection has as many as were
-- accepted before the first failure of `accept`, in their order, and each is what its handler alone
-- makes of what came back to it after it was accepted.
pub served_alone :
    (mode : Mode) (es : List (Event Outcome)) (i : ℕ)
    → get_elem? (server mode no_connections es).connections i
      ≡ Option.map (handler mode (start mode)) (get_elem? (histories 0 es) i)
served_alone mode es i =
    let first : 0 + i ≡ i = omega arith in
    subst
      (λ n.
        get_elem? (server mode no_connections es).connections n
        ≡ Option.map (handler mode (start mode)) (get_elem? (histories 0 es) i))
      first (server-histories mode no_connections 0 es i refl refl)
