-- ===== src/TcpServer/Connections.antt =====
-- A server as the list of its connections, in the order in which they were accepted, and what can
-- happen to it.
use zio_benchmarks.Shared.{
  ℕ, ◌≡◌, ◌≢◌, refl, inl, inr, Bool, true, false, List, [], ◌∷◌, Option, none, some, get_elem?, set,
  get_elem?-set_self, get_elem?-set_ne, length, length-set, ◌==◌, if◌then◌else◌, Option-cases,
  arith,
}

-- `accept` comes back with a connection or without, or an operation of a connection comes back.
pub data Event (E : Type 0) : Type 0 where
  accepted : Event E
  refused : Event E
  came : ℕ → E → Event E

pub record Server (Conn : Type 0) : Type 0 where
  pub accepting : Bool
  pub connections : List Conn

abbrev pub no_connections : {Conn : Type 0} → Server Conn
no_connections = record { accepting = true; connections = [] }

-- What comes back to connection `i`.
abbrev pub for_connection : {E : Type 0} → ℕ → List (Event E) → List E
for_connection i [] = []
for_connection i (accepted ∷ es) = for_connection i es
for_connection i (refused ∷ es) = for_connection i es
for_connection i (came j e ∷ es) =
    let rest = for_connection i es in if j == i then e ∷ rest else rest

pub same_index : (j i : ℕ) → (j == i) ≡ true → j ≡ i
same_index j i h = ground arith

pub other_index : (j i : ℕ) → (j == i) ≡ false → j ≢ i
other_index j i h = λ e. ground arith

module _ {Conn E : Type 0} (one : Conn → E → Conn) where
  abbrev pub put_connection : List Conn → ℕ → E → Option Conn → List Conn
  put_connection cs i e none = cs
  put_connection cs i e (some c) = set cs i (one c e)

  -- An operation of connection `i` comes back.
  abbrev pub deliver : List Conn → ℕ → E → List Conn
  deliver cs i e = put_connection cs i e (get_elem? cs i)

  pub deliver_self :
      (cs : List Conn) (i : ℕ) (e : E) {c : Conn}
      → get_elem? cs i ≡ some c
      → get_elem? (deliver cs i e) i ≡ some (one c e)
  deliver_self cs i e {c} at = rw at (get_elem?-set_self cs i (one c e) at)

  pub deliver-ne :
      (cs : List Conn) (i j : ℕ) (e : E) → i ≢ j → get_elem? (deliver cs i e) j ≡ get_elem? cs j
  deliver-ne cs i j e other = elim (Option-cases (get_elem? cs i)) [
    | inl out ↦ rw out refl
    | inr (c, at) ↦ rw at (get_elem?-set_ne cs i j (one c e) other)
  ]

  pub length-deliver : (cs : List Conn) (i : ℕ) (e : E) → length (deliver cs i e) ≡ length cs
  length-deliver cs i e = elim (Option-cases (get_elem? cs i)) [
    | inl out ↦ rw out refl
    | inr (c, at) ↦ rw at (length-set cs i (one c e))
  ]
