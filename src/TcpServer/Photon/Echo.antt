-- ===== src/TcpServer/Photon/Echo.antt =====
-- What a connection of tcp_server_photon.cpp has echoed after any sequence of results.
use zio_benchmarks.Shared.{
  ◌≡◌, refl, sym, ap, subst, ◌∙◌, inl, inr, List, [], ◌∷◌, ◌++◌, length, drop, Bool-cases, ◌==◌,
  arith,
}
use zio_benchmarks.Clib.{Bytes}
use zio_benchmarks.TcpServer.Asio.{echo, Waiting, reading, writing, closed, Connection, start, take}
use zio_benchmarks.TcpServer.Asio.Echo.{Owes, append-nil, append_assoc, take-drop}
use zio_benchmarks.TcpServer.Photon.{Returned, received, written, negative, proceed, serve}

take-length : (bs : Bytes) → take (length bs) bs ≡ bs
take-length [] = refl
take-length (b ∷ bs) = ap (◌∷◌ b) (take-length bs)

proceed-Owes :
    (c : Connection) (w : Waiting) (r : Returned)
    → c.waiting ≡ w
    → Owes c w
    → Owes (proceed echo c w r) (proceed echo c w r).waiting
proceed-Owes c reading (received bs) at owes = elim (Bool-cases (length bs == 0)) [
  | inl ends ↦ rw ends (bs, ap (λ xs. xs ++ bs) owes)
  | inr more ↦ rw more (ap (λ xs. xs ++ bs) owes)
]
proceed-Owes c reading (written n) at owes = subst (Owes c) (sym at) owes
proceed-Owes c reading negative at owes = ([], append-nil c.sent ∙ owes)
proceed-Owes c (writing bs) (received cs) at owes = subst (Owes c) (sym at) owes
proceed-Owes c (writing bs) (written n) at owes = elim (Bool-cases (n == length bs)) [
  | inl whole ↦
      let same : n ≡ length bs = ground arith in
      rw whole (ap (λ xs. c.sent ++ xs) (ap (λ m. take m bs) same ∙ take-length bs) ∙ owes)
  | inr part ↦ rw part (
    drop n bs,
    append_assoc c.sent (take n bs) (drop n bs) ∙ ap (λ xs. c.sent ++ xs) (take-drop n bs) ∙ owes,
  )
]
proceed-Owes c (writing bs) negative at owes = (bs, owes)
proceed-Owes c closed r at owes = subst (Owes c) (sym at) owes

serve-Owes :
    (c : Connection) (rs : List Returned)
    → Owes c c.waiting
    → Owes (serve echo c rs) (serve echo c rs).waiting
unfolding serve
serve-Owes c [] owes = owes
serve-Owes c (r ∷ rs) owes =
    serve-Owes (proceed echo c c.waiting r) rs (proceed-Owes c c.waiting r refl owes)

-- Whatever `recv` and `write` return, an echo connection sends back what it receives, in order: all
-- of it when it is in `recv`, all but the bytes of the `write` that it is in, and if it has ended, after
-- a partial write too, all but some last bytes.
pub serves_in_order : (rs : List Returned) → let c = serve echo (start echo) rs in Owes c c.waiting
unfolding start
serves_in_order rs = serve-Owes (start echo) rs refl
