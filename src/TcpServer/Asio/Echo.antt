-- ===== src/TcpServer/Asio/Echo.antt =====
-- What an echo connection has sent and received after any sequence of outcomes.
use zio_benchmarks.Shared.{ℕ, zero, suc, ◌≡◌, refl, sym, ap, subst, ◌∙◌, List, [], ◌∷◌, ◌++◌, drop}
use zio_benchmarks.Clib.{Bytes}
use zio_benchmarks.TcpServer.Asio.{
  echo, Outcome, got, wrote, failed, Waiting, reading, writing, closed, Connection, start, resume,
  handler, take,
}

pub append-nil : (xs : Bytes) → xs ++ [] ≡ xs
append-nil [] = refl
append-nil (x ∷ xs) = ap (◌∷◌ x) (append-nil xs)

pub append_assoc : (xs ys zs : Bytes) → (xs ++ ys) ++ zs ≡ xs ++ (ys ++ zs)
append_assoc [] ys zs = refl
append_assoc (x ∷ xs) ys zs = ap (◌∷◌ x) (append_assoc xs ys zs)

pub take-drop : (n : ℕ) (bs : Bytes) → take n bs ++ drop n bs ≡ bs
take-drop zero bs = refl
take-drop (suc n) [] = refl
take-drop (suc n) (b ∷ bs) = ap (◌∷◌ b) (take-drop n bs)

-- What an echo connection has not yet sent back.
abbrev pub Owes : Connection → Waiting → Type 0
Owes c reading = c.sent ≡ c.received
Owes c (writing bs) = c.sent ++ bs ≡ c.received
Owes c closed = (bs : Bytes) × (c.sent ++ bs ≡ c.received)

resume-Owes :
    (c : Connection) (w : Waiting) (e : Outcome)
    → c.waiting ≡ w
    → Owes c w
    → Owes (resume echo c w e) (resume echo c w e).waiting
resume-Owes c reading (got bs) at owes = ap (λ xs. xs ++ bs) owes
resume-Owes c reading wrote at owes = subst (Owes c) (sym at) owes
resume-Owes c reading (failed n) at owes = ([], append-nil c.sent ∙ owes)
resume-Owes c (writing bs) (got cs) at owes = subst (Owes c) (sym at) owes
resume-Owes c (writing bs) wrote at owes = owes
resume-Owes c (writing bs) (failed n) at owes = (
  drop n bs,
  append_assoc c.sent (take n bs) (drop n bs) ∙ ap (λ xs. c.sent ++ xs) (take-drop n bs) ∙ owes,
)
resume-Owes c closed e at owes = subst (Owes c) (sym at) owes

handler-Owes :
    (c : Connection) (es : List Outcome)
    → Owes c c.waiting
    → Owes (handler echo c es) (handler echo c es).waiting
unfolding handler
handler-Owes c [] owes = owes
handler-Owes c (e ∷ es) owes =
    handler-Owes (resume echo c c.waiting e) es (resume-Owes c c.waiting e refl owes)

-- Whatever the outcomes of the operations, an echo connection sends back what it receives, in order:
-- all of it when it awaits a read, all but the bytes of the write that it awaits, and if it was closed
-- all but some last bytes.
pub echoes_in_order : (es : List Outcome) → let c = handler echo (start echo) es in Owes c c.waiting
unfolding start
echoes_in_order es = handler-Owes (start echo) es refl
