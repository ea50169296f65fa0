-- ===== src/PingPong/Options.antt =====
-- The options of the two ping-pong programs side by side.
use zio_benchmarks.Clib.{Bytes, codes, same_string, same_prefix, strtoull}
use zio_benchmarks.Argv.{parsed, for_args}
use zio_benchmarks.Shared.{arith, ◌≡◌, refl, true, false, inl, inr, List, [], ◌∷◌, Bool-cases, drop}
use zio_benchmarks.PingPong.Asio.Args.{Settings, defaults}
use zio_benchmarks.PingPong.Asio.Args as Asio
use zio_benchmarks.PingPong.Photon.Args as Photon

-- `--st` is not the option that both have.
st_apart :
    (arg : Bytes)
    → same_string arg (codes "--st") ≡ true
    → same_prefix 8 arg (codes "--pairs=") ≡ false
unfolding same_string same_prefix
st_apart [] h = refl
st_apart (x ∷ []) h = ground arith
st_apart (x ∷ y ∷ []) h = ground arith
st_apart (x ∷ y ∷ z ∷ zs) h = ground arith

-- One argument is read by both.
take_same :
    (s : Settings) (arg : Bytes)
    → (t : Settings) × (Asio.take_arg s arg ≡ parsed t)
      × (Photon.take_arg s.pairs arg ≡ parsed t.pairs)
unfolding Asio.take_arg Photon.take_arg
take_same s arg = elim (Bool-cases (same_string arg (codes "--st"))) [
  | inl st ↦ (record s { st = true }, rw st refl, rw (st_apart arg st) refl)
  | inr other ↦ elim (Bool-cases (same_prefix 8 arg (codes "--pairs="))) [
    | inl pairs ↦
        (record s { pairs = strtoull (drop 8 arg) }, rw (other, pairs) refl, rw pairs refl)
    | inr neither ↦ (s, rw (other, neither) refl, rw neither refl)
  ]
]

loops_same :
    (s : Settings) (args : List Bytes)
    → (t : Settings) × (for_args Asio.take_arg s args ≡ parsed t)
      × (for_args Photon.take_arg s.pairs args ≡ parsed t.pairs)
unfolding for_args
loops_same s [] = (s, refl, refl)
loops_same s (arg ∷ args) =
    let (t, a, b) = take_same s arg in
    let (u, c, d) = loops_same t args in (u, rw (a, for_args) c, rw (b, for_args) d)

-- Whatever the arguments are, neither program ends at them, and both read the same number of pairs.
pub same_pairs :
    (args : List Bytes)
    → (t : Settings) × (Asio.parse_args args ≡ parsed t) × (Photon.parse_args args ≡ parsed t.pairs)
unfolding Asio.parse_args Photon.parse_args
same_pairs args = loops_same defaults args
