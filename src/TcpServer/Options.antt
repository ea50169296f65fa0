-- ===== src/TcpServer/Options.antt =====
-- The options of the two servers side by side.
use zio_benchmarks.Clib.{Bytes, codes, same_string, same_prefix, atoi}
use zio_benchmarks.Argv.{Parsed, parsed, exits, undefined, for_args, ◌>>=◌}
use zio_benchmarks.Shared.{
  ℕ, ◌≡◌, refl, sym, subst, true, false, Option, none, some, inl, inr, List, [], ◌∷◌, All,
  Bool-cases, drop, arith,
}
use zio_benchmarks.TcpServer.Asio.Args as Asio
use zio_benchmarks.TcpServer.Photon.Args as Photon

-- The settings of the Asio server that has a number of threads.
abbrev with_threads : ℕ → Photon.Settings → Asio.Settings
with_threads n s = record { num_threads = n; port = s.port; mode = s.mode }

-- The options that both have are not among the others of the Asio server.
port_apart :
    (arg : Bytes)
    → same_prefix 7 arg (codes "--port=") ≡ true
    → (same_string arg (codes "--st") ≡ false) × (same_prefix 10 arg (codes "--threads=") ≡ false)
unfolding same_string same_prefix
port_apart [] h = cc
port_apart (x ∷ []) h = ground arith
port_apart (x ∷ y ∷ []) h = ground arith
port_apart (x ∷ y ∷ z ∷ zs) h = ground arith

mode_apart :
    (arg : Bytes)
    → same_prefix 7 arg (codes "--mode=") ≡ true
    → (same_string arg (codes "--st") ≡ false) × (same_prefix 10 arg (codes "--threads=") ≡ false)
unfolding same_string same_prefix
mode_apart [] h = cc
mode_apart (x ∷ []) h = ground arith
mode_apart (x ∷ y ∷ []) h = ground arith
mode_apart (x ∷ y ∷ z ∷ zs) h = ground arith

-- What one reads, the other reads.
abbrev Same : ℕ → Parsed Photon.Settings → Parsed Asio.Settings → Type 0
Same n (parsed t) r = r ≡ parsed (with_threads n t)
Same n (exits m) r = Unit
Same n undefined r = Unit

set_port-Same :
    (n : ℕ) (s : Photon.Settings) (r : Option ℕ)
    → Same n (Photon.set_port s r) (Asio.set_port (with_threads n s) r)
set_port-Same n s none = tt
set_port-Same n s (some k) = refl

set_mode-Same :
    (n : ℕ) (s : Photon.Settings) (m : Bytes)
    → Same n (Photon.set_mode s m) (Asio.set_mode (with_threads n s) m)
set_mode-Same n s m = elim (Bool-cases (same_string m (codes "echo"))) [
  | inl e ↦ rw e refl
  | inr f ↦ elim (Bool-cases (same_string m (codes "sink"))) [
    | inl e ↦ rw (f, e) refl
    | inr g ↦ elim (Bool-cases (same_string m (codes "source"))) [
      | inl e ↦ rw (f, g, e) refl
      | inr h ↦ rw (f, g, h) tt
    ]
  ]
]

take_arg-Same :
    (n : ℕ) (s : Photon.Settings) (arg : Bytes)
    → same_string arg (codes "--uring") ≡ false
    → Same n (Photon.take_arg s arg) (Asio.take_arg (with_threads n s) arg)
unfolding Photon.take_arg Asio.take_arg
take_arg-Same n s arg plain = elim (Bool-cases (same_prefix 7 arg (codes "--port="))) [
  | inl port ↦
      let (st, threads) = port_apart arg port in
      rw (plain, port, st, threads) (set_port-Same n s (atoi (drop 7 arg)))
  | inr other ↦ elim (Bool-cases (same_prefix 7 arg (codes "--mode="))) [
    | inl mode ↦
        let (st, threads) = mode_apart arg mode in
        rw (plain, other, mode, st, threads) (set_mode-Same n s (drop 7 arg))
    | inr none_of_them ↦ rw (plain, other, none_of_them) tt
  ]
]

-- No argument asks for io_uring.
abbrev pub IsPlain : List Bytes → Type 0
IsPlain args = All (λ arg. same_string arg (codes "--uring") ≡ false) args

for_args-Same :
    (n : ℕ) (s : Photon.Settings) (args : List Bytes)
    → IsPlain args
    → Same n (for_args Photon.take_arg s args) (for_args Asio.take_arg (with_threads n s) args)
unfolding for_args
for_args-Same n s [] plain = refl
for_args-Same n s (arg ∷ args) plain =
    go (Photon.take_arg s arg) (take_arg-Same n s arg plain.0) (λ t. for_args-Same n t args plain.1)
  where
    go :
        (r : Parsed Photon.Settings)
        → Same n r (Asio.take_arg (with_threads n s) arg)
        → ((t : Photon.Settings)
            → Same n
                (for_args Photon.take_arg t args)
                (for_args Asio.take_arg (with_threads n t) args))
        → Same n
            (r >>= λ t. for_args Photon.take_arg t args)
            (Asio.take_arg (with_threads n s) arg >>= λ t. for_args Asio.take_arg t args)
    go (parsed t) h later =
        subst
          (λ r. Same n (for_args Photon.take_arg t args) (r >>= λ u. for_args Asio.take_arg u args))
          (sym h) (later t)
    go (exits m) h later = tt
    go undefined h later = tt

-- Without `--uring`, whatever the Photon server reads as settings, the Asio server reads as the same
-- port and mode, with as many threads as there are cores.
pub same_settings :
    (cores : ℕ) (args : List Bytes) (t : Photon.Settings)
    → IsPlain args
    → Photon.parse_args args ≡ parsed t
    → Asio.parse_args cores args ≡ parsed (with_threads cores t)
unfolding Asio.parse_args Photon.parse_args
same_settings cores args t plain read =
    subst (λ r. Same cores r (Asio.parse_args cores args)) read
      (for_args-Same cores Photon.defaults args plain)
