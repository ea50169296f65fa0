-- ===== src/WorkerPool/Photon/Args.antt =====
-- The options of worker_pool_photon.cpp: the loop of `main` over `argv`, and what can end it early.
use zio_benchmarks.Clib.{Bytes, codes, same_prefix, strtoull}
use zio_benchmarks.Clib.Decimal.{strtoull-print_lu}
use zio_benchmarks.Argv.{
  Parsed, parsed, exits, undefined, ◌>>=◌, for_args, for_args_exits, for_args-OnlyExits, OnlyExits,
}
use zio_benchmarks.Shared.{
  ◌≡◌, ◌≢◌, ℕ, ap, ◌++◌, ◌==◌, arith, false, List, ◌∷◌, if◌then◌else◌, drop,
}
use zio_benchmarks.WorkerPool.Asio.{Options}
use zio_benchmarks.WorkerPool.Asio.Args.{print_options, Fits64}

-- The initial values of the variables.
abbrev pub defaults : Options
defaults = record { items = 100000; producers = 1; consumers = 1000; work_iters = 64 }

-- One round of the loop; anything else is answered by the usage message and `return 1`.
unfoldable pub take_arg : Options → Bytes → Parsed Options
take_arg o arg =
    if same_prefix 12 arg (codes "--num-items=")
    then parsed (record o { items = strtoull (drop 12 arg) })
    else (if same_prefix 16 arg (codes "--num-producers=")
        then parsed (record o { producers = strtoull (drop 16 arg) })
        else (if same_prefix 16 arg (codes "--num-consumers=")
            then parsed (record o { consumers = strtoull (drop 16 arg) })
            else (if same_prefix 7 arg (codes "--work=")
                then parsed (record o { work_iters = strtoull (drop 7 arg) })
                else exits 1)))

-- The loop and the test of what `photon::init` returns, `started`.
unfoldable pub prepare : ℕ → List Bytes → Parsed Options
unfolding take_arg for_args
prepare started args =
    for_args take_arg defaults args >>= λ o. if started == 0 then parsed o else exits 1

-- If Photon starts, `main` understands the arguments that ask for any options of 64 bits.
pub prepare-print_options : (o : Options) → Fits64 o → prepare 0 (print_options o) ≡ parsed o
unfolding prepare for_args take_arg same_prefix print_options
prepare-print_options o fit = rw (
  strtoull-print_lu o.items fit.items_fit,
  strtoull-print_lu o.producers fit.producers_fit,
  strtoull-print_lu o.consumers fit.consumers_fit,
  strtoull-print_lu o.work_iters fit.work_iters_fit,
)

-- The tests of the loop all fail.
pub record IsRefused (arg : Bytes) : Type 0 where
  pub not_items : same_prefix 12 arg (codes "--num-items=") ≡ false
  pub not_producers : same_prefix 16 arg (codes "--num-producers=") ≡ false
  pub not_consumers : same_prefix 16 arg (codes "--num-consumers=") ≡ false
  pub not_work : same_prefix 7 arg (codes "--work=") ≡ false

take_arg_refused : (bad : Bytes) → IsRefused bad → (o : Options) → take_arg o bad ≡ exits 1
unfolding take_arg
take_arg_refused bad u o = rw (u.not_items, u.not_producers, u.not_consumers, u.not_work)

take_arg-OnlyExits : (o : Options) (arg : Bytes) → OnlyExits 1 (take_arg o arg)
unfolding take_arg
take_arg-OnlyExits o arg = ground arith

-- One argument that no test accepts makes `main` return 1, wherever it stands.
pub prepare_exits :
    (started : ℕ) (bad : Bytes) (xs ys : List Bytes)
    → IsRefused bad
    → prepare started (xs ++ bad ∷ ys) ≡ exits 1
unfolding prepare
prepare_exits started bad xs ys u =
    ap (λ r. r >>= λ o. if started == 0 then parsed o else exits 1)
      (for_args_exits take_arg 1 bad take_arg-OnlyExits (take_arg_refused bad u) defaults xs ys)

-- If Photon does not start, `main` returns 1, whatever the arguments are.
pub prepare_not_started :
    (started : ℕ) (args : List Bytes) → started ≢ 0 → prepare started args ≡ exits 1
unfolding prepare
prepare_not_started started args h =
    ends (for_args take_arg defaults args)
      (for_args-OnlyExits take_arg 1 take_arg-OnlyExits defaults args)
  where
    ends :
        (r : Parsed Options)
        → OnlyExits 1 r
        → (r >>= λ o. if started == 0 then parsed o else exits 1) ≡ exits 1
    ends (parsed o) only = let no : (started == 0) ≡ false = ground arith in rw no
    ends (exits n) only = ap exits only
    ends undefined only = absurd only
