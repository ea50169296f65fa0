-- ===== src/Sleep/Photon/Args.antt =====
-- The options of sleep_photon.cpp, and what can end `main` early.
use zio_benchmarks.Clib.{Bytes, codes, same_prefix, strtoull}
use zio_benchmarks.Argv.{Parsed, parsed, exits, ◌>>=◌, for_args, for_args_exits, OnlyExits}
use zio_benchmarks.Shared.{ℕ, ◌≡◌, ap, ◌++◌, ◌==◌, arith, false, List, ◌∷◌, if◌then◌else◌, drop}
use zio_benchmarks.Sleep.{Options, defaults}

unfoldable pub take_arg : Options → Bytes → Parsed Options
take_arg o arg =
    if same_prefix 8 arg (codes "--tasks=")
    then parsed (record o { tasks = strtoull (drop 8 arg) })
    else (if same_prefix 11 arg (codes "--sleep-ms=")
        then parsed (record o { sleep_ms = strtoull (drop 11 arg) })
        else exits 2)

-- The loop and the test of what `photon::init` returns, `started`.
unfoldable pub prepare : ℕ → List Bytes → Parsed Options
unfolding take_arg for_args
prepare started args =
    for_args take_arg defaults args >>= λ o. if started == 0 then parsed o else exits 1

take_arg-OnlyExits : (o : Options) (arg : Bytes) → OnlyExits 2 (take_arg o arg)
unfolding take_arg
take_arg-OnlyExits o arg = ground arith

take_arg_refused :
    (bad : Bytes)
    → same_prefix 8 bad (codes "--tasks=") ≡ false
    → same_prefix 11 bad (codes "--sleep-ms=") ≡ false
    → (o : Options) → take_arg o bad ≡ exits 2
unfolding take_arg
take_arg_refused bad not_tasks not_sleep o = rw (not_tasks, not_sleep)

-- One argument that is neither `--tasks=` nor `--sleep-ms=` makes `main` return 2, wherever it
-- stands, and whether Photon would start or not.
pub usage_exits :
    (started : ℕ) (bad : Bytes) (xs ys : List Bytes)
    → same_prefix 8 bad (codes "--tasks=") ≡ false
    → same_prefix 11 bad (codes "--sleep-ms=") ≡ false
    → prepare started (xs ++ bad ∷ ys) ≡ exits 2
unfolding prepare
usage_exits started bad xs ys not_tasks not_sleep =
    ap (λ r. r >>= λ o. if started == 0 then parsed o else exits 1)
      (for_args_exits take_arg 2 bad take_arg-OnlyExits (take_arg_refused bad not_tasks not_sleep)
        defaults xs ys)
