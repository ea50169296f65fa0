-- ===== src/WorkerPool/Asio/Args.antt =====
-- The options of worker_pool_asio.cpp: the loop of `main` over `argv`.
use zio_benchmarks.Clib.{Bytes, codes, same_string, same_prefix, strtoull, print_lu}
use zio_benchmarks.Clib.Decimal.{strtoull-print_lu, strtoull-lt}
use zio_benchmarks.Argv.{
  Parsed, parsed, exits, for_args, for_args_keeps, for_args_exits, WhenParsed, OnlyExits,
}
use zio_benchmarks.Shared.{
  ◌^◌, ◌<◌, ◌≡◌, ◌++◌, arith, Bool, true, false, List, [], ◌∷◌, if◌then◌else◌, drop, Bool-cases,
  subst, inl, inr,
}
use zio_benchmarks.WorkerPool.Asio.{Options}

pub record Settings : Type 0 where
  pub st : Bool
  pub options : Options
  pub open options use *

-- The initial values of the variables.
abbrev pub defaults : Settings
defaults = record {
  st = false;
  options = record { items = 100000; producers = 1; consumers = 1000; work_iters = 64 };
}

-- One round of the loop; anything else is answered by the usage message and `return 1`.
unfoldable pub take_arg : Settings → Bytes → Parsed Settings
take_arg s arg =
    if same_string arg (codes "--st")
    then parsed (record s { st = true })
    else (if same_prefix 12 arg (codes "--num-items=")
        then set_options (record s.options { items = strtoull (drop 12 arg) })
        else (if same_prefix 16 arg (codes "--num-producers=")
            then set_options (record s.options { producers = strtoull (drop 16 arg) })
            else (if same_prefix 16 arg (codes "--num-consumers=")
                then set_options (record s.options { consumers = strtoull (drop 16 arg) })
                else (if same_prefix 7 arg (codes "--work=")
                    then set_options (record s.options { work_iters = strtoull (drop 7 arg) })
                    else exits 1))))
  where
    set_options : Options → Parsed Settings
    set_options o = parsed (record s { options = o })

unfoldable pub parse_args : List Bytes → Parsed Settings
unfolding take_arg for_args
parse_args args = for_args take_arg defaults args

-- The arguments that ask for some settings.
unfoldable pub print_options : Options → List Bytes
print_options o =
    (codes "--num-items=" ++ print_lu o.items)
    ∷ (codes "--num-producers=" ++ print_lu o.producers)
    ∷ (codes "--num-consumers=" ++ print_lu o.consumers)
    ∷ (codes "--work=" ++ print_lu o.work_iters)
    ∷ []

pub print_settings : Settings → List Bytes
unfolding print_options
print_settings s = (if s.st then (codes "--st" ∷ []) else []) ++ print_options s.options

-- Every setting fits 64 bits.
pub record Fits64 (o : Options) : Type 0 where
  pub items_fit : o.items < 2 ^ 64
  pub producers_fit : o.producers < 2 ^ 64
  pub consumers_fit : o.consumers < 2 ^ 64
  pub work_iters_fit : o.work_iters < 2 ^ 64

parse_options :
    (s : Settings) (o : Options)
    → Fits64 o
    → for_args take_arg s (print_options o) ≡ parsed (record s { options = o })
unfolding for_args take_arg same_string same_prefix print_options
parse_options s o fit = rw (
  strtoull-print_lu o.items fit.items_fit,
  strtoull-print_lu o.producers fit.producers_fit,
  strtoull-print_lu o.consumers fit.consumers_fit,
  strtoull-print_lu o.work_iters fit.work_iters_fit,
)

-- `main` understands the arguments that ask for any settings of 64 bits.
pub parse-print_settings :
    (s : Settings) → Fits64 s.options → parse_args (print_settings s) ≡ parsed s
unfolding parse_args print_settings take_arg same_string
parse-print_settings s fit = elim (Bool-cases s.st) [
  | inl single ↦ rw single (parse_options (record defaults { st = true }) s.options fit)
  | inr multi ↦ rw multi (parse_options defaults s.options fit)
]

abbrev WithFit : Parsed Settings → Type 0
WithFit = WhenParsed (λ t. Fits64 t.options)

take_arg-Fits64 : (s : Settings) (arg : Bytes) → Fits64 s.options → WithFit (take_arg s arg)
unfolding take_arg
take_arg-Fits64 s arg fit =
    ground (arith, strtoull-lt (drop 7 arg), strtoull-lt (drop 12 arg), strtoull-lt (drop 16 arg))

-- Whatever the arguments are, the options that `main` runs with fit 64 bits.
pub parse_args-Fits64 :
    (args : List Bytes) (t : Settings) → parse_args args ≡ parsed t → Fits64 t.options
unfolding parse_args
parse_args-Fits64 args t e = subst WithFit e (
    for_args_keeps take_arg (λ u. Fits64 u.options) take_arg-Fits64 defaults args
      (record {
        items_fit = omega arith;
        producers_fit = omega arith;
        consumers_fit = omega arith;
        work_iters_fit = omega arith;
      }))

-- The tests of the loop all fail.
pub record IsUnknown (arg : Bytes) : Type 0 where
  pub not_st : same_string arg (codes "--st") ≡ false
  pub not_items : same_prefix 12 arg (codes "--num-items=") ≡ false
  pub not_producers : same_prefix 16 arg (codes "--num-producers=") ≡ false
  pub not_consumers : same_prefix 16 arg (codes "--num-consumers=") ≡ false
  pub not_work : same_prefix 7 arg (codes "--work=") ≡ false

take_arg_unknown : (bad : Bytes) → IsUnknown bad → (s : Settings) → take_arg s bad ≡ exits 1
unfolding take_arg
take_arg_unknown bad u s = rw (u.not_st, u.not_items, u.not_producers, u.not_consumers, u.not_work)

take_arg-OnlyExits : (s : Settings) (arg : Bytes) → OnlyExits 1 (take_arg s arg)
unfolding take_arg
take_arg-OnlyExits s arg = ground arith

-- One argument that no test accepts makes `main` return 1, wherever it stands.
pub parse_args_unknown :
    (bad : Bytes) (xs ys : List Bytes) → IsUnknown bad → parse_args (xs ++ bad ∷ ys) ≡ exits 1
unfolding parse_args
parse_args_unknown bad xs ys u =
    for_args_exits take_arg 1 bad take_arg-OnlyExits (take_arg_unknown bad u) defaults xs ys
