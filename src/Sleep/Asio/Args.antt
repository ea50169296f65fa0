-- ===== src/Sleep/Asio/Args.antt =====
-- The options of sleep_asio.cpp.
use zio_benchmarks.Clib.{Bytes, codes, same_string, same_prefix, strtoull, print_lu}
use zio_benchmarks.Clib.Decimal.{strtoull-print_lu}
use zio_benchmarks.Argv.{Parsed, parsed, exits, for_args}
use zio_benchmarks.Shared.{
  ◌^◌, ◌<◌, ◌≡◌, ◌++◌, Bool, true, false, List, [], ◌∷◌, if◌then◌else◌, drop,
}
use zio_benchmarks.Sleep.{Options, defaults}

pub record Settings : Type 0 where
  pub st : Bool
  pub options : Options

unfoldable pub take_arg : Settings → Bytes → Parsed Settings
take_arg s arg =
    if same_string arg (codes "--st")
    then parsed (record s { st = true })
    else (if same_prefix 8 arg (codes "--tasks=")
        then set_options (record s.options { tasks = strtoull (drop 8 arg) })
        else (if same_prefix 11 arg (codes "--sleep-ms=")
            then set_options (record s.options { sleep_ms = strtoull (drop 11 arg) })
            else exits 1))
  where
    set_options : Options → Parsed Settings
    set_options o = parsed (record s { options = o })

unfoldable pub parse_args : List Bytes → Parsed Settings
unfolding take_arg for_args
parse_args args = for_args take_arg (record { st = false; options = defaults }) args

-- The arguments that ask for some options, on all cores.
pub print_options : Options → List Bytes
print_options o =
    (codes "--tasks=" ++ print_lu o.tasks) ∷ (codes "--sleep-ms=" ++ print_lu o.sleep_ms) ∷ []

-- `main` understands the arguments that ask for any options of 64 bits.
pub parse_args-print_options :
    (o : Options)
    → o.tasks < 2 ^ 64
    → o.sleep_ms < 2 ^ 64
    → parse_args (print_options o) ≡ parsed (record { st = false; options = o })
unfolding parse_args print_options for_args take_arg same_string same_prefix
parse_args-print_options o tasks_fit sleep_fit =
    rw (strtoull-print_lu o.tasks tasks_fit, strtoull-print_lu o.sleep_ms sleep_fit)
