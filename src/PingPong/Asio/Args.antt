-- ===== src/PingPong/Asio/Args.antt =====
-- The options of queue_ping_pong.cpp. An argument that is none of them is passed over.
use zio_benchmarks.Clib.{Bytes, codes, same_string, same_prefix, strtoull}
use zio_benchmarks.Argv.{Parsed, parsed, for_args}
use zio_benchmarks.Shared.{ℕ, Bool, true, false, List, if◌then◌else◌, drop}

pub record Settings : Type 0 where
  pub st : Bool
  pub pairs : ℕ

abbrev pub defaults : Settings
defaults = record { st = false; pairs = 1 }

unfoldable pub take_arg : Settings → Bytes → Parsed Settings
take_arg s arg =
    if same_string arg (codes "--st")
    then parsed (record s { st = true })
    else (if same_prefix 8 arg (codes "--pairs=")
        then parsed (record s { pairs = strtoull (drop 8 arg) })
        else parsed s)

unfoldable pub parse_args : List Bytes → Parsed Settings
unfolding take_arg for_args
parse_args args = for_args take_arg defaults args
