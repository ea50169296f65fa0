-- ===== src/PingPong/Photon/Args.antt =====
-- The option of queue_ping_pong_photon.cpp. An argument that is another is passed over.
use zio_benchmarks.Clib.{Bytes, codes, same_prefix, strtoull}
use zio_benchmarks.Argv.{Parsed, parsed, for_args}
use zio_benchmarks.Shared.{ℕ, List, if◌then◌else◌, drop}

unfoldable pub take_arg : ℕ → Bytes → Parsed ℕ
take_arg pairs arg =
    if same_prefix 8 arg (codes "--pairs=") then parsed (strtoull (drop 8 arg)) else parsed pairs

unfoldable pub parse_args : List Bytes → Parsed ℕ
unfolding take_arg for_args
parse_args args = for_args take_arg 1 args
