-- ===== src/PingPong/Tests.antt =====
-- Arguments of the ping-pong programs, and a split of their messages.
use zio_benchmarks.Argv.{parsed}
use zio_benchmarks.Clib.{codes}
use zio_benchmarks.Shared.{◌+◌, ◌*◌, ◌<◌, ◌≤◌, ◌≡◌, refl, [], ◌∷◌, arith}
use zio_benchmarks.PingPong.{at_least_one, per_pair, all_messages}
use zio_benchmarks.PingPong.Asio.Args.{Settings}
use zio_benchmarks.PingPong.Asio.Args as Asio
use zio_benchmarks.PingPong.Photon.Args as Photon
use zio_benchmarks.PingPong.Options.{same_pairs}
use zio_benchmarks.PingPong.Split.{messages_split}

seven_pairs :
    (t : Settings) × (Asio.parse_args (codes "--st" ∷ codes "--pairs=7" ∷ codes "x" ∷ [])
      ≡ parsed t)
    × (Photon.parse_args (codes "--st" ∷ codes "--pairs=7" ∷ codes "x" ∷ []) ≡ parsed t.pairs)
seven_pairs = same_pairs (codes "--st" ∷ codes "--pairs=7" ∷ codes "x" ∷ [])

three : at_least_one 3 ≡ 3
unfolding at_least_one
three = refl

three_shares :
    let n = at_least_one 3 in (n * per_pair n ≤ all_messages) × (all_messages < n * per_pair n + n)
three_shares = messages_split 3 (omega (arith, three))
