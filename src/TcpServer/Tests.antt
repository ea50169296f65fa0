-- ===== src/TcpServer/Tests.antt =====
-- The options of the two servers on the same arguments.
use zio_benchmarks.Argv.{parsed, for_args}
use zio_benchmarks.Clib.{
  Bytes, codes, same_string, same_prefix, atoi, read_signed, read_digits, to_int, skip_spaces,
}
use zio_benchmarks.Shared.{◌≡◌, refl, false, List, [], ◌∷◌}
use zio_benchmarks.TcpServer.Asio.{sink}
use zio_benchmarks.TcpServer.Asio.Args as Asio
use zio_benchmarks.TcpServer.Photon.Args as Photon
use zio_benchmarks.TcpServer.Options.{IsPlain, same_settings}

abbrev arguments : List Bytes
arguments = codes "--mode=sink" ∷ codes "--port=80" ∷ []

arguments-IsPlain : IsPlain arguments
unfolding same_string
arguments-IsPlain = (refl, (refl, tt))

abbrev asked : Photon.Settings
asked = record { uring = false; port = 80; mode = sink }

arguments_read : Photon.parse_args arguments ≡ parsed asked
unfolding Photon.parse_args Photon.take_arg for_args same_string same_prefix atoi read_signed
    read_digits to_int skip_spaces
arguments_read = refl

same_settings_example :
    Asio.parse_args 8 arguments ≡ parsed (record { num_threads = 8; port = 80; mode = sink })
same_settings_example = same_settings 8 arguments asked arguments-IsPlain arguments_read
