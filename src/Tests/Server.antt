-- ===== src/Tests/Server.antt =====
-- The beacon server at concrete datagrams.
use wireless_boot_entropy_ze.Base.{
  ◌+◌, ◌^◌, ◌<◌, ◌≡◌, refl, List, [], ◌∷◌, arith, length, take, drop, replicate,
}
use wireless_boot_entropy_ze.Python.Result.{Result, ok}
use wireless_boot_entropy_ze.Python.Struct.{Bytes, AreBytes, le_bytes, be_bytes}
use wireless_boot_entropy_ze.Aeb.Trial.{Peer}
use wireless_boot_entropy_ze.Teb.Server.{
  Hello, Beacon, Server, parse_hello, build_capsule, serve_all,
}
use wireless_boot_entropy_ze.Teb.Server.RoundTrip.{
  IsHello, hello_bytes, parse_hello-hello_bytes, hello_bytes-parse_hello,
}
use wireless_boot_entropy_ze.Teb.Server.Capsule.{signed_bytes, IsBeacon, build_capsule-signed_bytes}
use wireless_boot_entropy_ze.Teb.Server.Sequence.{Serves, accepted, serve_all-rises}
use wireless_boot_entropy_ze.Teb.Generator.{next_u64, fill}
use wireless_boot_entropy_ze.Teb.Generator.Stream.{stream, fill-stream}
use wireless_boot_entropy_ze.Tests.Inputs.{are_bytes, are_bytes-AreBytes, peer}

-- For a digest and for a signature.
abbrev zero_digest : Bytes → Bytes
zero_digest bs = replicate 32 0

abbrev constant_signature : Bytes → Result Bytes
constant_signature msg = ok (replicate 64 5)

abbrev board : Hello
board = record {
  flags = 3;
  device_id = 0x1122334455667788;
  counter = 9;
  uptime = 1200;
  sram_commitment = replicate 32 1;
  timing_commitment = replicate 32 2;
  hello_hash = replicate 32 0;
}

board-IsHello : IsHello board
board-IsHello = record {
  flags_fits = omega arith;
  device_fits = omega arith;
  counter_fits = omega arith;
  uptime_fits = omega arith;
  sram_fits = refl;
  timing_fits = refl;
}

board-AreBytes : AreBytes (hello_bytes board)
unfolding are_bytes be_bytes le_bytes
board-AreBytes = are_bytes-AreBytes (hello_bytes board) refl

board_accepted : parse_hello zero_digest (hello_bytes board) ≡ ok board
board_accepted = parse_hello-hello_bytes zero_digest board board-IsHello

hello_bytes-parse_hello_example :
    IsHello board
    × (hello_bytes board ≡ hello_bytes board)
    × (board.hello_hash ≡ zero_digest (hello_bytes board))
hello_bytes-parse_hello_example =
    hello_bytes-parse_hello zero_digest (hello_bytes board) board-AreBytes board_accepted

abbrev beacon : Beacon
beacon = record { random = replicate 32 4; gateway_time_ms = 1700000000000 }

beacon-IsBeacon : IsBeacon beacon
beacon-IsBeacon = record { random_fits = refl; time_fits = omega arith }

build_capsule-signed_bytes_example :
    (capsule : Bytes) × (build_capsule constant_signature board 1 beacon ≡ ok capsule)
    × (length capsule ≡ 160)
    × (take 96 capsule ≡ signed_bytes board 1 beacon)
    × (drop 96 capsule ≡ replicate 64 5)
build_capsule-signed_bytes_example =
    build_capsule-signed_bytes zero_digest constant_signature (hello_bytes board) board 1 beacon
      (replicate 64 5) board-AreBytes board_accepted refl (omega arith) beacon-IsBeacon refl refl

abbrev datagrams : List (Bytes × Peer × Beacon)
datagrams =
    (hello_bytes board, peer, beacon) ∷ ([], peer, beacon) ∷ (hello_bytes board, peer, beacon) ∷ []

abbrev idle : Server
idle = record { sequence = 0; served = [] }

idle-Serves : Serves zero_digest constant_signature 0 idle
idle-Serves = record { rise = omega arith; built = tt }

serve_all-rises_example :
    Serves zero_digest constant_signature 0
      (serve_all zero_digest constant_signature datagrams idle)
    × ((serve_all zero_digest constant_signature datagrams idle).sequence
        ≡ 0 + accepted zero_digest constant_signature datagrams)
serve_all-rises_example =
    serve_all-rises zero_digest constant_signature datagrams 0 idle idle-Serves

abbrev used_up : Server
used_up = record { sequence = 0xffffffff; served = [] }

-- Nine bytes are the first of two words.
fill-stream_example :
    ((next_u64 0).0 < 2 ^ 64) × (length (fill 9 0).0 ≡ 9) × ((fill 9 0).0 ≡ take 9 (stream 2 0))
fill-stream_example = fill-stream 9 2 0 (omega arith)
