-- ===== src/Tests/Protocols.antt =====
-- The theorems on the protocol parsers at concrete bytes.
use pyscan.Wire.{Bytes}
use pyscan.Prelude.{◌≤◌, ◌≡◌, List, [], ◌∷◌, arith, length, ok}
use pyscan.Iec104.{Apdu, parse_apdus}
use pyscan.Iec104.Stream.{stream, parse_each, parse_apdus-stream}
use pyscan.Iec104.Total.{parse_apdus-bounded}

-- An acknowledgement and a single command behind it.
abbrev two_bodies : List Bytes
two_bodies =
    (1 ∷ 0 ∷ 2 ∷ 0 ∷ []) ∷ (2 ∷ 0 ∷ 2 ∷ 0 ∷ 45 ∷ 1 ∷ 6 ∷ 0 ∷ 1 ∷ 0 ∷ 1 ∷ 0 ∷ 0 ∷ 1 ∷ []) ∷ []

parse_apdus-stream_example : parse_apdus (stream two_bodies) 64 ≡ parse_each two_bodies
parse_apdus-stream_example =
    parse_apdus-stream two_bodies 64 (omega arith, (omega arith, tt)) (omega arith)

parse_apdus-bounded_example :
    (found : List Apdu) × (parse_apdus (stream two_bodies) 1 ≡ ok found) × (length found ≤ 1)
parse_apdus-bounded_example = parse_apdus-bounded (stream two_bodies) 1

-- An S7 request that stops the CPU.
abbrev plc_stop : Bytes
plc_stop = 3 ∷ 0 ∷ 0 ∷ 18 ∷ 2 ∷ 0xF0 ∷ 0x80 ∷ 0x32 ∷ 1 ∷ 0 ∷ 0 ∷ 0 ∷ 1 ∷ 0 ∷ 1 ∷ 0 ∷ 0 ∷ 0x29 ∷ []
