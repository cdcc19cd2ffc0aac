-- ===== src/Scan/Strategies/Handshake.antt =====
-- pyscan/adapters/strategies/s7comm.py, as a function of the bytes that the device sends. The
-- stream holds what comes before the first wait that fails: a timeout, a reset, or the end of the
-- connection. A write that fails is a stream that ends there.
pub mod Read
pub mod Errors
use pyscan.Wire.{Bytes, byte_at}
use pyscan.S7comm
use pyscan.Prelude.{
  ℕ, ◌+◌, ◌-◌, ◌*◌, not, Option, none, some, ◌++◌, Text, codes, length, take, drop, ltb, leb, ◌==◌,
  if◌then◌else◌, value_error, os_error, Result, ok, err, ◌>>=◌,
}
use pyscan.S7comm.{S7Info}
use pyscan.Scan.Strategies.{scan_tcp, Connection, PortResult}
use pyscan.Scan.Models.{PortResult}

-- `readexactly(n)` for a size that is not negative: the bytes and what is left.
unfoldable pub read_exactly : ℕ → Bytes → Result (Bytes × Bytes)
read_exactly n stream =
    if leb n (length stream) then ok (take n stream, drop n stream) else err os_error

-- Behind the four bytes of the header. `readexactly` raises ValueError on a negative size.
unfoldable pub read_body : Bytes → Bytes → Result (Bytes × Bytes)
unfolding read_exactly
read_body header stream = do
  version ← byte_at header 0
  if not (version == 0x03) then ok (header, stream) else do
    hi ← byte_at header 2
    lo ← byte_at header 3
    let total = hi * 256 + lo
    if ltb total 4
        then err value_error
        else do (rest, stream') ← read_exactly (total - 4) stream; ok (header ++ rest, stream')

unfoldable pub read_tpkt : Bytes → Result (Bytes × Bytes)
unfolding read_exactly read_body
read_tpkt stream = do (header, stream') ← read_exactly 4 stream; read_body header stream'

-- The body of the `try`: the answer to Read SZL, or none for the early return.
unfoldable pub handshake : ℕ → ℕ → Bytes → Result (Option Bytes)
unfolding read_tpkt
handshake rack slot stream = do
  request ← S7comm.build_connection_request rack slot 0x01
  (answer, stream') ← read_tpkt stream
  confirmed ← S7comm.is_connection_confirm answer
  if not confirmed then ok none else do
    setup ← S7comm.build_setup_communication
    (accepted, stream'') ← read_tpkt stream'
    szl ← S7comm.build_read_szl 0x0011 0x0000
    (response, stream''') ← read_tpkt stream''
    ok (some response)

-- `except (TimeoutError, OSError, IncompleteReadError): return None`
unfoldable pub or_none : {A : Type 0} → Result (Option A) → Result (Option A)
or_none (ok a) = ok a
or_none (err os_error) = ok none
or_none (err e) = err e

unfoldable pub s7_name : Option S7Info → Bytes → Result (Option Text)
s7_name none response = do
  framed ← S7comm.is_s7_response response
  ok (if framed then some (codes "S7comm") else none)
s7_name (some info) response = ok (S7comm.describe (some info))

unfoldable pub s7_banner : Option Bytes → Result (Option Text)
unfolding s7_name
s7_banner none = ok none
s7_banner (some response) = do info ← S7comm.parse_szl response; s7_name info response

-- `_identify`
unfoldable pub identify_s7 : ℕ → ℕ → Bytes → Result (Option Text)
unfolding handshake or_none s7_banner
identify_s7 rack slot stream = do
  response ← or_none (handshake rack slot stream)
  s7_banner response

unfoldable pub scan_s7comm : {T : Type 0} → ℕ → ℕ → Connection T → Bytes → ℕ → Result (PortResult T)
unfolding scan_tcp identify_s7
scan_s7comm rack slot connection stream port =
    scan_tcp connection port (identify_s7 rack slot stream)
