-- ===== src/S7comm.antt =====
-- pyscan/domain/s7comm.py: the S7comm codec over TPKT and COTP, identification only.
pub mod Tables
pub mod Total
use pyscan.Prelude.{
  ℕ, ◌+◌, ◌*◌, Bool, true, false, not, ◌&&◌, ◌||◌, Option, none, some, [], ◌∷◌, ◌++◌, Text, codes,
  is_printable, keep, strip, length, take, drop, slice, ltb, leb, ◌==◌, if◌then◌else◌, shr,
  low_bits, index_error, struct_error, Result, ok, err, ◌>>=◌,
}
use pyscan.Wire.{Bytes, byte_at, to_bytes, big, pack_u16, unpack_u16}
use Prim.Native.Nat.{bit_or}
use pyscan.S7comm.Tables.{S7Job}

abbrev pub s7_protocol_id : ℕ
s7_protocol_id = 0x32

abbrev pub cotp_cc : ℕ
cotp_cc = 0xD0

abbrev pub cotp_dt : Bytes
cotp_dt = 0x02 ∷ 0xF0 ∷ 0x80 ∷ []

abbrev pub s7_offset : ℕ
s7_offset = 7

abbrev pub function_offset : ℕ
function_offset = s7_offset + 10

pub record S7Info : Type 0 where
  pub is_s7 : Bool
  pub order_number : Option Text

-- The S7 header of a TCP payload; `none` if it is not S7comm.
unfoldable pub parse_job : Bytes → Result (Option S7Job)
parse_job payload = if ltb (length payload) (function_offset + 1) then ok none else do
  version ← byte_at payload 0
  protocol ← byte_at payload s7_offset
  if not (version == 0x03) || not (protocol == s7_protocol_id) then ok none else do
    rosctr ← byte_at payload (s7_offset + 1)
    function ← byte_at payload function_offset
    ok (some (record { rosctr = rosctr; function = function }))

unfoldable pub tpkt : Bytes → Result Bytes
tpkt payload = do
  size ← pack_u16 big (4 + length payload)
  ok ((0x03 ∷ 0x00 ∷ []) ++ (size ++ payload))

-- `(conn_type << 8) | (rack * 0x20 + slot)`, of which the two low bytes are sent; the bits of
-- `rack * 0x20 + slot` above the eighth reach into those of `conn_type`.
unfoldable pub build_connection_request : ℕ → ℕ → ℕ → Result Bytes
unfolding tpkt
build_connection_request rack slot conn_type = do
  let dst_tsap = bit_or (conn_type * 256) (rack * 0x20 + slot)
  let src_tsap : ℕ = 0x0100
  cotp ← to_bytes (
      0x11
      ∷ 0xE0
      ∷ 0x00
      ∷ 0x00
      ∷ 0x00
      ∷ 0x01
      ∷ 0x00
      ∷ 0xC0
      ∷ 0x01
      ∷ 0x0A
      ∷ 0xC1
      ∷ 0x02
      ∷ low_bits (shr src_tsap 8) 8
      ∷ low_bits src_tsap 8
      ∷ 0xC2
      ∷ 0x02
      ∷ low_bits (shr dst_tsap 8) 8
      ∷ low_bits dst_tsap 8
      ∷ [])
  tpkt cotp

unfoldable pub build_setup_communication : Result Bytes
unfolding tpkt
build_setup_communication = do
  s7 ← to_bytes (
      0x32 ∷ 0x01 ∷ 0x00 ∷ 0x00 ∷ 0x00 ∷ 0x01 ∷ 0x00 ∷ 0x08 ∷ 0x00 ∷ 0x00 ∷ 0xF0 ∷ 0x00 ∷ 0x00
      ∷ 0x01 ∷ 0x00 ∷ 0x01 ∷ 0x01 ∷ 0xE0 ∷ [])
  tpkt (cotp_dt ++ s7)

unfoldable pub build_read_szl : ℕ → ℕ → Result Bytes
unfolding tpkt
build_read_szl szl_id index = do
  let param = 0x00 ∷ 0x01 ∷ 0x12 ∷ 0x04 ∷ 0x11 ∷ 0x44 ∷ 0x01 ∷ 0x00 ∷ []
  szl ← pack_u16 big szl_id
  item ← pack_u16 big index
  let block = (0xFF ∷ 0x09 ∷ 0x00 ∷ 0x04 ∷ []) ++ (szl ++ item)
  param_size ← pack_u16 big (length param)
  block_size ← pack_u16 big (length block)
  let s7_header = (0x32 ∷ 0x07 ∷ 0x00 ∷ 0x00 ∷ 0x00 ∷ 0x02 ∷ []) ++ (param_size ++ block_size)
  tpkt (cotp_dt ++ (s7_header ++ (param ++ block)))

unfoldable pub is_connection_confirm : Bytes → Result Bool
is_connection_confirm answer =
    if leb 6 (length answer)
    then (do
      version ← byte_at answer 0
      kind ← byte_at answer 5
      ok (version == 0x03 && kind == cotp_cc))
    else ok false

unfoldable pub is_s7_response : Bytes → Result Bool
is_s7_response answer =
    if leb 8 (length answer)
    then (do
      version ← byte_at answer 0
      protocol ← byte_at answer 7
      ok (version == 0x03 && protocol == s7_protocol_id))
    else ok false

-- `order or None`
non_empty : Text → Option Text
non_empty [] = none
non_empty (c ∷ t) = some (c ∷ t)

-- The body of the `try`: the order number of a standard SZL answer, if it is there.
unfoldable pub szl_order : Bytes → Result (Option Text)
unfolding non_empty
szl_order answer = do
  parlen ← unpack_u16 big (slice answer 13 15)
  let section = drop (17 + parlen) answer
  if leb 12 (length section)
      then (do
        code ← byte_at section 0
        let record_bytes = drop 12 section
        if code == 0xFF && leb 20 (length record_bytes)
            then ok (non_empty (strip (keep is_printable (take 20 record_bytes))))
            else ok none)
      else ok none

-- `except (IndexError, struct.error): pass`; any other exception goes on.
unfoldable pub or_plain : Result (Option Text) → Result (Option S7Info)
or_plain (ok order) = ok (some (record { is_s7 = true; order_number = order }))
or_plain (err index_error) = ok (some (record { is_s7 = true; order_number = none }))
or_plain (err struct_error) = ok (some (record { is_s7 = true; order_number = none }))
or_plain (err e) = err e

unfoldable pub parse_szl : Bytes → Result (Option S7Info)
unfolding or_plain szl_order is_s7_response
parse_szl answer = do
  framed ← is_s7_response answer
  if not framed then ok none else or_plain (szl_order answer)

spaced : Option Text → Text
spaced none = []
spaced (some []) = []
spaced (some (c ∷ t)) = b' ' ∷ (c ∷ t)

unfoldable pub describe : Option S7Info → Option Text
unfolding spaced
describe none = none
describe (some info) =
    if not info.is_s7 then none else some (codes "S7comm" ++ spaced info.order_number)
