-- ===== src/Modbus.antt =====
-- pyscan/domain/modbus.py: the Modbus/TCP codec, encoding and decoding.
pub mod Tables
pub mod Frame
pub mod DeviceId
use pyscan.Prelude.{
  ℕ, suc, zero, ◌+◌, Bool, true, false, not, ◌&&◌, Option, none, some, [], ◌∷◌, ◌++◌, Text, codes,
  length, drop, slice, Table, lookup, ltb, leb, ◌==◌, if◌then◌else◌, low_bits, Result, ok, ◌>>=◌,
}
use pyscan.Wire.{Bytes, byte_at, big, pack_u8, pack_u16, unpack_u16}

abbrev pub mbap_size : ℕ
mbap_size = 7

-- The function code of a payload, with the exception flag stripped; `none` if it is not Modbus.
unfoldable pub read_function_code : Bytes → Result (Option ℕ)
read_function_code payload = if ltb (length payload) (mbap_size + 1) then ok none else do
  protocol_id ← unpack_u16 big (slice payload 2 4)
  if not (protocol_id == 0x0000) then ok none else do
    size ← unpack_u16 big (slice payload 4 6)
    if not (leb 1 size && leb size (253 + 2))
        then ok none
        else do code ← byte_at payload mbap_size; ok (some (low_bits code 7))

pub record ModbusInfo : Type 0 where
  pub is_modbus : Bool
  pub is_exception : Bool
  pub vendor : Option Text
  pub product : Option Text
  pub version : Option Text

-- `ModbusInfo(is_modbus=True)`: the other fields have their defaults.
abbrev pub plain_info : ModbusInfo
plain_info = record {
  is_modbus = true;
  is_exception = false;
  vendor = none;
  product = none;
  version = none;
}

-- `struct.pack(">HHHB", tid, protocol, size, unit)`
unfoldable pub mbap_header : ℕ → ℕ → ℕ → ℕ → Result Bytes
mbap_header tid protocol size unit = do
  t ← pack_u16 big tid
  p ← pack_u16 big protocol
  s ← pack_u16 big size
  u ← pack_u8 unit
  ok (t ++ (p ++ (s ++ u)))

unfoldable pub build_device_id_request : ℕ → ℕ → Result Bytes
unfolding mbap_header
build_device_id_request unit tid = do
  let pdu = 0x2B ∷ 0x0E ∷ 0x01 ∷ 0x00 ∷ []
  mbap ← mbap_header tid 0x0000 (length pdu + 1) unit
  ok (mbap ++ pdu)

-- `fields[obj_id] = value`: a later object with the same id replaces the earlier one.
unfoldable pub insert : ℕ → Text → Table Text → Table Text
insert k v [] = (k, v) ∷ []
insert k v ((j, w) ∷ rest) = if j == k then (k, v) ∷ rest else (j, w) ∷ insert k v rest

-- The loop over the objects; `latin-1` maps each byte to the code point of the same number.
unfoldable pub read_objects : ℕ → Bytes → ℕ → Table Text → Result (Table Text)
read_objects zero body offset fields = ok fields
read_objects (suc rounds) body offset fields = elim (ltb (length body) (offset + 2)) [
  | true ↦ ok fields
  | false ↦ do
    obj_id ← byte_at body offset
    obj_len ← byte_at body (offset + 1)
    let value = slice body (offset + 2) (offset + 2 + obj_len)
    read_objects rounds body (offset + (2 + obj_len)) (insert obj_id value fields)
]

unfoldable pub parse_device_id_objects : Bytes → Result ModbusInfo
unfolding read_objects
parse_device_id_objects body = if ltb (length body) 7 then ok plain_info else do
  num_objects ← byte_at body 6
  fields ← read_objects num_objects body 7 []
  ok (record plain_info {
    vendor = lookup 0x00 fields;
    product = lookup 0x01 fields;
    version = lookup 0x02 fields;
  })

-- `tid` is never read: the transaction id of the answer is not compared with it.
unfoldable pub parse_response : Bytes → ℕ → Result (Option ModbusInfo)
unfolding parse_device_id_objects
parse_response answer tid = if ltb (length answer) 8 then ok none else do
  proto ← unpack_u16 big (slice answer 2 4)
  if not (proto == 0x0000) then ok none else do
    fc ← byte_at answer 7
    if fc == 0xAB
        then ok (some (record plain_info { is_exception = true }))
        else if not (fc == 0x2B)
        then ok (some plain_info)
        else (do info ← parse_device_id_objects (drop 7 answer); ok (some info))

-- A `str | None` that is `None` or empty is false.
abbrev pub truthy : Option Text → Text
truthy none = []
truthy (some t) = t

abbrev spaced : Text → Text
spaced [] = []
spaced (c ∷ t) = b' ' ∷ (c ∷ t)

abbrev versioned : Text → Text
versioned [] = []
versioned (c ∷ t) = codes " v" ++ (c ∷ t)

unfoldable pub describe : Option ModbusInfo → Option Text
describe none = none
describe (some info) =
    if not info.is_modbus
    then none
    else if info.is_exception
    then some (codes "Modbus/TCP (no device id)")
    else some (
        codes "Modbus/TCP"
        ++ (spaced (truthy info.vendor)
            ++ (spaced (truthy info.product) ++ versioned (truthy info.version))))
