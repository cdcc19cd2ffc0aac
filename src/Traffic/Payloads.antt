-- ===== src/Traffic/Payloads.antt =====
-- The protocol payloads of pyscan/domain/ot_traffic.py.
use pyscan.Prelude.{ℕ, ◌+◌, Bool, [], ◌∷◌, ◌++◌, length, take, if◌then◌else◌, Result, ok, ◌>>=◌}
use pyscan.Wire.{Bytes, to_bytes, little, big, pack_u8, pack_u16, pack_u32}

-- `struct.pack(">HHHB", tid, 0, len(pdu) + 1, unit) + pdu`
unfoldable pub modbus_pdu : ℕ → Bytes → ℕ → Result Bytes
modbus_pdu unit pdu tid = do
  t ← pack_u16 big tid
  p ← pack_u16 big 0
  s ← pack_u16 big (length pdu + 1)
  u ← pack_u8 unit
  ok (t ++ (p ++ (s ++ (u ++ pdu))))

-- `struct.pack(">BHH", code, addr, value)`
unfoldable pub code_and_words : ℕ → ℕ → ℕ → Result Bytes
code_and_words code addr value = do
  c ← pack_u8 code
  a ← pack_u16 big addr
  v ← pack_u16 big value
  ok (c ++ (a ++ v))

unfoldable pub modbus_read_holding : ℕ → ℕ → ℕ → Result Bytes
unfolding code_and_words modbus_pdu
modbus_read_holding addr count unit = do pdu ← code_and_words 0x03 addr count; modbus_pdu unit pdu 0

unfoldable pub modbus_read_device_id : ℕ → Result Bytes
unfolding modbus_pdu
modbus_read_device_id unit = modbus_pdu unit (0x2B ∷ 0x0E ∷ 0x01 ∷ 0x00 ∷ []) 0

unfoldable pub modbus_write_register : ℕ → ℕ → ℕ → Result Bytes
unfolding code_and_words modbus_pdu
modbus_write_register addr value unit = do
  pdu ← code_and_words 0x06 addr value
  modbus_pdu unit pdu 0

unfoldable pub modbus_write_coil : ℕ → Bool → ℕ → Result Bytes
unfolding code_and_words modbus_pdu
modbus_write_coil addr closed unit = do
  pdu ← code_and_words 0x05 addr (if closed then 0xFF00 else 0x0000)
  modbus_pdu unit pdu 0

unfoldable pub iec_u_frame : ℕ → Result Bytes
iec_u_frame control = to_bytes (0x68 ∷ 0x04 ∷ control ∷ 0x00 ∷ 0x00 ∷ 0x00 ∷ [])

-- `struct.pack("<BBHH", ...)`, three bytes of `struct.pack("<I", ioa)`, and the payload, behind
-- a control field of zeros.
unfoldable pub iec_i_frame : ℕ → ℕ → ℕ → ℕ → Bytes → Result Bytes
iec_i_frame type_id cause common_address ioa payload = do
  t ← pack_u8 type_id
  q ← pack_u8 0x01
  c ← pack_u16 little cause
  a ← pack_u16 little common_address
  o ← pack_u32 little ioa
  let asdu = t ++ (q ++ (c ++ (a ++ (take 3 o ++ payload))))
  let body = (0x00 ∷ 0x00 ∷ 0x00 ∷ 0x00 ∷ []) ++ asdu
  head ← to_bytes (0x68 ∷ length body ∷ [])
  ok (head ++ body)
