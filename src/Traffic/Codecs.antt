-- ===== src/Traffic/Codecs.antt =====
-- The payloads that the traffic generator builds, read by the codecs of the detector.
use pyscan.Wire.Laws.{pack_u16_ok, pack_u32_ok, pack_u8_ok, to_bytes_ok}
use pyscan.Wire.{Bytes, byte_at, little, big, u16_bytes, u32_bytes}
use pyscan.Prelude.{
  ℕ, suc, ◌+◌, ◌*◌, ◌/◌, ◌%◌, ◌^◌, ◌<◌, ◌≡◌, refl, sym, ap, ◌∙◌, true, ◌&&◌, some, [], ◌∷◌,
  append-nil, arith, length, leb, ok,
}
use pyscan.Traffic.Payloads.{iec_i_frame, modbus_pdu}
use pyscan.Iec104.{parse_apdu, Apdu, i_format, parse_i_format, parse_apdus}
use pyscan.Iec104.Stream.{framed, parse_apdus-stream}
use pyscan.Modbus.{read_function_code}
use pyscan.Modbus.Frame.{read_function_code-code_of_frame}

-- The fields of an MBAP header, behind which the PDU stands.
modbus_pdu-layout :
    (unit tid : ℕ) (pdu : Bytes)
    → unit < 256
    → tid < 65536
    → length pdu < 65535
    → modbus_pdu unit pdu tid
      ≡ ok (
          tid / 256
          ∷ tid % 256
          ∷ 0
          ∷ 0
          ∷ (length pdu + 1) / 256
          ∷ (length pdu + 1) % 256
          ∷ unit
          ∷ pdu)
unfolding modbus_pdu u16_bytes
modbus_pdu-layout unit tid pdu u t n = rw (pack_u16_ok big tid t) (
    rw (pack_u16_ok big 0 (omega arith))
      (rw (pack_u16_ok big (length pdu + 1) (omega arith)) (rw (pack_u8_ok unit u) refl)))

-- A PDU of at most 254 bytes, wrapped for a unit id and a transaction id that fit their fields, is
-- wrapped with no exception, and the function code read from the frame is that of the PDU, without
-- the flag of an exception answer.
pub read_function_code-modbus_pdu :
    (unit tid code : ℕ) (fields : Bytes)
    → unit < 256
    → tid < 65536
    → length fields < 254
    → (frame : Bytes) × (modbus_pdu unit (code ∷ fields) tid ≡ ok frame)
      × (read_function_code frame ≡ ok (some (code % 128)))
read_function_code-modbus_pdu unit tid code fields u t n =
    let size = suc (length fields) + 1 in
    let sane : (leb 1 (size / 256 * 256 + size % 256) && leb (size / 256 * 256 + size % 256) 255)
        ≡ true =
      ground arith in
    (
      _,
      modbus_pdu-layout unit tid (code ∷ fields) u t (omega arith),
      read_function_code-code_of_frame _ ∙ rw sane refl,
    )

-- The fields of the APDU that an I-frame carries: the cause is its low byte.
abbrev pub sent_apdu : ℕ → ℕ → ℕ → Apdu
sent_apdu type_id cause common_address = record {
  format = i_format;
  control = 0;
  type_id = some type_id;
  cause = some (cause % 256);
  common_address = some common_address;
}

abbrev i_body : ℕ → ℕ → ℕ → ℕ → Bytes → Bytes
i_body type_id cause common_address ioa payload =
    0
    ∷ 0
    ∷ 0
    ∷ 0
    ∷ type_id
    ∷ 1
    ∷ cause % 256
    ∷ cause / 256
    ∷ common_address % 256
    ∷ common_address / 256
    ∷ ioa % 256
    ∷ ioa / 256 % 256
    ∷ ioa / 2 ^ 16 % 256
    ∷ payload

parse_apdu-i_body :
    (type_id cause common_address ioa : ℕ) (payload : Bytes)
    → parse_apdu (framed (i_body type_id cause common_address ioa payload))
      ≡ ok (sent_apdu type_id cause common_address)
unfolding parse_apdu parse_i_format byte_at
parse_apdu-i_body type_id cause common_address ioa payload = ground arith

iec_i_frame-layout :
    (type_id cause common_address ioa : ℕ) (payload : Bytes)
    → type_id < 256
    → cause < 65536
    → common_address < 65536
    → ioa < 2 ^ 32
    → length payload < 243
    → iec_i_frame type_id cause common_address ioa payload
      ≡ ok (framed (i_body type_id cause common_address ioa payload))
unfolding iec_i_frame u16_bytes u32_bytes
iec_i_frame-layout type_id cause common_address ioa payload t c a o n =
    let head =
      to_bytes_ok (0x68 ∷ length (i_body type_id cause common_address ioa payload) ∷ [])
        (omega arith, (omega arith, tt)) in
    rw (pack_u8_ok type_id t) (
      rw (pack_u8_ok 1 (omega arith)) (
        rw (pack_u16_ok little cause c) (
          rw (pack_u16_ok little common_address a) (rw (pack_u32_ok little ioa o) (rw head refl)))))

-- An I-frame whose fields fit, with a payload of at most 242 bytes, is built with no exception,
-- and `parse_apdus` reads it as one APDU with its type id, the low byte of its cause and its common
-- address, for every limit above zero.
pub parse_apdus-iec_i_frame :
    (type_id cause common_address ioa limit : ℕ) (payload : Bytes)
    → type_id < 256
    → cause < 65536
    → common_address < 65536
    → ioa < 2 ^ 32
    → length payload < 243
    → 0 < limit
    → (frame : Bytes) × (iec_i_frame type_id cause common_address ioa payload ≡ ok frame)
      × (parse_apdus frame limit ≡ ok (sent_apdu type_id cause common_address ∷ []))
parse_apdus-iec_i_frame type_id cause common_address ioa limit payload t c a o n l =
    let body = i_body type_id cause common_address ioa payload in
    (
      framed body,
      iec_i_frame-layout type_id cause common_address ioa payload t c a o n,
      ap (λ f. parse_apdus f limit) (sym (append-nil (framed body)))
          ∙ parse_apdus-stream (body ∷ []) limit (omega arith, tt) (omega (arith, l))
          ∙ rw (parse_apdu-i_body type_id cause common_address ioa payload) refl,
    )
