-- ===== src/Tests/Payloads.antt =====
-- The theorems on the generator's payloads at concrete fields.
use pyscan.Wire.{Bytes}
use pyscan.Prelude.{◌%◌, ◌≡◌, some, [], ◌∷◌, arith, ok}
use pyscan.Traffic.Payloads.{modbus_pdu, iec_i_frame}
use pyscan.Modbus.{read_function_code}
use pyscan.Iec104.{parse_apdus}
use pyscan.Traffic.Codecs.{read_function_code-modbus_pdu, sent_apdu, parse_apdus-iec_i_frame}

read_function_code-modbus_pdu_example :
    (frame : Bytes) × (modbus_pdu 1 (0x86 ∷ 2 ∷ []) 7 ≡ ok frame)
    × (read_function_code frame ≡ ok (some (0x86 % 128)))
read_function_code-modbus_pdu_example =
    read_function_code-modbus_pdu 1 7 0x86 (2 ∷ []) (omega arith) (omega arith) (omega arith)

parse_apdus-iec_i_frame_example :
    (frame : Bytes) × (iec_i_frame 45 6 300 70000 (1 ∷ []) ≡ ok frame)
    × (parse_apdus frame 64 ≡ ok (sent_apdu 45 6 300 ∷ []))
parse_apdus-iec_i_frame_example =
    parse_apdus-iec_i_frame 45 6 300 70000 64 (1 ∷ []) (omega arith) (omega arith) (omega arith)
      (omega arith) (omega arith) (omega arith)
