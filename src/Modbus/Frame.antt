-- ===== src/Modbus/Frame.antt =====
-- What `read_function_code` returns, on every payload: the MBAP header checked field by field.
use pyscan.Prelude.{
  ℕ, ◌+◌, ◌*◌, ◌%◌, ◌≡◌, ◌&&◌, Option, none, some, ◌∷◌, arith, leb, ◌==◌, if◌then◌else◌, ok,
}
use pyscan.Wire.{Bytes, byte_at, unpack_u16}
use pyscan.Modbus.{read_function_code}

-- The MBAP layout as patterns: protocol id 0, a length field of 1 to 255, then unit and code.
abbrev pub code_of_frame : Bytes → Option ℕ
code_of_frame (_ ∷ _ ∷ p ∷ q ∷ l ∷ m ∷ _ ∷ code ∷ _) =
    if p * 256 + q == 0 && (leb 1 (l * 256 + m) && leb (l * 256 + m) 255)
    then some (code % 128)
    else none
code_of_frame _ = none

-- On every payload `read_function_code` returns, with no exception, what the MBAP layout says.
pub read_function_code-code_of_frame :
    (payload : Bytes) → read_function_code payload ≡ ok (code_of_frame payload)
unfolding read_function_code byte_at unpack_u16
read_function_code-code_of_frame (_ ∷ _ ∷ _ ∷ _ ∷ _ ∷ _ ∷ _ ∷ _ ∷ _) = ground arith
read_function_code-code_of_frame _ = ground arith
