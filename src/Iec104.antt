-- ===== src/Iec104.antt =====
-- pyscan/domain/iec104.py: the IEC 60870-5-104 codec, identification and traffic parsing.
pub mod Tables
pub mod Stream
pub mod Total
use pyscan.Prelude.{
  ℕ, suc, zero, ◌+◌, ◌*◌, Bool, true, false, not, Option, none, some, List, [], ◌∷◌, ◌++◌, Text,
  codes, length, slice, ltb, leb, ◌==◌, if◌then◌else◌, low_bits, Result, ok, ◌>>=◌,
}
use pyscan.Wire.{Bytes, byte_at, to_bytes}
use pyscan.Iec104.Tables.{u_frame_name, type_name}

abbrev pub start : ℕ
start = 0x68

abbrev pub apci_size : ℕ
apci_size = 6

-- The frame formats, named as in the standard.
pub data Format : Type 0 where
  i_format s_format u_format : Format

pub record Iec104Info : Type 0 where
  pub is_iec104 : Bool
  pub frame : Option Text

pub record Apdu : Type 0 where
  pub format : Format
  pub control : ℕ
  pub type_id : Option ℕ
  pub cause : Option ℕ
  pub common_address : Option ℕ

-- `Apdu(format, control)`, the other fields at their defaults.
abbrev pub bare_apdu : Format → ℕ → Apdu
bare_apdu f c = record {
  format = f;
  control = c;
  type_id = none;
  cause = none;
  common_address = none;
}

format_value : Format → Text
format_value i_format = codes "I"
format_value s_format = codes "S"
format_value u_format = codes "U"

name_in : Format → ℕ → Option ℕ → Text
unfolding format_value
name_in u_format control _ = u_frame_name control
name_in _ control (some t) = type_name t
name_in f control none = format_value f ++ codes "-frame"

-- The property `Apdu.name`.
unfoldable pub apdu_name : Apdu → Text
unfolding name_in
apdu_name a = name_in a.format a.control a.type_id

unfoldable pub build_testfr_act : Result Bytes
build_testfr_act = to_bytes (start ∷ 0x04 ∷ 0x43 ∷ 0x00 ∷ 0x00 ∷ 0x00 ∷ [])

unfoldable pub parse_response : Bytes → Result (Option Iec104Info)
parse_response answer = if ltb (length answer) apci_size then ok none else do
  first ← byte_at answer 0
  if not (first == start) then ok none else do
    control1 ← byte_at answer 2
    if not (low_bits control1 2 == 3)
        then ok none
        else ok (some (record { is_iec104 = true; frame = some (u_frame_name control1) }))

-- `apdu[i] if len(apdu) > i else None`
optional_byte : Bytes → ℕ → Result (Option ℕ)
optional_byte apdu i = if ltb i (length apdu) then (do b ← byte_at apdu i; ok (some b)) else ok none

-- `low | (high << 8)` of two bytes is `low + high * 256`.
optional_address : Bytes → Result (Option ℕ)
optional_address apdu =
    if ltb (apci_size + 5) (length apdu)
    then (do
      low ← byte_at apdu (apci_size + 4)
      high ← byte_at apdu (apci_size + 5)
      ok (some (low + high * 256)))
    else ok none

-- The ASDU stands right after the APCI: type id, qualifier, cause (2), common address (2).
unfoldable pub parse_i_format : Bytes → ℕ → Result Apdu
unfolding optional_byte optional_address
parse_i_format apdu control1 =
    if ltb (length apdu) (apci_size + 1) then ok (bare_apdu i_format control1) else do
      type_id ← byte_at apdu apci_size
      cause ← optional_byte apdu (apci_size + 2)
      address ← optional_address apdu
      ok (record {
        format = i_format;
        control = control1;
        type_id = some type_id;
        cause = cause;
        common_address = address;
      })

-- The body of the loop behind the length test: one APDU, by the two low bits of its control octet.
unfoldable pub parse_apdu : Bytes → Result Apdu
parse_apdu apdu = do
  control1 ← byte_at apdu 2
  if low_bits control1 1 == 0
      then parse_i_format apdu control1
      else if low_bits control1 2 == 1
      then ok (bare_apdu s_format control1)
      else ok (bare_apdu u_format control1)

-- `offset + 2 <= len(data) and data[offset] == START`
unfoldable pub at_start : Bytes → ℕ → Result Bool
at_start payload offset =
    if leb (offset + 2) (length payload)
    then (do b ← byte_at payload offset; ok (b == start))
    else ok false

-- One round at `offset`: the APDU there with the number of bytes that it takes, or `none` where
-- the loop ends, by its test or by the `break`.
unfoldable pub apdu_round : Bytes → ℕ → Result (Option (Apdu × ℕ))
apdu_round payload offset = do
  more ← at_start payload offset
  if not more then ok none else do
    size ← byte_at payload (offset + 1)
    let apdu = slice payload offset (offset + 2 + size)
    if ltb (length apdu) apci_size
        then ok none
        else (do first ← parse_apdu apdu; ok (some (first, 2 + size)))

-- `room` is `limit - len(out)`; the list returned is what the loop still appends to `out`.
unfoldable pub apdu_loop : ℕ → Bytes → ℕ → Result (List Apdu)
apdu_loop zero payload offset = ok []
apdu_loop (suc room) payload offset = do
  found ← apdu_round payload offset
  elim found [
    | none ↦ ok []
    | some (first, size) ↦ do rest ← apdu_loop room payload (offset + size); ok (first ∷ rest)
  ]

unfoldable pub parse_apdus : Bytes → ℕ → Result (List Apdu)
unfolding apdu_loop apdu_round at_start parse_apdu parse_i_format
parse_apdus payload limit = apdu_loop limit payload 0

-- The default of `limit`.
abbrev pub default_limit : ℕ
default_limit = 64

framed : Option Text → Text
framed none = []
framed (some []) = []
framed (some (c ∷ t)) = codes " (" ++ ((c ∷ t) ++ codes ")")

unfoldable pub describe : Option Iec104Info → Option Text
unfolding framed
describe none = none
describe (some info) =
    if not info.is_iec104 then none else some (codes "IEC 60870-5-104" ++ framed info.frame)
