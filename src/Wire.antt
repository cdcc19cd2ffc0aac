-- ===== src/Wire.antt =====
-- Bytes and Python's `struct` module: what the codecs read and write on the wire.
-- `bytes` is a list of numbers below 256; the order in the name is that of the format string.
pub mod Laws
use pyscan.Prelude.{
  ℕ, suc, zero, ◌+◌, ◌*◌, ◌/◌, ◌%◌, ◌^◌, ◌<◌, List, [], ◌∷◌, All, ltb, if◌then◌else◌, index_error,
  struct_error, value_error, Result, ok, err, ◌>>=◌,
}

abbrev pub Bytes : Type 0
Bytes = List ℕ

abbrev pub IsByte : ℕ → Type 0
IsByte b = b < 256

-- Every element is a byte, as Python's `bytes` holds by construction.
abbrev pub IsBytes : Bytes → Type 0
IsBytes = All IsByte

-- `data[i]`
unfoldable pub byte_at : Bytes → ℕ → Result ℕ
byte_at [] i = err index_error
byte_at (x ∷ xs) zero = ok x
byte_at (x ∷ xs) (suc i) = byte_at xs i

-- `bytes([x, ...])` raises on a number that is no byte.
unfoldable pub to_bytes : List ℕ → Result Bytes
to_bytes [] = ok []
to_bytes (x ∷ xs) = do rest ← to_bytes xs; if ltb x 256 then ok (x ∷ rest) else err value_error

-- The byte order of a format string: "<" is little, ">" is big.
pub data Endian : Type 0 where
  little big : Endian

-- The two and four bytes of a number, without a range test.
unfoldable pub u16_bytes : Endian → ℕ → Bytes
u16_bytes big n = n / 256 ∷ n % 256 ∷ []
u16_bytes little n = n % 256 ∷ n / 256 ∷ []

unfoldable pub u32_bytes : Endian → ℕ → Bytes
u32_bytes big n = n / 2 ^ 24 ∷ n / 2 ^ 16 % 256 ∷ n / 256 % 256 ∷ n % 256 ∷ []
u32_bytes little n = n % 256 ∷ n / 256 % 256 ∷ n / 2 ^ 16 % 256 ∷ n / 2 ^ 24 ∷ []

-- `struct.pack` with "B", "H" and "I"
unfoldable pub pack_u8 : ℕ → Result Bytes
pack_u8 n = if ltb n 256 then ok (n ∷ []) else err struct_error

unfoldable pub pack_u16 : Endian → ℕ → Result Bytes
pack_u16 e n = if ltb n 65536 then ok (u16_bytes e n) else err struct_error

unfoldable pub pack_u32 : Endian → ℕ → Result Bytes
pack_u32 e n = if ltb n (2 ^ 32) then ok (u32_bytes e n) else err struct_error

-- `struct.unpack` with "H" and "I": the argument has exactly the size of the format.
unfoldable pub unpack_u16 : Endian → Bytes → Result ℕ
unpack_u16 big (a ∷ b ∷ []) = ok (a * 256 + b)
unpack_u16 little (a ∷ b ∷ []) = ok (b * 256 + a)
unpack_u16 _ _ = err struct_error

unfoldable pub unpack_u32 : Endian → Bytes → Result ℕ
unpack_u32 big (a ∷ b ∷ c ∷ d ∷ []) = ok (a * 2 ^ 24 + b * 2 ^ 16 + c * 256 + d)
unpack_u32 little (a ∷ b ∷ c ∷ d ∷ []) = ok (d * 2 ^ 24 + c * 2 ^ 16 + b * 256 + a)
unpack_u32 _ _ = err struct_error
