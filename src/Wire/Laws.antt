-- ===== src/Wire/Laws.antt =====
-- Laws of indexing, packing and unpacking.
use pyscan.Prelude.{
  ℕ, suc, zero, ◌+◌, ◌*◌, ◌^◌, ◌<◌, ◌≤◌, ◌≡◌, refl, [], ◌∷◌, arith, length, take, drop, lt→ltb, ok,
  Returns,
}
use native.Mathlib.Nat.{zero-add, suc-add}
use pyscan.Wire.{
  Bytes, IsBytes, byte_at, to_bytes, Endian, little, big, u16_bytes, u32_bytes, pack_u8, pack_u16,
  pack_u32, unpack_u16, unpack_u32,
}

-- Indexing within the length returns.
pub byte_at-Returns : (xs : Bytes) (i : ℕ) → i < length xs → Returns (byte_at xs i)
unfolding byte_at
byte_at-Returns [] i h = elim h [ ]
byte_at-Returns (x ∷ xs) zero h = (x, refl)
byte_at-Returns (x ∷ xs) (suc i) h = byte_at-Returns xs i (omega arith)

pub unpack_u16-bytes : (e : Endian) (n : ℕ) → unpack_u16 e (u16_bytes e n) ≡ ok n
unfolding unpack_u16 u16_bytes
unpack_u16-bytes big n = ground arith
unpack_u16-bytes little n = ground arith

pub unpack_u32-bytes : (e : Endian) (n : ℕ) → unpack_u32 e (u32_bytes e n) ≡ ok n
unfolding unpack_u32 u32_bytes
unpack_u32-bytes big n = ground arith
unpack_u32-bytes little n = ground arith

pub length-u16_bytes : (e : Endian) (n : ℕ) → length (u16_bytes e n) ≡ 2
unfolding u16_bytes
length-u16_bytes big n = refl
length-u16_bytes little n = refl

pub length-u32_bytes : (e : Endian) (n : ℕ) → length (u32_bytes e n) ≡ 4
unfolding u32_bytes
length-u32_bytes big n = refl
length-u32_bytes little n = refl

pub u16_bytes-IsBytes : (e : Endian) (n : ℕ) → n < 65536 → IsBytes (u16_bytes e n)
unfolding u16_bytes
u16_bytes-IsBytes big n h = (omega arith, (omega arith, tt))
u16_bytes-IsBytes little n h = (omega arith, (omega arith, tt))

pub pack_u16_ok : (e : Endian) (n : ℕ) → n < 65536 → pack_u16 e n ≡ ok (u16_bytes e n)
unfolding pack_u16
pack_u16_ok e n h = rw (lt→ltb n 65536 h)

pub pack_u32_ok : (e : Endian) (n : ℕ) → n < 2 ^ 32 → pack_u32 e n ≡ ok (u32_bytes e n)
unfolding pack_u32
pack_u32_ok e n h = rw (lt→ltb n (2 ^ 32) h)

pub pack_u8_ok : (n : ℕ) → n < 256 → pack_u8 n ≡ ok (n ∷ [])
unfolding pack_u8
pack_u8_ok n h = rw (lt→ltb n 256 h)

pub to_bytes_ok : (xs : Bytes) → IsBytes xs → to_bytes xs ≡ ok xs
unfolding to_bytes
to_bytes_ok [] h = refl
to_bytes_ok (x ∷ xs) (h, t) = rw (to_bytes_ok xs t) (rw (lt→ltb x 256 h))

pub unpack_u16-Returns :
    (e : Endian) (n : ℕ) (xs : Bytes)
    → 2 + n ≤ length xs
    → Returns (unpack_u16 e (take 2 (drop n xs)))
unfolding unpack_u16
unpack_u16-Returns big zero (a ∷ b ∷ xs) h = (a * 256 + b, refl)
unpack_u16-Returns little zero (a ∷ b ∷ xs) h = (b * 256 + a, refl)
unpack_u16-Returns e zero (a ∷ []) h = absurd (omega arith)
unpack_u16-Returns e n [] h = absurd (omega arith)
unpack_u16-Returns e (suc n) (x ∷ xs) h = unpack_u16-Returns e n xs (omega arith)

pub unpack_u32-Returns :
    (e : Endian) (n : ℕ) (xs : Bytes)
    → 4 + n ≤ length xs
    → Returns (unpack_u32 e (take 4 (drop n xs)))
unfolding unpack_u32
unpack_u32-Returns big zero (a ∷ b ∷ c ∷ d ∷ xs) h = (_, refl)
unpack_u32-Returns little zero (a ∷ b ∷ c ∷ d ∷ xs) h = (_, refl)
unpack_u32-Returns e zero (a ∷ b ∷ c ∷ []) h = absurd (omega arith)
unpack_u32-Returns e zero (a ∷ b ∷ []) h = absurd (omega arith)
unpack_u32-Returns e zero (a ∷ []) h = absurd (omega arith)
unpack_u32-Returns e n [] h = absurd (omega arith)
unpack_u32-Returns e (suc n) (x ∷ xs) h = unpack_u32-Returns e n xs (omega arith)

-- Reading at an offset is reading in what stands behind it.
pub byte_at-drop : (n i : ℕ) (xs : Bytes) → byte_at xs (n + i) ≡ byte_at (drop n xs) i
unfolding byte_at
byte_at-drop zero i xs = rw zero-add refl
byte_at-drop (suc n) i [] = refl
byte_at-drop (suc n) i (x ∷ xs) = rw suc-add (byte_at-drop n i xs)
