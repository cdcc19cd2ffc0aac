-- ===== src/Traffic/Checksum.antt =====
-- `_checksum` of pyscan/domain/ot_traffic.py: the Internet checksum.
use pyscan.Prelude.{
  ℕ, suc, zero, ◌+◌, ◌-◌, ◌*◌, ◌%◌, true, false, [], ◌∷◌, ◌++◌, length, ◌==◌, if◌then◌else◌, shr,
  low_bits, struct_error, Result, ok, err, ◌>>=◌,
}
use pyscan.Wire.{Bytes}

-- `data += b"\x00"` where the length is odd.
unfoldable pub pad_even : Bytes → Bytes
pad_even block = if length block % 2 == 1 then block ++ 0x00 ∷ [] else block

-- The sum of the big-endian words; `struct.unpack` refuses an odd length.
unfoldable pub sum_words : Bytes → Result ℕ
sum_words [] = ok 0
sum_words (a ∷ []) = err struct_error
sum_words (a ∷ b ∷ rest) = do n ← sum_words rest; ok (a * 256 + b + n)

-- `while total >> 16: total = (total & 0xFFFF) + (total >> 16)`
unfoldable pub fold_carry : ℕ → ℕ → ℕ
fold_carry zero total = total
fold_carry (suc fuel) total = elim (shr total 16 == 0) [
  | true ↦ total
  | false ↦ fold_carry fuel (low_bits total 16 + shr total 16)
]

-- Each round makes the total smaller, so as many rounds as the total is large are enough.
-- `~total & 0xFFFF` is 0xFFFF less the low 16 bits.
unfoldable pub checksum : Bytes → Result ℕ
unfolding pad_even sum_words fold_carry
checksum block = do
  total ← sum_words (pad_even block)
  ok (0xFFFF - low_bits (fold_carry total total) 16)
