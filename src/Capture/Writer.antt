-- ===== src/Capture/Writer.antt =====
-- pcap_writer.py: the bytes that are written, and the number of records. A write that raises
-- leaves a file that is cut short, of which nothing is said.
use pyscan.Prelude.{
  ℕ, suc, zero, ◌+◌, ◌-◌, List, [], ◌∷◌, ◌++◌, length, leb, if◌then◌else◌, ℤ, pos, negsuc,
  struct_error, Result, ok, err, ◌>>=◌,
}
use pyscan.Wire.{Bytes, little, pack_u32}

-- `int(ts)`, and `int(round((ts - seconds) * 1_000_000))`
pub record Rounding (T : Type 0) : Type 0 where
  pub whole : T → ℤ
  pub micros : T → ℤ → ℤ

-- `struct.pack("<I", ...)` of an integer: a negative one is refused.
unfoldable pub pack_int : ℤ → Result Bytes
pack_int (pos n) = pack_u32 little n
pack_int (negsuc n) = err struct_error

unfoldable pub increment : ℤ → ℤ
increment (pos n) = pos (n + 1)
increment (negsuc zero) = pos 0
increment (negsuc (suc n)) = negsuc n

-- `if micros >= 1_000_000`: rounding can tip over a whole second.
unfoldable pub carry : ℤ → ℤ → ℤ × ℤ
unfolding increment
carry seconds (pos n) =
    if leb 1_000_000 n then (increment seconds, pos (n - 1_000_000)) else (seconds, pos n)
carry seconds (negsuc n) = (seconds, negsuc n)

-- `struct.pack("<IHHiIII", magic, 2, 4, 0, 0, snaplen, linktype)`
unfoldable pub global_header : ℕ → Result Bytes
global_header linktype = do
  magic ← pack_u32 little 0xA1B2C3D4
  snaplen ← pack_u32 little 65535
  link ← pack_u32 little linktype
  ok (magic ++ ((2 ∷ 0 ∷ 4 ∷ 0 ∷ 0 ∷ 0 ∷ 0 ∷ 0 ∷ 0 ∷ 0 ∷ 0 ∷ 0 ∷ []) ++ (snaplen ++ link)))

module _ {T : Type 0} (rounding : Rounding T) where
  -- The seconds and microseconds of a record header.
  unfoldable pub split_time : T → ℤ × ℤ
  unfolding carry
  split_time ts = let seconds = rounding.whole ts in carry seconds (rounding.micros ts seconds)

  unfoldable pub write_record : T → Bytes → Result Bytes
  unfolding split_time
  write_record ts frame = do
    let (seconds, micros) = split_time ts
    s ← pack_int seconds
    m ← pack_int micros
    incl ← pack_u32 little (length frame)
    orig ← pack_u32 little (length frame)
    ok (s ++ (m ++ (incl ++ (orig ++ frame))))

  -- The bytes of the records, and `count`.
  unfoldable pub write_records : List (T × Bytes) → Result (Bytes × ℕ)
  unfolding write_record
  write_records [] = ok ([], 0)
  write_records ((ts, frame) ∷ rest) = do
    first ← write_record ts frame
    others ← write_records rest
    ok (first ++ others.0, others.1 + 1)

  unfoldable pub write_pcap : List (T × Bytes) → ℕ → Result (Bytes × ℕ)
  unfolding write_records global_header
  write_pcap frames linktype = do
    header ← global_header linktype
    records ← write_records frames
    ok (header ++ records.0, records.1)
