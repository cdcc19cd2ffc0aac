-- ===== src/Capture.antt =====
-- pyscan/adapters/capture: pcap_reader.py and pcap_writer.py over the bytes of a file.
-- A generator is a `Stream`; floating-point timestamps are a type with the operations used.
pub mod Blocks
pub mod Pcapng
pub mod Writer
pub mod RoundTrip
pub mod Total
use pyscan.Prelude.{
  ℕ, suc, zero, ◌*◌, Bool, true, false, ◌||◌, List, [], ◌∷◌, text_eq, length, take, drop, slice,
  ltb, if◌then◌else◌, Exception, value_error, Result, ok, err,
}
use pyscan.Wire.{Bytes, Endian, little, big, unpack_u32}

-- What a generator does: it returns, raises, or yields and goes on. `stuck` is no behaviour of
-- Python: the fuel of a loop ran out.
pub data Stream {ℓ} (A : Type ℓ) : Type ℓ where
  finished : Stream A
  failed : Exception → Stream A
  yield : A → Stream A → Stream A
  stuck : Stream A

-- `n / d` of two numbers, and an `int` plus a `float`.
pub record Clock (T : Type 0) : Type 0 where
  pub quotient : ℕ → ℕ → T
  pub plus : ℕ → T → T
  pub zero_time : T

abbrev pub attempt {ℓ κ} : {A : Type ℓ} {B : Type κ} → Result A → (A → Stream B) → Stream B
attempt (ok a) f = f a
attempt (err e) f = failed e

abbrev pub yield_all {ℓ} : {A : Type ℓ} → List A → Stream A → Stream A
yield_all [] rest = rest
yield_all (x ∷ xs) rest = yield x (yield_all xs rest)

abbrev pub magic_usec_le : Bytes
magic_usec_le = 0xd4 ∷ 0xc3 ∷ 0xb2 ∷ 0xa1 ∷ []

abbrev pub magic_usec_be : Bytes
magic_usec_be = 0xa1 ∷ 0xb2 ∷ 0xc3 ∷ 0xd4 ∷ []

abbrev pub magic_nsec_le : Bytes
magic_nsec_le = 0x4d ∷ 0x3c ∷ 0xb2 ∷ 0xa1 ∷ []

abbrev pub magic_nsec_be : Bytes
magic_nsec_be = 0xa1 ∷ 0xb2 ∷ 0x3c ∷ 0x4d ∷ []

-- Membership in `_CLASSIC_MAGICS`; equality of bytes is that of lists of numbers.
unfoldable pub is_classic : Bytes → Bool
is_classic magic =
    text_eq magic magic_usec_le
    || (text_eq magic magic_usec_be || (text_eq magic magic_nsec_le || text_eq magic magic_nsec_be))

abbrev pub max_block : ℕ
max_block = 64 * 1024 * 1024

abbrev pub Frame : Type 0 → Type 0
Frame T = T × ℕ × Bytes

module _ {T : Type 0} (clock : Clock T) where
  -- `while True` over the records; a round reads 16 bytes or ends.
  unfoldable pub classic_loop : ℕ → Endian → ℕ → ℕ → Bytes → Stream (Frame T)
  classic_loop zero endian divisor linktype handle = stuck
  classic_loop (suc fuel) endian divisor linktype handle =
      let raw = take 16 handle in
      elim (ltb (length raw) 16) [
        | true ↦ finished
        | false ↦ attempt (unpack_u32 endian (slice raw 0 4)) λ ts_sec.
            attempt (unpack_u32 endian (slice raw 4 8)) λ ts_frac.
              attempt (unpack_u32 endian (slice raw 8 12)) λ incl_len.
                elim (ltb max_block incl_len) [
                  | true ↦ failed value_error
                  | false ↦ elim (ltb (length (take incl_len (drop 16 handle))) incl_len) [
                    | true ↦ finished
                    | false ↦
                        yield
                          (
                            clock.plus ts_sec (clock.quotient ts_frac divisor),
                            linktype,
                            take incl_len (drop 16 handle),
                          )
                          (classic_loop fuel endian divisor linktype
                            (drop incl_len (drop 16 handle)))
                  ]
                ]
      ]

  -- `handle` stands behind the magic number.
  unfoldable pub read_classic : Bytes → Bytes → Stream (Frame T)
  unfolding classic_loop
  read_classic magic handle =
      let endian =
        if text_eq magic magic_usec_le || text_eq magic magic_nsec_le then little else big in
      let divisor =
        if text_eq magic magic_nsec_le || text_eq magic magic_nsec_be
        then 1_000_000_000
        else 1_000_000 in
      let rest = take 20 handle in
      if ltb (length rest) 20
      then failed value_error
      else attempt (unpack_u32 endian (slice rest 16 20))
          λ linktype. classic_loop (suc (length handle)) endian divisor linktype (drop 20 handle)
