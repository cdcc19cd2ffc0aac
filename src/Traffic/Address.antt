-- ===== src/Traffic/Address.antt =====
-- Dotted addresses: printing four bytes and reading them back.
use pyscan.Wire.Laws.{to_bytes_ok}
use pyscan.Wire.{Bytes, IsByte, IsBytes}
use pyscan.Prelude.{
  ℕ, suc, zero, ◌%◌, ◌<◌, ◌≡◌, refl, ap, Bool, true, false, not, ◌&&◌, [], ◌∷◌, ◌++◌, arith, Text,
  contains_char, decimal, split_on, ◌==◌, ==_iff, ℤ, pos, parse_int, Result, ok,
}
use pyscan.Traffic.{parse_ints, address_bytes, mac}

pub record Address : Type 0 where
  pub a : ℕ
  pub b : ℕ
  pub c : ℕ
  pub d : ℕ
  pub a_byte : IsByte a
  pub b_byte : IsByte b
  pub c_byte : IsByte c
  pub d_byte : IsByte d

abbrev pub octets : Address → Bytes
octets q = q.a ∷ q.b ∷ q.c ∷ q.d ∷ []

abbrev pub dotted : Address → Text
dotted q = decimal q.a ++ (b'.' ∷ (decimal q.b ++ (b'.' ∷ (decimal q.c ++ (b'.' ∷ decimal q.d)))))

-- The property holds of each number below the bound: evaluation decides it.
holds_below : (ℕ → Bool) → ℕ → Bool
holds_below p (suc bound) = holds_below p bound && p bound
holds_below p zero = true

holds_below_lem :
    (n : ℕ) (p : ℕ → Bool) (bound : ℕ) → holds_below p bound ≡ true → n < bound → p n ≡ true
unfolding holds_below
holds_below_lem n p zero table below = absurd (omega arith)
holds_below_lem n p (suc bound) table below = ground (arith, holds_below_lem n p bound)

reads_as : Result ℤ → ℕ → Bool
reads_as (ok (pos m)) n = m == n
reads_as _ n = false

reads_as-eq : (m : Result ℤ) (n : ℕ) → reads_as m n ≡ true → m ≡ ok (pos n)
unfolding reads_as
reads_as-eq (ok (pos m)) n h = ap (λ k. ok (pos k)) ((==_iff m n).0 h)
reads_as-eq _ n h = cc

abbrev round_trips : ℕ → Bool
round_trips n = reads_as (parse_int (decimal n)) n && not (contains_char b'.' (decimal n))

round_trips_table : holds_below round_trips 256 ≡ true
unfolding holds_below reads_as parse_int decimal contains_char
round_trips_table = refl

pub parse_int-decimal : (n : ℕ) → n < 256 → parse_int (decimal n) ≡ ok (pos n)
parse_int-decimal n h =
    reads_as-eq _ n (ground (arith, holds_below_lem n round_trips 256 round_trips_table h))

no_dot : (n : ℕ) → n < 256 → contains_char b'.' (decimal n) ≡ false
no_dot n h = ground (arith, holds_below_lem n round_trips 256 round_trips_table h)

split_on-sep :
    (sep : ℕ) (t rest : Text)
    → contains_char sep t ≡ false
    → split_on sep (t ++ (sep ∷ rest)) ≡ t ∷ split_on sep rest
unfolding split_on contains_char
split_on-sep sep [] rest h = ground arith
split_on-sep sep (c ∷ t) rest h = ground (arith, split_on-sep sep t rest)

split_on-none : (sep : ℕ) (t : Text) → contains_char sep t ≡ false → split_on sep t ≡ t ∷ []
unfolding split_on contains_char
split_on-none sep [] h = refl
split_on-none sep (c ∷ t) h = ground (arith, split_on-none sep t)

split-dotted :
    (q : Address)
    → split_on b'.' (dotted q) ≡ decimal q.a ∷ decimal q.b ∷ decimal q.c ∷ decimal q.d ∷ []
split-dotted q = rw (split_on-sep b'.' (decimal q.a) _ (no_dot q.a q.a_byte)) (
    rw (split_on-sep b'.' (decimal q.b) _ (no_dot q.b q.b_byte)) (
      rw (split_on-sep b'.' (decimal q.c) _ (no_dot q.c q.c_byte))
        (rw (split_on-none b'.' (decimal q.d) (no_dot q.d q.d_byte)))))

parse_ints-dotted :
    (q : Address)
    → parse_ints (split_on b'.' (dotted q)) ≡ ok (pos q.a ∷ pos q.b ∷ pos q.c ∷ pos q.d ∷ [])
unfolding parse_ints
parse_ints-dotted q = rw (split-dotted q) (
    rw (parse_int-decimal q.a q.a_byte) (
      rw (parse_int-decimal q.b q.b_byte)
        (rw (parse_int-decimal q.c q.c_byte) (rw (parse_int-decimal q.d q.d_byte)))))

octets-IsBytes : (q : Address) → IsBytes (octets q)
octets-IsBytes q = (q.a_byte, (q.b_byte, (q.c_byte, (q.d_byte, tt))))

byte_mod : (n : ℕ) → IsByte n → n % 256 ≡ n
byte_mod n h = omega arith

-- An address that is printed in dotted decimal is read back as its four bytes.
pub address_bytes-dotted : (q : Address) → address_bytes (dotted q) ≡ ok (octets q)
unfolding address_bytes
address_bytes-dotted q = rw (parse_ints-dotted q) (to_bytes_ok (octets q) (octets-IsBytes q))

pub mac-dotted : (q : Address) → mac (dotted q) ≡ ok (0x02 ∷ 0x00 ∷ octets q)
unfolding mac
mac-dotted q = rw (parse_ints-dotted q) (
    rw (byte_mod q.a q.a_byte) (
      rw (byte_mod q.b q.b_byte) (
        rw (byte_mod q.c q.c_byte) (
          rw (byte_mod q.d q.d_byte)
            (to_bytes_ok (2 ∷ 0 ∷ octets q) (omega arith, (omega arith, octets-IsBytes q)))))))
