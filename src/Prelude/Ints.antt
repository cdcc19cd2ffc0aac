-- ===== src/Prelude/Ints.antt =====
-- Integers over the native numbers, and Python's `int` of a text.
-- Digits of scripts other than ASCII, which `int` reads too, are refused here.
use Prim.Native.Nat.{ℕ, zero, suc, ◌+◌, ◌-◌, ◌*◌}
use mathlib.Core.Bool.{Bool, true, false, ◌&&◌}
use mathlib.Core.List.{[], ◌∷◌}
use pyscan.Prelude.Tests.{leb, ◌==◌, if◌then◌else◌}
use pyscan.Prelude.Texts.{Text, strip}
use pyscan.Prelude.Results.{Result, ok, err, value_error, ◌>>=◌}

-- `negsuc n` is -(n + 1).
pub data ℤ : Type 0 where
  pos : ℕ → ℤ
  negsuc : ℕ → ℤ

abbrev pub negate : ℕ → ℤ
negate zero = pos 0
negate (suc n) = negsuc n

unfoldable pub is_digit : ℕ → Bool
is_digit c = leb b'0' c && leb c b'9'

-- Digits, with single underscores between two of them; the flag is set behind a digit.
unfoldable pub int_digits : ℕ → Bool → Text → Result ℕ
unfolding is_digit
int_digits acc true [] = ok acc
int_digits acc false [] = err value_error
int_digits acc after_digit (c ∷ t) =
    let digit = int_digits (acc * 10 + (c - b'0')) true t in
    let gap = int_digits acc false t in
    if is_digit c then digit else if c == b'_' && after_digit then gap else err value_error

unfoldable pub signed_int : Text → Result ℤ
unfolding int_digits
signed_int [] = err value_error
signed_int (c ∷ t) =
    if c == b'-'
    then (do n ← int_digits 0 false t; ok (negate n))
    else if c == b'+'
    then (do n ← int_digits 0 false t; ok (pos n))
    else do n ← int_digits 0 false (c ∷ t); ok (pos n)

unfoldable pub parse_int : Text → Result ℤ
unfolding signed_int strip
parse_int t = signed_int (strip t)
