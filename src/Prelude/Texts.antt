-- ===== src/Prelude/Texts.antt =====
-- Python's `str` as its code points, and the parts of `str` and `int` the program uses.
use Prim.Native.Char.{code}
use Prim.Native.String.{String}
use Prim.Native.Nat.{ℕ, zero, suc, ◌+◌, ◌-◌, ◌/◌, ◌%◌}
use mathlib.Core.Path.{◌≡◌, refl}
use mathlib.Core.Logic.{◌↔◌}
use mathlib.Core.Bool.{Bool, true, false, ◌&&◌, ◌||◌}
use mathlib.Core.List.{List, [], ◌∷◌}
use native.Mathlib.Omega.{arith}
use pyscan.Prelude.Tests.{ltb, leb, ◌==◌, if◌then◌else◌}

abbrev pub Text : Type 0
Text = List ℕ

abbrev pub codes : String → Text
codes String.[] = []
codes (String.◌∷◌ c s) = code c ∷ codes s

unfoldable pub text_eq : Text → Text → Bool
text_eq [] [] = true
text_eq (x ∷ xs) (y ∷ ys) = x == y && text_eq xs ys
text_eq _ _ = false

pub text_eq_iff : (a b : Text) → (text_eq a b ≡ true) ↔ (a ≡ b)
unfolding text_eq
text_eq_iff (x ∷ a) (y ∷ b) = ground (arith, text_eq_iff a b)
text_eq_iff _ _ = ground arith

pub text_eq_refl : (a : Text) → text_eq a a ≡ true
text_eq_refl a = (text_eq_iff a a).1 refl

-- `needle in haystack` for a one-character needle.
unfoldable pub contains_char : ℕ → Text → Bool
contains_char c [] = false
contains_char c (x ∷ xs) = let rest = contains_char c xs in if x == c then true else rest

-- `str(n)` for a number: the decimal digits, most significant first.
decimal_onto : ℕ → ℕ → Text → Text
decimal_onto zero n out = out
decimal_onto (suc fuel) n out =
    let shown = (b'0' + n % 10) ∷ out in
    let rest = decimal_onto fuel (n / 10) shown in if ltb n 10 then shown else rest

-- One more round than the number is large: each round divides it by ten.
unfoldable pub decimal : ℕ → Text
unfolding decimal_onto
decimal n = decimal_onto (suc n) n []

unfoldable pub hex_digit : Bool → ℕ → ℕ
hex_digit upper d = if ltb d 10 then b'0' + d else if upper then b'A' + d - 10 else b'a' + d - 10

-- `f"{n:04x}"` for a number of 16 bits, and `f"{n:02X}"` for one of 8 bits.
unfoldable pub hex4 : ℕ → Text
unfolding hex_digit
hex4 n =
    hex_digit false (n / 4096)
    ∷ hex_digit false (n / 256 % 16)
    ∷ hex_digit false (n / 16 % 16)
    ∷ hex_digit false (n % 16)
    ∷ []

unfoldable pub hex2 : ℕ → Text
unfolding hex_digit
hex2 n = hex_digit true (n / 16) ∷ hex_digit true (n % 16) ∷ []

-- `str.isspace` and `str.isprintable` of one character, for the code points below 256.
unfoldable pub is_space : ℕ → Bool
is_space c = leb 9 c && leb c 13 || (leb 28 c && leb c 32 || (c == 0x85 || c == 0xA0))

unfoldable pub is_printable : ℕ → Bool
is_printable c = leb 0x20 c && leb c 0x7E || (leb 0xA1 c && leb c 0xAC || leb 0xAE c && leb c 0xFF)

unfoldable pub keep : (ℕ → Bool) → Text → Text
keep p [] = []
keep p (c ∷ t) = let rest = keep p t in if p c then c ∷ rest else rest

unfoldable pub lstrip : Text → Text
unfolding is_space
lstrip [] = []
lstrip (c ∷ t) = let rest = lstrip t in if is_space c then rest else c ∷ t

abbrev keep_front : ℕ → Text → Text
keep_front c [] = if is_space c then [] else c ∷ []
keep_front c (d ∷ r) = c ∷ (d ∷ r)

-- Drops the white space at the end; a character stays if it or anything behind it stays.
unfoldable pub rstrip : Text → Text
unfolding is_space
rstrip [] = []
rstrip (c ∷ t) = keep_front c (rstrip t)

unfoldable pub strip : Text → Text
unfolding lstrip rstrip
strip t = rstrip (lstrip t)

abbrev pub onto_first : ℕ → List Text → List Text
onto_first c [] = (c ∷ []) ∷ []
onto_first c (t ∷ ts) = (c ∷ t) ∷ ts

-- `text.split(sep)` for a separator of one character: never empty.
unfoldable pub split_on : ℕ → Text → List Text
split_on sep [] = [] ∷ []
split_on sep (c ∷ t) =
    let rest = split_on sep t in if c == sep then [] ∷ rest else onto_first c rest

-- `before, _, after = text.partition(sep)` for a separator of one character.
unfoldable pub partition : ℕ → Text → Text × Text
partition sep [] = ([], [])
partition sep (c ∷ t) =
    let (before, after) = partition sep t in if c == sep then ([], t) else (c ∷ before, after)
