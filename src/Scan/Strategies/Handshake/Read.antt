-- ===== src/Scan/Strategies/Handshake/Read.antt =====
-- How a TPKT message is read from a stream, and what this raises.
use pyscan.Wire.{Bytes, byte_at}
use pyscan.Prelude.{
  ℕ, suc, zero, ◌+◌, ◌-◌, ◌*◌, ◌<◌, ◌≡◌, refl, sym, ap, ◌∙◌, inl, inr, true, false, not, [], ◌∷◌,
  ◌++◌, append_assoc, arith, length, take, drop, ltb, leb, ◌==◌, ltb→lt, Bool-cases, index_error,
  struct_error, value_error, os_error, Result, ok, err, ◌>>=◌, Returns, runtime_error, key_error,
}
use pyscan.Scan.Strategies.Handshake.{read_tpkt, read_body, read_exactly}

-- Somewhere in the stream there is a TPKT header of less than the four bytes that it has itself.
abbrev pub HasShortHeader : Bytes → Type 0
HasShortHeader stream =
    (before : Bytes) × (reserved : ℕ) × (hi : ℕ) × (lo : ℕ) × (after : Bytes) × (stream
      ≡ before ++ (0x03 ∷ reserved ∷ hi ∷ lo ∷ after))
    × (hi * 256 + lo < 4)

HasShortHeader-append :
    (before stream : Bytes) → HasShortHeader stream → HasShortHeader (before ++ stream)
HasShortHeader-append before stream (more, reserved, hi, lo, after, e, h) = (
  before ++ more,
  reserved,
  hi,
  lo,
  after,
  ap (◌++◌ before) e ∙ sym (append_assoc before more _),
  h,
)

-- No exception but those of a failed read, and ValueError only for a short header.
abbrev pub Raises : {A : Type 0} → Bytes → Result A → Type 0
Raises stream (ok a) = Unit
Raises stream (err os_error) = Unit
Raises stream (err value_error) = HasShortHeader stream
Raises stream (err _) = ⊥

pub Raises-bind :
    {A B : Type 0} (stream : Bytes) (m : Result A) (f : A → Result B)
    → Raises stream m
    → ((a : A) → m ≡ ok a → Raises stream (f a))
    → Raises stream (m >>= f)
Raises-bind stream (ok a) f h k = k a refl
Raises-bind stream (err index_error) f h k = h
Raises-bind stream (err struct_error) f h k = h
Raises-bind stream (err value_error) f h k = h
Raises-bind stream (err os_error) f h k = h
Raises-bind stream (err runtime_error) f h k = h
Raises-bind stream (err key_error) f h k = h

pub Raises-append :
    {A : Type 0} (before stream : Bytes) (m : Result A)
    → Raises stream m
    → Raises (before ++ stream) m
Raises-append before stream (ok a) h = tt
Raises-append before stream (err index_error) h = h
Raises-append before stream (err struct_error) h = h
Raises-append before stream (err value_error) h = HasShortHeader-append before stream h
Raises-append before stream (err os_error) h = h
Raises-append before stream (err runtime_error) h = h
Raises-append before stream (err key_error) h = h

pub Raises-Returns : {A : Type 0} (stream : Bytes) (m : Result A) → Returns m → Raises stream m
Raises-Returns stream m (a, e) = rw e tt

-- How a message is read from a stream: it fails, it has a short header, or it is cut off the front.
pub data Read (stream : Bytes) : Result (Bytes × Bytes) → Type 0 where
  cut : (message rest : Bytes) → stream ≡ message ++ rest → Read stream (ok (message, rest))
  fails : Read stream (err os_error)
  refuses : HasShortHeader stream → Read stream (err value_error)

take-drop : (n : ℕ) (xs : Bytes) → xs ≡ take n xs ++ drop n xs
take-drop zero xs = refl
take-drop (suc n) [] = refl
take-drop (suc n) (x ∷ xs) = ap (◌∷◌ x) (take-drop n xs)

version_lem : (a : ℕ) → not (a == 0x03) ≡ false → a ≡ 0x03
version_lem a h = ground arith

pub has_header : (n : ℕ) → leb 4 (suc (suc (suc (suc n)))) ≡ true
has_header n = ground arith

read_body-Read :
    (a b c d : ℕ) (stream : Bytes)
    → Read (a ∷ b ∷ c ∷ d ∷ stream) (read_body (a ∷ b ∷ c ∷ d ∷ []) stream)
unfolding read_body byte_at read_exactly
read_body-Read a b c d stream = elim (Bool-cases (not (a == 0x03))) [
  | inl h ↦ rw h (cut (a ∷ b ∷ c ∷ d ∷ []) stream refl)
  | inr h ↦ rw h (elim (Bool-cases (ltb (c * 256 + d) 4)) [
    | inl short ↦ rw short (
        refuses (
          [],
          b,
          c,
          d,
          stream,
          ap (λ v. v ∷ b ∷ c ∷ d ∷ stream) (version_lem a h),
          ltb→lt _ _ short,
        ))
    | inr enough ↦ rw enough (elim (Bool-cases (leb (c * 256 + d - 4) (length stream))) [
      | inl there ↦ rw there (
          cut (a ∷ b ∷ c ∷ d ∷ take (c * 256 + d - 4) stream) (drop (c * 256 + d - 4) stream)
            (ap (λ s. a ∷ b ∷ c ∷ d ∷ s) (take-drop _ stream)))
      | inr missing ↦ rw missing fails
    ])
  ])
]

pub read_tpkt-Read : (stream : Bytes) → Read stream (read_tpkt stream)
unfolding read_tpkt read_body read_exactly byte_at
read_tpkt-Read [] = fails
read_tpkt-Read (a ∷ []) = fails
read_tpkt-Read (a ∷ b ∷ []) = fails
read_tpkt-Read (a ∷ b ∷ c ∷ []) = fails
read_tpkt-Read (a ∷ b ∷ c ∷ d ∷ stream) =
    rw (has_header (length stream), read_exactly) (read_body-Read a b c d stream)
