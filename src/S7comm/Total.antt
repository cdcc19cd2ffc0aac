-- ===== src/S7comm/Total.antt =====
-- The S7comm header and identification answers, on every input.
use pyscan.Wire.Laws.{byte_at-Returns}
use pyscan.Wire.{Bytes, byte_at, big, unpack_u16}
use pyscan.Prelude.{
  ℕ, suc, zero, ◌+◌, ◌≡◌, refl, inl, inr, not, ◌&&◌, Option, none, some, [], ◌∷◌, arith, Text,
  length, drop, slice, leb, ◌==◌, if◌then◌else◌, Bool-cases, index_error, struct_error, value_error,
  os_error, Result, ok, err, ◌>>=◌, Returns, Returns-bind, runtime_error, key_error,
}
use pyscan.S7comm.{parse_job, is_s7_response, szl_order, or_plain, parse_szl}
use pyscan.S7comm.Tables.{S7Job}

-- The S7 header as patterns: TPKT version 3, protocol id 0x32 behind TPKT and COTP, then the
-- message kind, and the function behind the ten bytes of the header.
abbrev pub job_of_header : Bytes → Option S7Job
job_of_header (v ∷ _ ∷ _ ∷ _ ∷ _ ∷ _ ∷ _ ∷ p ∷ r ∷ _ ∷ _ ∷ _ ∷ _ ∷ _ ∷ _ ∷ _ ∷ _ ∷ f ∷ _) =
    if v == 0x03 && p == 0x32 then some (record { rosctr = r; function = f }) else none
job_of_header _ = none

-- On every payload `parse_job` returns, with no exception, what the header layout says.
pub parse_job-job_of_header : (payload : Bytes) → parse_job payload ≡ ok (job_of_header payload)
unfolding parse_job byte_at
parse_job-job_of_header
      (v ∷ _ ∷ _ ∷ _ ∷ _ ∷ _ ∷ _ ∷ p ∷ r ∷ _ ∷ _ ∷ _ ∷ _ ∷ _ ∷ _ ∷ _ ∷ _ ∷ f ∷ _) =
    ground arith
parse_job-job_of_header _ = ground arith

pub is_s7_response-Returns : (answer : Bytes) → Returns (is_s7_response answer)
unfolding is_s7_response
is_s7_response-Returns answer = elim (Bool-cases (leb 8 (length answer))) [
  | inl h ↦ rw h (
      Returns-bind _ _ (byte_at-Returns answer 0 (ground arith))
        λ version. Returns-bind _ _ (byte_at-Returns answer 7 (ground arith)) λ protocol. (_, refl))
  | inr h ↦ rw h (_, refl)
]

-- The exceptions that `parse_szl` catches.
abbrev IsCaught {ℓ} : {A : Type ℓ} → Result A → Type 0
IsCaught (ok _) = Unit
IsCaught (err index_error) = Unit
IsCaught (err struct_error) = Unit
IsCaught (err _) = ⊥

IsCaught-bind {ℓ κ} :
    {A : Type ℓ} {B : Type κ} (m : Result A) (f : A → Result B)
    → IsCaught m
    → ((a : A) → IsCaught (f a))
    → IsCaught (m >>= f)
IsCaught-bind (ok a) f h k = k a
IsCaught-bind (err index_error) f h k = h
IsCaught-bind (err struct_error) f h k = h
IsCaught-bind (err value_error) f h k = h
IsCaught-bind (err os_error) f h k = h
IsCaught-bind (err runtime_error) f h k = h
IsCaught-bind (err key_error) f h k = h

byte_at-IsCaught : (xs : Bytes) (i : ℕ) → IsCaught (byte_at xs i)
unfolding byte_at
byte_at-IsCaught [] i = tt
byte_at-IsCaught (x ∷ xs) zero = tt
byte_at-IsCaught (x ∷ xs) (suc i) = byte_at-IsCaught xs i

unpack_u16-IsCaught : (xs : Bytes) → IsCaught (unpack_u16 big xs)
unfolding unpack_u16
unpack_u16-IsCaught (a ∷ b ∷ []) = tt
unpack_u16-IsCaught _ = tt

szl_order-IsCaught : (answer : Bytes) → IsCaught (szl_order answer)
unfolding szl_order
szl_order-IsCaught answer =
    IsCaught-bind (unpack_u16 big (slice answer 13 15)) _ (unpack_u16-IsCaught _) λ parlen.
      elim (Bool-cases (leb 12 (length (drop (17 + parlen) answer)))) [
        | inl h ↦ rw h (
            IsCaught-bind (byte_at (drop (17 + parlen) answer) 0) _ (byte_at-IsCaught _ 0) λ code.
              elim (Bool-cases
                (code == 0xFF && leb 20 (length (drop 12 (drop (17 + parlen) answer))))) [
                  | inl k ↦ rw k tt
                  | inr k ↦ rw k tt
                ])
        | inr h ↦ rw h tt
      ]

or_plain-Returns : (m : Result (Option Text)) → IsCaught m → Returns (or_plain m)
unfolding or_plain
or_plain-Returns (ok order) h = (_, refl)
or_plain-Returns (err index_error) h = (_, refl)
or_plain-Returns (err struct_error) h = (_, refl)
or_plain-Returns (err value_error) h = absurd h
or_plain-Returns (err os_error) h = absurd h
or_plain-Returns (err runtime_error) h = absurd h
or_plain-Returns (err key_error) h = absurd h

-- An identification answer is read with no exception, however short or malformed it is.
pub parse_szl-Returns : (answer : Bytes) → Returns (parse_szl answer)
unfolding parse_szl
parse_szl-Returns answer = Returns-bind _ _ (is_s7_response-Returns answer) λ framed.
    elim (Bool-cases (not framed)) [
      | inl h ↦ rw h (_, refl)
      | inr h ↦ rw h (or_plain-Returns (szl_order answer) (szl_order-IsCaught answer))
    ]
