-- ===== src/Iec104/Total.antt =====
-- `parse_apdus` and the identification never raise, and the limit holds.
use pyscan.Wire.Laws.{byte_at-Returns}
use pyscan.Wire.{Bytes}
use pyscan.Prelude.{
  ℕ, suc, zero, ◌+◌, ◌≤◌, ◌≡◌, refl, ◌⊎◌, inl, inr, true, false, Option, none, some, List, [], ◌∷◌,
  arith, length, slice, ltb, leb, ◌==◌, low_bits, leb→le, Bool-cases, Result, ok, ◌>>=◌, Returns,
  Returns-bind,
}
use pyscan.Iec104.{
  Apdu, optional_byte, optional_address, parse_i_format, parse_apdu, at_start, apdu_round,
  apdu_loop, parse_apdus,
}

optional_byte-Returns : (apdu : Bytes) (i : ℕ) → Returns (optional_byte apdu i)
unfolding optional_byte
optional_byte-Returns apdu i = elim (Bool-cases (ltb i (length apdu))) [
  | inl h ↦ rw h (Returns-bind _ _ (byte_at-Returns apdu i (ground arith)) λ b. (_, refl))
  | inr h ↦ rw h (_, refl)
]

optional_address-Returns : (apdu : Bytes) → Returns (optional_address apdu)
unfolding optional_address
optional_address-Returns apdu = elim (Bool-cases (ltb (6 + 5) (length apdu))) [
  | inl h ↦ rw h (
      Returns-bind _ _ (byte_at-Returns apdu (6 + 4) (ground arith))
        λ low. Returns-bind _ _ (byte_at-Returns apdu (6 + 5) (ground arith)) λ high. (_, refl))
  | inr h ↦ rw h (_, refl)
]

parse_i_format-Returns : (apdu : Bytes) (control1 : ℕ) → Returns (parse_i_format apdu control1)
unfolding parse_i_format
parse_i_format-Returns apdu control1 = elim (Bool-cases (ltb (length apdu) (6 + 1))) [
  | inl h ↦ rw h (_, refl)
  | inr h ↦ rw h (
      Returns-bind _ _ (byte_at-Returns apdu 6 (ground arith)) λ type_id.
        Returns-bind _ _ (optional_byte-Returns apdu (6 + 2))
          λ cause. Returns-bind _ _ (optional_address-Returns apdu) λ address. (_, refl))
]

parse_apdu-Returns : (apdu : Bytes) → 6 ≤ length apdu → Returns (parse_apdu apdu)
unfolding parse_apdu
parse_apdu-Returns apdu h = Returns-bind _ _ (byte_at-Returns apdu 2 (omega arith)) λ control1.
    elim (Bool-cases (low_bits control1 1 == 0)) [
      | inl k ↦ rw k (parse_i_format-Returns apdu control1)
      | inr k ↦ rw k (elim (Bool-cases (low_bits control1 2 == 1)) [
        | inl r ↦ rw r (_, refl)
        | inr r ↦ rw r (_, refl)
      ])
    ]

-- `at_start` tells that two bytes are there.
at_start_cases :
    (payload : Bytes) (offset : ℕ)
    → (at_start payload offset ≡ ok false)
      ⊎ ((at_start payload offset ≡ ok true) × (offset + 2 ≤ length payload))
unfolding at_start
at_start_cases payload offset = elim (Bool-cases (leb (offset + 2) (length payload))) [
  | inl h ↦
      let (b, e) = byte_at-Returns payload offset (ground arith) in
      rw h (
        rw e (elim (Bool-cases (b == 0x68)) [
          | inl t ↦ rw t (inr (refl, leb→le _ _ h))
          | inr t ↦ rw t (inl refl)
        ]))
  | inr h ↦ rw h (inl refl)
]

apdu_round-Returns : (payload : Bytes) (offset : ℕ) → Returns (apdu_round payload offset)
unfolding apdu_round
apdu_round-Returns payload offset = elim (at_start_cases payload offset) [
  | inl e ↦ rw e (_, refl)
  | inr (e, h) ↦ rw e (
      Returns-bind _ _ (byte_at-Returns payload (offset + 1) (omega arith)) λ size.
        elim (Bool-cases (ltb (length (slice payload offset (offset + 2 + size))) 6)) [
          | inl k ↦ rw k (_, refl)
          | inr k ↦ rw k (Returns-bind _ _ (parse_apdu-Returns _ (ground arith)) λ first. (_, refl))
        ])
]

-- The result is a list of at most `room` APDUs.
abbrev Bounded : ℕ → Result (List Apdu) → Type 0
Bounded room m = (found : List Apdu) × (m ≡ ok found) × (length found ≤ room)

extend-Bounded :
    (room : ℕ) (next : ℕ → Result (List Apdu)) (found : Option (Apdu × ℕ))
    → ((size : ℕ) → Bounded room (next size))
    → Bounded (suc room) (elim found [
      | none ↦ ok []
      | some (first, size) ↦ (do rest ← next size; ok (first ∷ rest))
    ])
extend-Bounded room next none h = ([], refl, omega arith)
extend-Bounded room next (some (first, size)) h =
    let (rest, e, b) = h size in (first ∷ rest, rw e, omega arith)

apdu_loop-Bounded :
    (room : ℕ) (payload : Bytes) (offset : ℕ) → Bounded room (apdu_loop room payload offset)
unfolding apdu_loop
apdu_loop-Bounded zero payload offset = ([], refl, omega arith)
apdu_loop-Bounded (suc room) payload offset =
    let (found, e) = apdu_round-Returns payload offset in
    rw e (
      extend-Bounded room (λ size. apdu_loop room payload (offset + size)) found
        (λ size. apdu_loop-Bounded room payload (offset + size)))

-- Splitting a payload into APDUs returns on every payload and with every limit, with no
-- exception, and the result has no more APDUs than the limit.
pub parse_apdus-bounded :
    (payload : Bytes) (limit : ℕ)
    → (found : List Apdu) × (parse_apdus payload limit ≡ ok found) × (length found ≤ limit)
unfolding parse_apdus
parse_apdus-bounded payload limit = apdu_loop-Bounded limit payload 0
