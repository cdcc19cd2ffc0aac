-- ===== src/Iec104/Stream.antt =====
-- Several APDUs in one TCP payload: the loop of `parse_apdus` against a parse of each frame.
use pyscan.Wire.Laws.{byte_at-drop}
use pyscan.Wire.{Bytes, byte_at}
use pyscan.Prelude.{
  ℕ, suc, zero, ◌+◌, ◌-◌, ◌≤◌, ◌≡◌, refl, sym, ap, ◌∙◌, true, false, none, some, List, [], ◌∷◌,
  ◌++◌, arith, length, drop, length-drop, take-append, drop-append, drop-drop, All, ltb, leb,
  Result, ok, ◌>>=◌, bind_congr, bind_assoc,
}
use pyscan.Iec104.{apdu_loop, apdu_round, at_start, parse_apdu, Apdu, parse_apdus}

first-drop :
    (payload : Bytes) (offset : ℕ) → byte_at payload offset ≡ byte_at (drop offset payload) 0
first-drop payload offset = ap (byte_at payload) (omega arith) ∙ byte_at-drop offset 0 payload

fits-drop : (n offset : ℕ) → leb (offset + 2) n ≡ leb 2 (n - offset)
fits-drop n offset = ground arith

minus_zero : (n : ℕ) → n - 0 ≡ n
minus_zero n = omega arith

at_start-drop :
    (payload : Bytes) (offset : ℕ) → at_start payload offset ≡ at_start (drop offset payload) 0
unfolding at_start
at_start-drop payload offset =
    simp (first-drop payload offset, length-drop offset payload, fits-drop, minus_zero)

window : (offset size : ℕ) → offset + 2 + size - offset ≡ 2 + size - 0
window offset size = omega arith

apdu_round-drop :
    (payload : Bytes) (offset : ℕ) → apdu_round payload offset ≡ apdu_round (drop offset payload) 0
unfolding apdu_round
apdu_round-drop payload offset =
    simp (at_start-drop payload offset, byte_at-drop offset 1 payload, window)

-- The loop sees only what stands behind its offset.
apdu_loop-drop :
    (room : ℕ) (payload : Bytes) (offset : ℕ)
    → apdu_loop room payload offset ≡ apdu_loop room (drop offset payload) 0
unfolding apdu_loop
apdu_loop-drop zero payload offset = refl
apdu_loop-drop (suc room) payload offset = rw (apdu_round-drop payload offset) (
    bind_congr (apdu_round (drop offset payload) 0) _ _ elim [
      | none ↦ refl
      | some (first, size) ↦
          ap (λ m. m >>= λ rest. ok (first ∷ rest))
            (apdu_loop-drop room payload (offset + size)
              ∙ ap (λ p. apdu_loop room p 0)
                  (sym
                    (drop-drop offset (0 + size) payload ∙ ap (λ k. drop k payload) (omega arith)))
              ∙ sym (apdu_loop-drop room (drop offset payload) (0 + size)))
    ])

-- The frame of a body: the start octet, the length, the body.
abbrev pub framed : Bytes → Bytes
framed body = 0x68 ∷ length body ∷ body

at_start-framed : (body rest : Bytes) → at_start (framed body ++ rest) 0 ≡ ok true
unfolding at_start byte_at
at_start-framed body rest = ground arith

long-framed : (body : Bytes) → 4 ≤ length body → ltb (length (framed body)) 6 ≡ false
long-framed body h = ground arith

apdu_round-framed :
    (body rest : Bytes)
    → 4 ≤ length body
    → apdu_round (framed body ++ rest) 0
      ≡ (do first ← parse_apdu (framed body); ok (some (first, 2 + length body)))
unfolding apdu_round byte_at
apdu_round-framed body rest h = rw (at_start-framed body rest) (
    rw (take-append (0 + 2 + length body - 0) (framed body) rest (omega arith))
      (rw (long-framed body h)))

-- One round over a complete frame, whatever follows it.
apdu_loop-framed :
    (room : ℕ) (body rest : Bytes)
    → 4 ≤ length body
    → apdu_loop (suc room) (framed body ++ rest) 0
      ≡ (do first ← parse_apdu (framed body); others ← apdu_loop room rest 0; ok (first ∷ others))
unfolding apdu_loop
apdu_loop-framed room body rest h = rw (apdu_round-framed body rest h) (
    bind_assoc (parse_apdu (framed body)) _ _
    ∙ bind_congr (parse_apdu (framed body)) _ _ (λ first.
      ap (λ m. m >>= λ others. ok (first ∷ others))
        (apdu_loop-drop room (framed body ++ rest) (0 + (2 + length body))
          ∙ ap (λ p. apdu_loop room p 0)
              (drop-append (0 + (2 + length body)) (framed body) rest (omega arith)))))

-- The frames of several bodies, one behind the other.
abbrev pub stream : List Bytes → Bytes
stream [] = []
stream (body ∷ rest) = framed body ++ stream rest

-- Each frame parsed on its own.
abbrev pub parse_each : List Bytes → Result (List Apdu)
parse_each [] = ok []
parse_each (body ∷ rest) = do
  first ← parse_apdu (framed body)
  others ← parse_each rest
  ok (first ∷ others)

apdu_loop-stream :
    (room : ℕ) (bodies : List Bytes)
    → All (λ body. 4 ≤ length body) bodies
    → length bodies ≤ room
    → apdu_loop room (stream bodies) 0 ≡ parse_each bodies
apdu_loop-stream zero [] hs h = unfold apdu_loop in refl
apdu_loop-stream (suc room) [] hs h = unfold apdu_loop apdu_round at_start in refl
apdu_loop-stream zero (body ∷ rest) hs h = absurd (omega arith)
apdu_loop-stream (suc room) (body ∷ rest) (b, hs) h =
    apdu_loop-framed room body (stream rest) b ∙ rw (apdu_loop-stream room rest hs (omega arith))

-- A payload that holds complete APDUs one behind the other, no more of them than the limit, is
-- split into exactly these: the result is that of parsing each frame on its own, so no APDU
-- hides behind another.
pub parse_apdus-stream :
    (bodies : List Bytes) (limit : ℕ)
    → All (λ body. 4 ≤ length body) bodies
    → length bodies ≤ limit
    → parse_apdus (stream bodies) limit ≡ parse_each bodies
unfolding parse_apdus
parse_apdus-stream bodies limit hs h = apdu_loop-stream limit bodies hs h
