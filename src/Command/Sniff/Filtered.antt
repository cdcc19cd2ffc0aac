-- ===== src/Command/Sniff/Filtered.antt =====
-- Which packets of a capture the command `sniff` shows.
use mathlib.Core.Path.{subst}
use pyscan.Wire.{Bytes}
use pyscan.Capture.{Frame}
use pyscan.Prelude.{
  ℕ, suc, zero, ◌+◌, ◌<◌, ◌≡◌, refl, sym, ap, ◌∙◌, ◌⊎◌, inl, inr, true, false, Option, none, some,
  List, [], ◌∷◌, ◌++◌, append-nil, append_assoc, arith, Text, keep, length, take, length-append,
  take_length-append, leb, if◌then◌else◌, leb→le, Bool-cases, ℤ, pos, negsuc, Exception,
}
use pyscan.Packet.Transport.{Packet}
use pyscan.Command.Sniff.{
  sniff, is_enough, sniff_loop, is_filtered, Body, Source, decode, source_end,
}
use pyscan.Command.{Body, goes}
use pyscan.Packet.{decode}

-- Every packet of the frames that the filter lets through, in their order.
abbrev pub matches : {T : Type 0} → (Bytes → Text) → Option Text → List (Frame T) → List (Packet T)
matches ntop want [] = []
matches ntop want ((ts, linktype, frame) ∷ rest) =
    if is_filtered want (decode ntop frame linktype ts).protocol
    then matches ntop want rest
    else decode ntop frame linktype ts ∷ matches ntop want rest

-- The name that a protocol has to have; an empty name is no filter.
abbrev pub wanted : (Text → Text) → Option Text → Option Text
wanted upper none = none
wanted upper (some []) = none
wanted upper (some (c ∷ proto)) = some (upper (c ∷ proto))

-- How many packets are asked for: a negative number is as good as one, and zero is no limit.
abbrev pub limit_of : Option ℤ → Option ℕ
limit_of none = none
limit_of (some (pos zero)) = none
limit_of (some (pos (suc n))) = some (suc n)
limit_of (some (negsuc n)) = some 1

-- The first packets up to the limit, if the source has that many; else what becomes of the source.
abbrev pub up_to :
    {T : Type 0} → Option ℕ → List (Packet T) → Option Exception → Body (List (Packet T))
up_to none found raised = source_end raised found
up_to (some n) found raised =
    if leb n (length found) then goes (take n found) else source_end raised found

-- Fewer packets than the limit.
IsBelow : Option ℕ → ℕ → Type 0
IsBelow none size = Unit
IsBelow (some n) size = size < n

IsBelow-zero : (count : Option ℤ) → IsBelow (limit_of count) 0
unfolding IsBelow
IsBelow-zero none = tt
IsBelow-zero (some (pos zero)) = tt
IsBelow-zero (some (pos (suc n))) = omega arith
IsBelow-zero (some (negsuc n)) = omega arith

is_enough-limit_of :
    (count : Option ℤ) (size : ℕ)
    → IsBelow (limit_of count) size
    → ((is_enough count (size + 1) ≡ true) × (limit_of count ≡ some (size + 1)))
      ⊎ ((is_enough count (size + 1) ≡ false) × IsBelow (limit_of count) (size + 1))
unfolding is_enough IsBelow
is_enough-limit_of none size b = inr (refl, tt)
is_enough-limit_of (some (pos zero)) size b = inr (refl, tt)
is_enough-limit_of (some (pos (suc n))) size b = elim (Bool-cases (leb (suc n) (size + 1))) [
  | inl h ↦ inl (h, ap some (omega (arith, b, leb→le (suc n) (size + 1) h)))
  | inr h ↦ inr (h, ground arith)
]
is_enough-limit_of (some (negsuc n)) size b = inl (refl, ap some (omega (arith, b)))

module _ {T : Type 0} (ntop : Bytes → Text) where
  up_to_below :
      (limit : Option ℕ) (xs : List (Packet T)) (raised : Option Exception)
      → IsBelow limit (length xs)
      → up_to limit xs raised ≡ source_end raised xs
  unfolding IsBelow
  up_to_below none xs raised b = refl
  up_to_below (some n) xs raised b =
      let missing : leb n (length xs) ≡ false = ground arith in rw missing refl

  up_to_full :
      (xs ys : List (Packet T)) (raised : Option Exception)
      → up_to (some (length xs)) (xs ++ ys) raised ≡ goes xs
  up_to_full xs ys raised =
      let there : leb (length xs) (length (xs ++ ys)) ≡ true =
        ground (arith, length-append xs ys) in
      rw there (ap goes (take_length-append xs ys))

  sniff_loop-up_to :
      (want : Option Text) (count : Option ℤ) (frames : List (Frame T)) (raised : Option Exception)
      (shown : List (Packet T))
      → IsBelow (limit_of count) (length shown)
      → sniff_loop ntop want count shown frames raised
        ≡ up_to (limit_of count) (shown ++ matches ntop want frames) raised
  unfolding sniff_loop
  sniff_loop-up_to want count [] raised shown b = sym (
      ap (λ xs. up_to (limit_of count) xs raised) (append-nil shown)
      ∙ up_to_below (limit_of count) shown raised b)
  sniff_loop-up_to want count ((ts, linktype, frame) ∷ rest) raised shown b =
      let pkt = decode ntop frame linktype ts in
      let longer : length (shown ++ (pkt ∷ [])) ≡ length shown + 1 =
        length-append shown (pkt ∷ []) in
      let regroup : shown ++ (pkt ∷ matches ntop want rest)
          ≡ (shown ++ (pkt ∷ [])) ++ matches ntop want rest =
        sym (append_assoc shown (pkt ∷ []) (matches ntop want rest)) in
      elim (Bool-cases (is_filtered want (decode ntop frame linktype ts).protocol)) [
        | inl skip ↦ rw skip (sniff_loop-up_to want count rest raised shown b)
        | inr keep ↦ rw keep (elim (is_enough-limit_of count (length shown) b) [
          | inl (enough, limit) ↦ rw (ap (is_enough count) longer ∙ enough) (
              sym (
                ap (λ l. up_to l (shown ++ (pkt ∷ matches ntop want rest)) raised)
                  (limit ∙ ap some (sym longer))
                ∙ ap (λ xs. up_to (some (length (shown ++ (pkt ∷ [])))) xs raised) regroup
                ∙ up_to_full (shown ++ (pkt ∷ [])) (matches ntop want rest) raised))
          | inr (more, b') ↦ rw (ap (is_enough count) longer ∙ more) (
              sniff_loop-up_to want count rest raised (shown ++ (pkt ∷ []))
                (subst (IsBelow (limit_of count)) (sym longer) b')
              ∙ sym (ap (λ xs. up_to (limit_of count) xs raised) regroup))
        ])
      ]

  -- `sniff` shows the first packets, in the order of the capture, that the filter lets through, as
  -- many as are asked for; a capture with fewer is read to its end, and what it raises there ends the
  -- command with nothing shown. A count of zero is none, and a negative count is one.
  pub sniff_shows :
      (upper : Text → Text) (proto : Option Text) (count : Option ℤ) (source : Source T)
      → sniff ntop upper proto count source
        ≡ up_to (limit_of count) (matches ntop (wanted upper proto) source.frames) source.raised
  unfolding sniff
  sniff_shows upper none count source =
      sniff_loop-up_to none count source.frames source.raised [] (IsBelow-zero count)
  sniff_shows upper (some []) count source =
      sniff_loop-up_to none count source.frames source.raised [] (IsBelow-zero count)
  sniff_shows upper (some (c ∷ proto)) count source =
      sniff_loop-up_to (some (upper (c ∷ proto))) count source.frames source.raised []
        (IsBelow-zero count)
