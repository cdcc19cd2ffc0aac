-- ===== src/Packet/Total.antt =====
-- No layer of pyscan/domain/packet.py raises, whatever the bytes.
use pyscan.Prelude.{
  ℕ, suc, zero, ◌+◌, ◌≤◌, ◌≡◌, refl, inl, inr, Bool, true, false, ◌&&◌, ◌||◌, [], ◌∷◌, arith, Text,
  length, take, drop, length-take, length-drop, ltb, leb, ◌==◌, if◌then◌else◌, shr, Bool-cases,
  Result, ok, err, ◌>>=◌, Returns, Returns-bind,
}
use pyscan.Wire.{Bytes, big}
use pyscan.Wire.Laws.{byte_at-Returns, unpack_u16-Returns}
use pyscan.Packet.Transport.{decode_tcp, decode_udp, decode_icmp, Packet}
use pyscan.Packet.Ip.{
  inet_ntoa, inet_ntop, skip_loop, skip_v6_extensions, decode_transport, decode_ipv4, decode_ipv6,
  decode_ip, is_v6_ext_variable, is_v6_ext_fixed8,
}
use pyscan.Packet.{decode_ethertype, decode_linux_sll, decode_ethernet, decode_link, Packet, decode}

inet_ntoa-Returns :
    (n : ℕ) (xs : Bytes) → 4 + n ≤ length xs → Returns (inet_ntoa (take 4 (drop n xs)))
unfolding inet_ntoa
inet_ntoa-Returns zero (a ∷ b ∷ c ∷ d ∷ xs) h = (_, refl)
inet_ntoa-Returns zero (a ∷ b ∷ c ∷ []) h = absurd (omega arith)
inet_ntoa-Returns zero (a ∷ b ∷ []) h = absurd (omega arith)
inet_ntoa-Returns zero (a ∷ []) h = absurd (omega arith)
inet_ntoa-Returns n [] h = absurd (omega arith)
inet_ntoa-Returns (suc n) (x ∷ xs) h = inet_ntoa-Returns n xs (omega arith)

inet_ntop-Returns :
    (ntop : Bytes → Text) (n : ℕ) (xs : Bytes)
    → 16 + n ≤ length xs
    → Returns (inet_ntop ntop (take 16 (drop n xs)))
unfolding inet_ntop
inet_ntop-Returns ntop n xs h =
    let full : length (take 16 (drop n xs)) ≡ 16 =
      omega (arith, length-take 16 (drop n xs), length-drop n xs) in
    rw full (_, refl)

-- The walk over the extension headers reads only bytes that its tests have seen.
skip_loop-Returns :
    (rounds next_header : ℕ) (body : Bytes) → Returns (skip_loop rounds next_header body)
unfolding skip_loop
skip_loop-Returns zero next_header body = (_, refl)
skip_loop-Returns (suc rounds) h body =
    elim (Bool-cases (is_v6_ext_variable h && leb 2 (length body))) [
      | inl v ↦
          rw (v, skip_loop)
            (Returns-bind _ _ (byte_at-Returns body 1 (ground arith)) λ units.
              Returns-bind _ _ (byte_at-Returns body 0 (ground arith))
                λ following. skip_loop-Returns rounds following _)
      | inr v ↦
          rw (v, skip_loop)
            (elim (Bool-cases (is_v6_ext_fixed8 h && leb 8 (length body))) [
              | inl f ↦ rw f (
                  Returns-bind _ _ (byte_at-Returns body 0 (ground arith))
                    λ following. skip_loop-Returns rounds following _)
              | inr f ↦ rw f (_, refl)
            ])
    ]

skip_v6_extensions-Returns :
    (next_header : ℕ) (body : Bytes) → Returns (skip_v6_extensions next_header body)
unfolding skip_v6_extensions
skip_v6_extensions-Returns next_header body = skip_loop-Returns 8 next_header body

module _ {T : Type 0} (ts : T) (size : ℕ) where
  -- A packet is returned, with the time of the frame.
  abbrev Decodes : Result (Packet T) → Type 0
  Decodes m = (packet : Packet T) × (m ≡ ok packet) × (packet.ts ≡ ts)

  Decodes-bind :
      {A : Type 0} (m : Result A) (f : A → Result (Packet T))
      → Returns m
      → ((a : A) → Decodes (f a))
      → Decodes (m >>= f)
  Decodes-bind (ok a) f h k = k a
  Decodes-bind (err e) f h k = absurd cc

  dispatch-Decodes :
      (a b c d : Bool) (m n o p q : Result (Packet T))
      → Decodes m
      → Decodes n
      → Decodes o
      → Decodes p
      → Decodes q
      → Decodes (if a then m else if b then n else if c then o else if d then p else q)
  dispatch-Decodes true b c d m n o p q hm hn ho hp hq = hm
  dispatch-Decodes false true c d m n o p q hm hn ho hp hq = hn
  dispatch-Decodes false false true d m n o p q hm hn ho hp hq = ho
  dispatch-Decodes false false false true m n o p q hm hn ho hp hq = hp
  dispatch-Decodes false false false false m n o p q hm hn ho hp hq = hq

  module _ (src dst : Text) (version : ℕ) where
    decode_tcp-Decodes : (segment : Bytes) → Decodes (decode_tcp segment ts size src dst version)
    unfolding decode_tcp
    decode_tcp-Decodes segment = elim (Bool-cases (ltb (length segment) 20)) [
      | inl h ↦ rw h (_, refl, refl)
      | inr h ↦ rw h (
          let long : 20 ≤ length segment = ground arith in
          Decodes-bind _ _ (unpack_u16-Returns big 0 segment (omega arith)) λ sport.
            Decodes-bind _ _ (unpack_u16-Returns big 2 segment (omega arith)) λ dport.
              Decodes-bind _ _ (byte_at-Returns segment 12 (omega arith)) λ offset.
                Decodes-bind _ _ (byte_at-Returns segment 13 (omega arith))
                  λ flags. (_, refl, refl))
    ]

    decode_udp-Decodes : (segment : Bytes) → Decodes (decode_udp segment ts size src dst version)
    unfolding decode_udp
    decode_udp-Decodes segment = elim (Bool-cases (ltb (length segment) 8)) [
      | inl h ↦ rw h (_, refl, refl)
      | inr h ↦ rw h (
          let long : 8 ≤ length segment = ground arith in
          Decodes-bind _ _ (unpack_u16-Returns big 0 segment (omega arith)) λ sport.
            Decodes-bind _ _ (unpack_u16-Returns big 2 segment (omega arith)) λ dport.
              Decodes-bind _ _ (unpack_u16-Returns big 4 segment (omega arith))
                λ ulen. (_, refl, refl))
    ]

    decode_icmp-Decodes :
        (message : Bytes) (name : Text) → Decodes (decode_icmp message ts size src dst version name)
    unfolding decode_icmp
    decode_icmp-Decodes message name = elim (Bool-cases (ltb (length message) 2)) [
      | inl h ↦ rw h (_, refl, refl)
      | inr h ↦ rw h (
          let long : 2 ≤ length message = ground arith in
          Decodes-bind _ _ (byte_at-Returns message 0 (omega arith)) λ icmp_type.
            Decodes-bind _ _ (byte_at-Returns message 1 (omega arith)) λ code. (_, refl, refl))
    ]

    decode_transport-Decodes :
        (proto : ℕ) (body : Bytes) → Decodes (decode_transport proto body ts size src dst version)
    unfolding decode_transport
    decode_transport-Decodes proto body =
        dispatch-Decodes _ _ _ _ _ _ _ _ _ (decode_tcp-Decodes body) (decode_udp-Decodes body)
          (decode_icmp-Decodes body _) (_, refl, refl) (_, refl, refl)

  decode_ipv4-Decodes : (packet : Bytes) → Decodes (decode_ipv4 packet ts size)
  unfolding decode_ipv4
  decode_ipv4-Decodes packet = elim (Bool-cases (ltb (length packet) 20)) [
    | inl h ↦ rw h (_, refl, refl)
    | inr h ↦ rw h (
        let long : 20 ≤ length packet = ground arith in
        Decodes-bind _ _ (byte_at-Returns packet 0 (omega arith)) λ first.
          Decodes-bind _ _ (byte_at-Returns packet 9 (omega arith)) λ proto.
            Decodes-bind _ _ (inet_ntoa-Returns 12 packet (omega arith)) λ src.
              Decodes-bind _ _ (inet_ntoa-Returns 16 packet (omega arith)) λ dst.
                Decodes-bind _ _ (unpack_u16-Returns big 2 packet (omega arith))
                  λ total. decode_transport-Decodes src dst 4 proto _)
  ]

  module _ (ntop : Bytes → Text) where
    decode_ipv6-Decodes : (packet : Bytes) → Decodes (decode_ipv6 ntop packet ts size)
    unfolding decode_ipv6
    decode_ipv6-Decodes packet = elim (Bool-cases (ltb (length packet) 40)) [
      | inl h ↦ rw h (_, refl, refl)
      | inr h ↦ rw h (
          let long : 40 ≤ length packet = ground arith in
          Decodes-bind _ _ (unpack_u16-Returns big 4 packet (omega arith)) λ payload_len.
            Decodes-bind _ _ (inet_ntop-Returns ntop 8 packet (omega arith)) λ src.
              Decodes-bind _ _ (inet_ntop-Returns ntop 24 packet (omega arith)) λ dst.
                Decodes-bind _ _ (byte_at-Returns packet 6 (omega arith)) λ first_header.
                  Decodes-bind _ _ (skip_v6_extensions-Returns first_header _)
                    λ chain. decode_transport-Decodes src dst 6 chain.0 chain.1)
    ]

    decode_ip-Decodes : (packet : Bytes) → Decodes (decode_ip ntop packet ts size)
    unfolding decode_ip
    decode_ip-Decodes [] = (_, refl, refl)
    decode_ip-Decodes (first ∷ rest) = elim (Bool-cases (shr first 4 == 4)) [
      | inl h ↦ rw h (decode_ipv4-Decodes (first ∷ rest))
      | inr h ↦ rw h (elim (Bool-cases (shr first 4 == 6)) [
        | inl k ↦ rw k (decode_ipv6-Decodes (first ∷ rest))
        | inr k ↦ rw k (_, refl, refl)
      ])
    ]

    decode_ethertype-Decodes :
        (ethertype : ℕ) (payload : Bytes)
        → Decodes (decode_ethertype ntop ethertype payload ts size)
    unfolding decode_ethertype
    decode_ethertype-Decodes ethertype payload =
        elim (Bool-cases (ethertype == 0x0800 || ethertype == 0x86DD)) [
          | inl h ↦ rw h (decode_ip-Decodes payload)
          | inr h ↦ rw h (elim (Bool-cases (ethertype == 0x0806)) [
            | inl k ↦ rw k (_, refl, refl)
            | inr k ↦ rw k (_, refl, refl)
          ])
        ]

    decode_ethernet-Decodes : (frame : Bytes) → Decodes (decode_ethernet ntop frame ts size)
    unfolding decode_ethernet
    decode_ethernet-Decodes frame = elim (Bool-cases (ltb (length frame) 14)) [
      | inl h ↦ rw h (_, refl, refl)
      | inr h ↦ rw h (
          let long : 14 ≤ length frame = ground arith in
          Decodes-bind _ _ (unpack_u16-Returns big 12 frame (omega arith)) λ ethertype.
            elim (Bool-cases (ethertype == 0x8100 && leb 18 (length frame))) [
              | inl tag ↦ rw tag (
                  Decodes-bind _ _ (unpack_u16-Returns big 16 frame (ground arith))
                    λ inner. decode_ethertype-Decodes inner _)
              | inr tag ↦ rw tag (decode_ethertype-Decodes ethertype _)
            ])
    ]

    decode_linux_sll-Decodes : (frame : Bytes) → Decodes (decode_linux_sll ntop frame ts size)
    unfolding decode_linux_sll
    decode_linux_sll-Decodes frame = elim (Bool-cases (ltb (length frame) 16)) [
      | inl h ↦ rw h (_, refl, refl)
      | inr h ↦ rw h (
          let long : 16 ≤ length frame = ground arith in
          Decodes-bind _ _ (unpack_u16-Returns big 14 frame (omega arith))
            λ ethertype. decode_ethertype-Decodes ethertype _)
    ]

    decode_link-Decodes :
        (frame : Bytes) (linktype : ℕ) → Decodes (decode_link ntop frame linktype ts size)
    unfolding decode_link
    decode_link-Decodes frame linktype = elim (Bool-cases (linktype == 1)) [
      | inl h ↦ rw h (decode_ethernet-Decodes frame)
      | inr h ↦ rw h (elim (Bool-cases (linktype == 113)) [
        | inl k ↦ rw k (decode_linux_sll-Decodes frame)
        | inr k ↦ rw k (elim (Bool-cases (linktype == 101)) [
          | inl r ↦ rw r (decode_ip-Decodes frame)
          | inr r ↦ rw r (_, refl, refl)
        ])
      ])
    ]

    -- No decoder raises, whatever the bytes, the link type and the claimed length: each read is
    -- within what the tests before it have seen, so the handler of `decode` never runs.
    pub decode_link-Returns :
        (frame : Bytes) (linktype : ℕ) → Returns (decode_link ntop frame linktype ts size)
    decode_link-Returns frame linktype =
        let (packet, e, stamp) = decode_link-Decodes frame linktype in (packet, e)

-- A decoded packet carries the time of its frame.
pub decode_ts :
    {T : Type 0} (ntop : Bytes → Text) (frame : Bytes) (linktype : ℕ) (ts : T)
    → (decode ntop frame linktype ts).ts ≡ ts
unfolding decode
decode_ts ntop frame linktype ts =
    let (packet, e, stamp) = decode_link-Decodes ts (length frame) ntop frame linktype in rw e stamp
