-- ===== src/Packet/Ip.antt =====
-- The IPv4 and IPv6 layers of pyscan/domain/packet.py.
use pyscan.Prelude.{
  ℕ, suc, zero, ◌+◌, ◌*◌, Bool, true, false, ◌&&◌, ◌||◌, Option, none, some, [], ◌∷◌, ◌++◌, Text,
  codes, text_eq, decimal, length, drop, slice, Table, lookup, ltb, leb, ◌==◌, if◌then◌else◌, shr,
  low_bits, value_error, os_error, Result, ok, err, ◌>>=◌,
}
use pyscan.Wire.{Bytes, byte_at, big, unpack_u16}
use pyscan.Packet.Transport.{Packet, unknown_packet, ip_packet, decode_tcp, decode_udp, decode_icmp}

-- `socket.inet_ntoa`: four bytes in dotted decimal.
unfoldable pub inet_ntoa : Bytes → Result Text
inet_ntoa (a ∷ b ∷ c ∷ d ∷ []) =
    ok (decimal a ++ (b'.' ∷ (decimal b ++ (b'.' ∷ (decimal c ++ (b'.' ∷ decimal d))))))
inet_ntoa _ = err os_error

-- `socket.inet_ntop(AF_INET6, ...)` takes exactly 16 bytes.
unfoldable pub inet_ntop : (Bytes → Text) → Bytes → Result Text
inet_ntop ntop address = if length address == 16 then ok (ntop address) else err value_error

abbrev pub ip_protocols : Table Text
ip_protocols = (1, codes "ICMP") ∷ (6, codes "TCP") ∷ (17, codes "UDP") ∷ (58, codes "ICMPv6") ∷ []

-- `_IP_PROTO.get(proto, f"IP/{proto}")`
protocol_name_of : ℕ → Option Text → Text
protocol_name_of proto none = codes "IP/" ++ decimal proto
protocol_name_of proto (some name) = name

unfoldable pub protocol_name : ℕ → Text
unfolding protocol_name_of lookup
protocol_name proto = protocol_name_of proto (lookup proto ip_protocols)

abbrev pub v6_no_next : ℕ
v6_no_next = 59

-- Membership in `_V6_EXT_VARIABLE`.
unfoldable pub is_v6_ext_variable : ℕ → Bool
is_v6_ext_variable h = h == 0 || (h == 43 || (h == 60 || h == 51))

unfoldable pub is_v6_ext_fixed8 : ℕ → Bool
is_v6_ext_fixed8 h = h == 44

-- The loop of at most eight rounds over the chain of extension headers.
unfoldable pub skip_loop : ℕ → ℕ → Bytes → Result (ℕ × Bytes)
unfolding is_v6_ext_variable is_v6_ext_fixed8
skip_loop zero next_header body = ok (next_header, body)
skip_loop (suc rounds) next_header body =
    elim (is_v6_ext_variable next_header && leb 2 (length body)) [
      | true ↦ do
        units ← byte_at body 1
        following ← byte_at body 0
        skip_loop rounds following (drop ((units + 1) * 8) body)
      | false ↦ elim (is_v6_ext_fixed8 next_header && leb 8 (length body)) [
        | true ↦ do following ← byte_at body 0; skip_loop rounds following (drop 8 body)
        | false ↦ ok (next_header, body)
      ]
    ]

unfoldable pub skip_v6_extensions : ℕ → Bytes → Result (ℕ × Bytes)
unfolding skip_loop
skip_v6_extensions next_header body = skip_loop 8 next_header body

module _ {T : Type 0} where
  unfoldable pub decode_transport : ℕ → Bytes → T → ℕ → Text → Text → ℕ → Result (Packet T)
  unfolding protocol_name
  decode_transport proto body ts size src dst version =
      let name = protocol_name proto in
      if text_eq name (codes "TCP")
      then decode_tcp body ts size src dst version
      else if text_eq name (codes "UDP")
      then decode_udp body ts size src dst version
      else if text_eq name (codes "ICMP") || text_eq name (codes "ICMPv6")
      then decode_icmp body ts size src dst version name
      else if proto == v6_no_next
      then ok (ip_packet ts size (codes "IPv6") src dst version)
      else ok (ip_packet ts size name src dst version)

  -- The body ends at the header's total length where that is sane, else with the frame.
  unfoldable pub decode_ipv4 : Bytes → T → ℕ → Result (Packet T)
  decode_ipv4 packet ts size =
      if ltb (length packet) 20
      then ok (record (unknown_packet ts size) { protocol = codes "IPv4"; version = some 4 })
      else do
        first ← byte_at packet 0
        let ihl = low_bits first 4 * 4
        proto ← byte_at packet 9
        src ← inet_ntoa (slice packet 12 16)
        dst ← inet_ntoa (slice packet 16 20)
        total ← unpack_u16 big (slice packet 2 4)
        let body =
            if leb 20 total && leb total (length packet)
            then slice packet ihl total
            else drop ihl packet
        decode_transport proto body ts size src dst 4

  module _ (ntop : Bytes → Text) where
    unfoldable pub decode_ipv6 : Bytes → T → ℕ → Result (Packet T)
    decode_ipv6 packet ts size =
        if ltb (length packet) 40
        then ok (record (unknown_packet ts size) { protocol = codes "IPv6"; version = some 6 })
        else do
          payload_len ← unpack_u16 big (slice packet 4 6)
          src ← inet_ntop ntop (slice packet 8 24)
          dst ← inet_ntop ntop (slice packet 24 40)
          let end =
              if leb (40 + payload_len) (length packet) then 40 + payload_len else length packet
          first_header ← byte_at packet 6
          chain ← skip_v6_extensions first_header (slice packet 40 end)
          decode_transport chain.0 chain.1 ts size src dst 6

    -- The version nibble decides, so a raw capture carries both families.
    unfoldable pub decode_ip : Bytes → T → ℕ → Result (Packet T)
    decode_ip [] ts size = ok (unknown_packet ts size)
    decode_ip (first ∷ rest) ts size =
        let version = shr first 4 in
        if version == 4
        then decode_ipv4 (first ∷ rest) ts size
        else if version == 6
        then decode_ipv6 (first ∷ rest) ts size
        else ok (unknown_packet ts size)
