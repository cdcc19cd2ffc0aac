-- ===== src/Traffic/RoundTrip.antt =====
-- A frame that `encode_frame` builds is decoded as the exchange that it stands for.
use pyscan.Wire.{Bytes, byte_at, unpack_u16}
use pyscan.Prelude.{
  ℕ, ◌+◌, ◌-◌, ◌*◌, ◌/◌, ◌%◌, ◌<◌, ◌≡◌, refl, sym, ap, ◌∙◌, true, false, ◌&&◌, some, ◌∷◌, ◌++◌,
  arith, Text, codes, text_eq, length, take, length-append, take-append, ltb, leb, ok,
}
use pyscan.Traffic.Address.{Address, dotted}
use pyscan.Traffic.Layout.{tcp_layout, ipv4_layout, frame_layout, IsSendable, encode_frame-layout}
use pyscan.Packet.Transport.{Packet, ip_packet, flags_text, decode_tcp}
use pyscan.Packet.Ip.{inet_ntoa, decode_transport, decode_ipv4, decode_ip}
use pyscan.Packet.{decode_ethertype, decode_ethernet, decode, decode_link}
use pyscan.Traffic.{Exchange, encode_frame, flag_bits}

-- The packet of a TCP segment with these ports, flag bits and payload.
abbrev pub tcp_packet : {T : Type 0} → T → ℕ → Text → Text → ℕ → ℕ → ℕ → Bytes → Packet T
tcp_packet ts size src dst sport dport flags payload =
    record (ip_packet ts size (codes "TCP") src dst 4) {
      sport = some sport;
      dport = some dport;
      info = b'[' ∷ (flags_text flags ++ codes "]");
      flags = flags_text flags;
      payload = payload;
    }

module _ {T : Type 0} (ts : T) (size : ℕ) where
  decode_tcp-layout :
      (src dst : Text) (sport dport flags sum : ℕ) (payload : Bytes)
      → decode_tcp (tcp_layout sport dport flags sum payload) ts size src dst 4
        ≡ ok (tcp_packet ts size src dst sport dport flags payload)
  unfolding decode_tcp unpack_u16 byte_at
  decode_tcp-layout src dst sport dport flags sum payload = ground arith

  decode_ipv4-layout :
      (src dst : Address) (sum : ℕ) (segment padding : Bytes)
      → 20 + length segment < 65536
      → decode_ipv4 (ipv4_layout src dst (20 + length segment) sum segment ++ padding) ts size
        ≡ decode_transport 6 segment ts size (dotted src) (dotted dst) 4
  unfolding decode_ipv4 unpack_u16 byte_at inet_ntoa
  decode_ipv4-layout src dst sum segment padding h =
      let packet = ipv4_layout src dst (20 + length segment) sum segment ++ padding in
      let n = length segment in
      let long : ltb (length packet) 20 ≡ false = ground arith in
      let total : (20 + n) / 256 * 256 + (20 + n) % 256 ≡ 20 + n = omega arith in
      let sane : (leb 20 (20 + n) && leb (20 + n) (length packet)) ≡ true =
        ground (arith, length-append segment padding) in
      let body : take (20 + n - 20) (segment ++ padding) ≡ segment =
        take-append (20 + n - 20) segment padding (omega arith) in
      rw long (rw total (rw sane (rw body)))

  decode_ethernet-layout :
      (ntop : Bytes → Text) (src dst : Address) (packet : Bytes)
      → decode_ethernet ntop (frame_layout src dst packet) ts size ≡ decode_ip ntop packet ts size
  unfolding decode_ethernet decode_ethertype unpack_u16
  decode_ethernet-layout ntop src dst packet = ground arith

  decode_transport-tcp :
      (segment : Bytes) (src dst : Text)
      → decode_transport 6 segment ts size src dst 4 ≡ decode_tcp segment ts size src dst 4
  unfolding decode_transport text_eq
  decode_transport-tcp segment src dst = refl

  decode_ip-v4 :
      (ntop : Bytes → Text) (rest : Bytes)
      → decode_ip ntop (0x45 ∷ rest) ts size ≡ decode_ipv4 (0x45 ∷ rest) ts size
  unfolding decode_ip
  decode_ip-v4 ntop rest = refl

  decode_link-layout :
      (ntop : Bytes → Text) (src dst : Address) (sport dport flags ip_sum tcp_sum : ℕ)
      (payload padding : Bytes)
      → 40 + length payload < 65536
      → decode_link ntop
          (frame_layout src dst (
              ipv4_layout src dst
                (40 + length payload)
                ip_sum
                (tcp_layout sport dport flags tcp_sum payload))
            ++ padding)
          1
          ts
          size
        ≡ ok (tcp_packet ts size (dotted src) (dotted dst) sport dport flags payload)
  unfolding decode_link
  decode_link-layout ntop src dst sport dport flags ip_sum tcp_sum payload padding h =
      let segment = tcp_layout sport dport flags tcp_sum payload in
      let packet = ipv4_layout src dst (20 + length segment) ip_sum segment ++ padding in
      let room : 40 + length payload ≡ 20 + length segment = omega arith in
      ap
        (λ n.
          decode_ethernet ntop
            (frame_layout src dst (ipv4_layout src dst n ip_sum segment ++ padding)) ts size)
        room
      ∙ decode_ethernet-layout ntop src dst packet
      ∙ decode_ip-v4 ntop _
      ∙ decode_ipv4-layout src dst ip_sum segment padding (omega arith)
      ∙ decode_transport-tcp segment (dotted src) (dotted dst)
      ∙ decode_tcp-layout (dotted src) (dotted dst) sport dport flags tcp_sum payload

module _ {T : Type 0} (ntop : Bytes → Text) where
  decode_ok :
      (frame : Bytes) (linktype : ℕ) (ts : T) (packet : Packet T)
      → decode_link ntop frame linktype ts (length frame) ≡ ok packet
      → decode ntop frame linktype ts ≡ packet
  unfolding decode
  decode_ok frame linktype ts packet h = rw h

-- An exchange between dotted addresses, with ports of 16 bits and a payload that fits an IPv4
-- packet, is encoded with no exception, and the frame is decoded as a TCP packet with the time,
-- the addresses, the ports, the flags and the payload of the exchange, whatever padding the link
-- layer puts behind the frame.
pub decode-encode_frame :
    {T : Type 0} (ntop : Bytes → Text) (x : Exchange T) (padding : Bytes)
    → IsSendable x
    → (frame : Bytes) × (encode_frame x ≡ ok frame)
      × (decode ntop (frame ++ padding) 1 x.ts
          ≡ tcp_packet x.ts
              (length (frame ++ padding))
              x.src
              x.dst
              x.sport
              x.dport
              (flag_bits x.flags)
              x.payload)
decode-encode_frame ntop x padding ready =
    let (ip_sum, tcp_sum, encoded) = encode_frame-layout x ready in
    let flags = flag_bits x.flags in
    let frame = frame_layout ready.from ready.to (
      ipv4_layout ready.from ready.to (40 + length x.payload) ip_sum
        (tcp_layout x.sport x.dport flags tcp_sum x.payload)) in
    let size = length (frame ++ padding) in
    (
      frame,
      encoded,
      decode_ok ntop (frame ++ padding) 1 x.ts _ (
            decode_link-layout x.ts size ntop ready.from ready.to x.sport x.dport flags ip_sum
              tcp_sum x.payload padding ready.fits)
          ∙ ap (λ s. tcp_packet x.ts size s (dotted ready.to) x.sport x.dport flags x.payload)
              (sym ready.src)
          ∙ ap (λ d. tcp_packet x.ts size x.src d x.sport x.dport flags x.payload) (sym ready.dst),
    )
