-- ===== src/Packet/Transport.antt =====
-- The decoded packet and the transport layer of pyscan/domain/packet.py.
use pyscan.Prelude.{
  ℕ, ◌*◌, ◌&&◌, Option, none, some, [], ◌∷◌, ◌++◌, Text, codes, text_eq, decimal, drop, slice,
  Table, lookup, ltb, leb, ◌==◌, if◌then◌else◌, shr, has_bit, Result, ok, ◌>>=◌, length,
}
use pyscan.Wire.{Bytes, byte_at, big, unpack_u16}

pub record Packet (T : Type 0) : Type 0 where
  pub ts : T
  pub length : ℕ
  pub protocol : Text
  pub src : Option Text
  pub dst : Option Text
  pub sport : Option ℕ
  pub dport : Option ℕ
  pub info : Text
  pub flags : Text
  pub payload : Bytes
  pub version : Option ℕ

-- `(bit, letter)` in the source's order, with the position of the bit: 0x02 is bit 1.
abbrev pub tcp_flags : Table ℕ
tcp_flags = (1, b'S') ∷ (4, b'A') ∷ (0, b'F') ∷ (2, b'R') ∷ (3, b'P') ∷ (5, b'U') ∷ []

-- `"".join(ch for bit, ch in _TCP_FLAGS if flag_bits & bit)`
unfoldable pub flag_letters : ℕ → Table ℕ → Text
flag_letters flag_bits [] = []
flag_letters flag_bits ((bit, ch) ∷ rest) =
    let others = flag_letters flag_bits rest in
    if has_bit flag_bits bit then ch ∷ others else others

-- `... or "."`
or_dot : Text → Text
or_dot [] = codes "."
or_dot (c ∷ t) = c ∷ t

unfoldable pub flags_text : ℕ → Text
unfolding flag_letters or_dot
flags_text flag_bits = or_dot (flag_letters flag_bits tcp_flags)

abbrev pub icmp6_kinds : Table Text
icmp6_kinds =
    (128, codes "echo-request")
    ∷ (129, codes "echo-reply")
    ∷ (1, codes "unreachable")
    ∷ (3, codes "time-exceeded")
    ∷ []

abbrev pub icmp4_kinds : Table Text
icmp4_kinds =
    (0, codes "echo-reply")
    ∷ (8, codes "echo-request")
    ∷ (3, codes "unreachable")
    ∷ (11, codes "time-exceeded")
    ∷ []

icmp_kind : ℕ → Option Text → Text
icmp_kind icmp_type none = codes "type " ++ decimal icmp_type
icmp_kind icmp_type (some kind) = kind

unfoldable pub icmp_info : Text → ℕ → ℕ → Text
unfolding icmp_kind lookup
icmp_info name icmp_type code =
    let kinds = if text_eq name (codes "ICMPv6") then icmp6_kinds else icmp4_kinds in
    icmp_kind icmp_type (lookup icmp_type kinds) ++ (if code == 0 then [] else b'/' ∷ decimal code)

module _ {T : Type 0} where
  -- `Packet(ts=ts, length=length, protocol="?")`, the other fields at their defaults.
  abbrev pub unknown_packet : T → ℕ → Packet T
  unknown_packet ts size = record {
    ts = ts;
    length = size;
    protocol = codes "?";
    src = none;
    dst = none;
    sport = none;
    dport = none;
    info = [];
    flags = [];
    payload = [];
    version = none;
  }

  -- A packet of which only the IP layer is known.
  abbrev pub ip_packet : T → ℕ → Text → Text → Text → ℕ → Packet T
  ip_packet ts size protocol src dst version = record (unknown_packet ts size) {
    protocol = protocol;
    src = some src;
    dst = some dst;
    version = some version;
  }

  unfoldable pub decode_tcp : Bytes → T → ℕ → Text → Text → ℕ → Result (Packet T)
  decode_tcp segment ts size src dst version =
      if ltb (length segment) 20 then ok (ip_packet ts size (codes "TCP") src dst version) else do
        sport ← unpack_u16 big (slice segment 0 2)
        dport ← unpack_u16 big (slice segment 2 4)
        offset_byte ← byte_at segment 12
        let data_offset = shr offset_byte 4 * 4
        flag_bits ← byte_at segment 13
        let flags = flags_text flag_bits
        let payload =
            if leb 20 data_offset && leb data_offset (length segment)
            then drop data_offset segment
            else []
        ok (record (ip_packet ts size (codes "TCP") src dst version) {
          sport = some sport;
          dport = some dport;
          info = b'[' ∷ (flags ++ codes "]");
          flags = flags;
          payload = payload;
        })

  unfoldable pub decode_udp : Bytes → T → ℕ → Text → Text → ℕ → Result (Packet T)
  decode_udp segment ts size src dst version =
      if ltb (length segment) 8 then ok (ip_packet ts size (codes "UDP") src dst version) else do
        sport ← unpack_u16 big (slice segment 0 2)
        dport ← unpack_u16 big (slice segment 2 4)
        ulen ← unpack_u16 big (slice segment 4 6)
        let end = if leb 8 ulen && leb ulen (length segment) then ulen else length segment
        ok (record (ip_packet ts size (codes "UDP") src dst version) {
          sport = some sport;
          dport = some dport;
          info = codes "len=" ++ decimal ulen;
          payload = slice segment 8 end;
        })

  unfoldable pub decode_icmp : Bytes → T → ℕ → Text → Text → ℕ → Text → Result (Packet T)
  decode_icmp message ts size src dst version name =
      if ltb (length message) 2 then ok (ip_packet ts size name src dst version) else do
        icmp_type ← byte_at message 0
        code ← byte_at message 1
        ok (record (ip_packet ts size name src dst version) {
          info = icmp_info name icmp_type code;
          payload = drop 4 message;
        })
