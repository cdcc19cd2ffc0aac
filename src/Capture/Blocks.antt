-- ===== src/Capture/Blocks.antt =====
-- The blocks of pcapng: interfaces and packets, each parsed from its body.
use pyscan.Prelude.{
  ℕ, suc, zero, ◌+◌, ◌-◌, ◌*◌, ◌%◌, ◌^◌, true, false, ◌&&◌, Option, none, some, List, [], ◌∷◌, ◌++◌,
  length, get_elem?, drop, slice, ltb, leb, ◌==◌, if◌then◌else◌, low_bits, Result, ok, ◌>>=◌,
}
use pyscan.Wire.{Bytes, byte_at, Endian, unpack_u16, unpack_u32}
use pyscan.Capture.{Clock, Frame}

abbrev pub bt_shb : ℕ
bt_shb = 0x0A0D0D0A

abbrev pub bt_idb : ℕ
bt_idb = 1

abbrev pub bt_pb : ℕ
bt_pb = 2

abbrev pub bt_spb : ℕ
bt_spb = 3

abbrev pub bt_epb : ℕ
bt_epb = 6

abbrev pub shb_magic : ℕ
shb_magic = 0x1A2B3C4D

-- A link type with the units of a timestamp in one second.
abbrev pub Interface : Type 0
Interface = ℕ × ℕ

abbrev pub default_interface : Interface
default_interface = (1, 1_000_000)

-- The loop over the options, by rounds; an offset past the last option ends it. `-length % 4`
-- is the padding to a multiple of four.
unfoldable pub divisor_loop : ℕ → Bytes → Endian → ℕ → Result ℕ
divisor_loop zero options endian offset = ok 1_000_000
divisor_loop (suc rounds) options endian offset = elim (leb (offset + 4) (length options)) [
  | false ↦ ok 1_000_000
  | true ↦ do
    code ← unpack_u16 endian (slice options offset (offset + 2))
    size ← unpack_u16 endian (slice options (offset + 2) (offset + 4))
    elim (code == 0) [
      | true ↦ ok 1_000_000
      | false ↦ elim (code == 9 && leb 1 size) [
        | true ↦ do
          raw ← byte_at (slice options (offset + 4) (offset + 4 + size)) 0
          ok (if leb 0x80 raw then 2 ^ low_bits raw 7 else 10 ^ raw)
        | false ↦ divisor_loop rounds options endian (offset + (4 + size + (4 - size % 4) % 4))
      ]
    ]
]

-- Each round passes at least four bytes, so as many rounds as there are bytes are enough.
unfoldable pub timestamp_divisor : Bytes → Endian → Result ℕ
unfolding divisor_loop
timestamp_divisor options endian = divisor_loop (suc (length options)) options endian 0

unfoldable pub parse_idb : Bytes → Endian → Result Interface
unfolding timestamp_divisor
parse_idb body endian = if ltb (length body) 8 then ok default_interface else do
  linktype ← unpack_u16 endian (slice body 0 2)
  divisor ← timestamp_divisor (drop 8 body) endian
  ok (linktype, divisor)

or_default : Option Interface → Interface
or_default none = default_interface
or_default (some i) = i

-- A packet that names no declared interface gets Ethernet and microseconds.
unfoldable pub interface : List Interface → ℕ → Interface
unfolding or_default
interface interfaces index = or_default (get_elem? interfaces index)

module _ {T : Type 0} (clock : Clock T) where
  -- The end that both packet blocks share: the frame, unless the body is cut short.
  unfoldable pub packet_of : Bytes → Interface → ℕ → ℕ → ℕ → Option (Frame T)
  packet_of body (linktype, divisor) ts_high ts_low caplen =
      let frame = slice body 20 (20 + caplen) in
      if ltb (length frame) caplen
      then none
      else some (clock.quotient (ts_high * 2 ^ 32 + ts_low) divisor, linktype, frame)

  unfoldable pub parse_epb : Bytes → Endian → List Interface → Result (Option (Frame T))
  unfolding packet_of interface
  parse_epb body endian interfaces = if ltb (length body) 20 then ok none else do
    iface_id ← unpack_u32 endian (slice body 0 4)
    ts_high ← unpack_u32 endian (slice body 4 8)
    ts_low ← unpack_u32 endian (slice body 8 12)
    caplen ← unpack_u32 endian (slice body 12 16)
    ok (packet_of body (interface interfaces iface_id) ts_high ts_low caplen)

  unfoldable pub parse_obsolete_pb : Bytes → Endian → List Interface → Result (Option (Frame T))
  unfolding packet_of interface
  parse_obsolete_pb body endian interfaces = if ltb (length body) 20 then ok none else do
    iface_id ← unpack_u16 endian (slice body 0 2)
    ts_high ← unpack_u32 endian (slice body 4 8)
    ts_low ← unpack_u32 endian (slice body 8 12)
    caplen ← unpack_u32 endian (slice body 12 16)
    ok (packet_of body (interface interfaces iface_id) ts_high ts_low caplen)

  -- `yield linktype, ...` of a Simple Packet Block, which belongs to the first interface.
  simple_packet : Bytes → List Interface → Option (Frame T)
  unfolding interface
  simple_packet body interfaces =
      if leb 4 (length body)
      then some (clock.zero_time, (interface interfaces 0).0, drop 4 body)
      else none

  -- What a block other than a section header does: the interface table behind it, and the
  -- packet that it yields, if any.
  unfoldable pub block_effect :
      ℕ → Bytes → Endian → List Interface → Result (List Interface × Option (Frame T))
  unfolding simple_packet
  block_effect block_type body endian interfaces =
      if block_type == bt_idb
      then (do i ← parse_idb body endian; ok (interfaces ++ i ∷ [], none))
      else if block_type == bt_epb
      then (do p ← parse_epb body endian interfaces; ok (interfaces, p))
      else if block_type == bt_spb
      then ok (interfaces, simple_packet body interfaces)
      else if block_type == bt_pb
      then (do p ← parse_obsolete_pb body endian interfaces; ok (interfaces, p))
      else ok (interfaces, none)
