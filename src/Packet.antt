-- ===== src/Packet.antt =====
-- pyscan/domain/packet.py: the decoded packet and the link layer.
-- A timestamp is passed through unread, so its type is a parameter. `ntop` is the C library's
-- `inet_ntop` for AF_INET6, which prints 16 bytes; it is a parameter too.
pub mod Transport
pub mod Ip
pub mod Total
use pyscan.Prelude.{
  ℕ, ◌/◌, ◌&&◌, ◌||◌, ◌++◌, Text, codes, hex4, length, drop, slice, ltb, leb, ◌==◌, if◌then◌else◌,
  Result, ok, err, ◌>>=◌,
}
use pyscan.Wire.{Bytes, big, unpack_u16}
use pyscan.Packet.Transport.{Packet, unknown_packet}
use pyscan.Packet.Ip.{decode_ip}

-- The link-layer types of a capture.
abbrev pub linktype_ethernet : ℕ
linktype_ethernet = 1

abbrev pub linktype_raw : ℕ
linktype_raw = 101

abbrev pub linktype_linux_sll : ℕ
linktype_linux_sll = 113

module _ {T : Type 0} (ntop : Bytes → Text) where
  unfoldable pub decode_ethertype : ℕ → Bytes → T → ℕ → Result (Packet T)
  decode_ethertype ethertype payload ts size =
      if ethertype == 0x0800 || ethertype == 0x86DD
      then decode_ip ntop payload ts size
      else if ethertype == 0x0806
      then ok (record (unknown_packet ts size) {
        protocol = codes "ARP";
        info = codes "who-has / is-at";
      })
      else ok (record (unknown_packet ts size) { protocol = codes "0x" ++ hex4 ethertype })

  -- An 802.1Q tag is stepped over where the frame is long enough to hold one.
  unfoldable pub decode_ethernet : Bytes → T → ℕ → Result (Packet T)
  decode_ethernet frame ts size = if ltb (length frame) 14 then ok (unknown_packet ts size) else do
    ethertype ← unpack_u16 big (slice frame 12 14)
    if ethertype == 0x8100 && leb 18 (length frame)
        then (do
          inner ← unpack_u16 big (slice frame 16 18)
          decode_ethertype inner (drop 18 frame) ts size)
        else decode_ethertype ethertype (drop 14 frame) ts size

  unfoldable pub decode_linux_sll : Bytes → T → ℕ → Result (Packet T)
  decode_linux_sll frame ts size = if ltb (length frame) 16 then ok (unknown_packet ts size) else do
    ethertype ← unpack_u16 big (slice frame 14 16)
    decode_ethertype ethertype (drop 16 frame) ts size

  -- The body of the `try`.
  unfoldable pub decode_link : Bytes → ℕ → T → ℕ → Result (Packet T)
  decode_link frame linktype ts size =
      if linktype == linktype_ethernet
      then decode_ethernet frame ts size
      else if linktype == linktype_linux_sll
      then decode_linux_sll frame ts size
      else if linktype == linktype_raw
      then decode_ip ntop frame ts size
      else ok (unknown_packet ts size)

  -- `except (struct.error, IndexError, ValueError, OSError): pass`
  or_unknown : T → ℕ → Result (Packet T) → Packet T
  or_unknown ts size (ok packet) = packet
  or_unknown ts size (err _) = unknown_packet ts size

  unfoldable pub decode : Bytes → ℕ → T → Packet T
  unfolding or_unknown
  decode frame linktype ts =
      or_unknown ts (length frame) (decode_link frame linktype ts (length frame))
