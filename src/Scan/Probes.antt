-- ===== src/Scan/Probes.antt =====
-- pyscan/domain/udp_probes.py: the payloads of the UDP scan, with the checksum of DNP3.
use pyscan.Wire.{Bytes}
use pyscan.Prelude.{
  ℕ, suc, zero, ◌-◌, Option, none, some, [], ◌∷◌, ◌++◌, codes, replicate, lookup, if◌then◌else◌,
  shr, low_bits, has_bit, Result, ok, ◌>>=◌,
}
use Prim.Native.Nat.{bit_xor}
use pyscan.Modbus.{build_device_id_request}

-- `(crc >> 1) ^ 0xA6BC if crc & 1 else crc >> 1`
unfoldable pub crc_step : ℕ → ℕ
crc_step crc = if has_bit crc 0 then bit_xor (shr crc 1) 0xA6BC else shr crc 1

unfoldable pub crc_steps : ℕ → ℕ → ℕ
unfolding crc_step
crc_steps zero crc = crc
crc_steps (suc n) crc = crc_steps n (crc_step crc)

unfoldable pub crc_loop : ℕ → Bytes → ℕ
unfolding crc_steps
crc_loop crc [] = crc
crc_loop crc (b ∷ rest) = crc_loop (crc_steps 8 (bit_xor crc b)) rest

-- `(~crc) & 0xFFFF`
unfoldable pub dnp3_crc : Bytes → ℕ
unfolding crc_loop
dnp3_crc block = 0xFFFF - low_bits (crc_loop 0 block) 16

unfoldable pub dnp3_link_status : Bytes
unfolding dnp3_crc
dnp3_link_status =
    let header = 0x05 ∷ 0x64 ∷ 0x05 ∷ 0xC9 ∷ 0x00 ∷ 0x00 ∷ 0x00 ∷ 0x00 ∷ [] in
    let crc = dnp3_crc header in header ++ (low_bits crc 8 ∷ low_bits (shr crc 8) 8 ∷ [])

unfoldable pub ntp_probe : Bytes
ntp_probe = 0x1B ∷ replicate 47 0

abbrev pub dns_probe : Bytes
dns_probe =
    0
    ∷ 0
    ∷ 1
    ∷ 0
    ∷ 0
    ∷ 1
    ∷ 0
    ∷ 0
    ∷ 0
    ∷ 0
    ∷ 0
    ∷ 0
    ∷ 7
    ∷ (codes "version" ++ (4 ∷ (codes "bind" ++ (0 ∷ 0 ∷ 0x10 ∷ 0 ∷ 3 ∷ []))))

abbrev pub snmp_probe : Bytes
snmp_probe =
    0x30 ∷ 0x29 ∷ 0x02 ∷ 0x01 ∷ 0x00 ∷ 0x04 ∷ 0x06 ∷ 0x70 ∷ 0x75 ∷ 0x62 ∷ 0x6c ∷ 0x69 ∷ 0x63 ∷ 0xa0
    ∷ 0x1c ∷ 0x02 ∷ 0x04 ∷ 0x00 ∷ 0x00 ∷ 0x00 ∷ 0x00 ∷ 0x02 ∷ 0x01 ∷ 0x00 ∷ 0x02 ∷ 0x01 ∷ 0x00
    ∷ 0x30 ∷ 0x0e ∷ 0x30 ∷ 0x0c ∷ 0x06 ∷ 0x08 ∷ 0x2b ∷ 0x06 ∷ 0x01 ∷ 0x02 ∷ 0x01 ∷ 0x01 ∷ 0x01
    ∷ 0x00 ∷ 0x05 ∷ 0x00 ∷ []

-- `probes.get(port, _DEFAULT)`
unfoldable pub with_default : Bytes → Option Bytes → Bytes
with_default fallback none = fallback
with_default fallback (some probe) = probe

-- The table is built when the module is imported, which raises if an entry does.
unfoldable pub payload_for : ℕ → Result Bytes
unfolding dnp3_link_status ntp_probe with_default
payload_for port = do
  device_id ← build_device_id_request 1 1
  let probes =
      (53, dns_probe)
      ∷ (123, ntp_probe)
      ∷ (161, snmp_probe)
      ∷ (502, device_id)
      ∷ (20000, dnp3_link_status)
      ∷ []
  ok (with_default (0 ∷ []) (lookup port probes))
