-- ===== src/Detect.antt =====
-- pyscan/domain/ot_detect.py: the entry point of the detection engine.
pub mod Wording
pub mod State
pub mod Rules
pub mod Account
pub mod Calm
pub mod Attack
pub mod Talkers
use pyscan.Prelude.{
  ℕ, ◌+◌, not, ◌&&◌, Option, none, some, List, [], ◌∷◌, ◌++◌, Text, codes, text_eq, contains_char,
  Table, lookup, if◌then◌else◌, Result, ok, ◌>>=◌,
}
use pyscan.Wire.{Bytes}
use pyscan.Packet.Transport.{Packet}
use pyscan.Detect.Wording.{syn_advice, syn_summary}
use pyscan.Detect.State.{medium, Alert, Detector, unauthorised, protected, one_alert}
use pyscan.Detect.Rules.{new_talker, modbus_rule, iec104_rule, s7comm_rule}

-- The three OT protocols by their registered port.
abbrev pub ot_ports : Table Text
ot_ports = (502, codes "Modbus") ∷ (2404, codes "IEC-104") ∷ (102, codes "S7comm") ∷ []

module _ {T : Type 0} where
  -- A SYN with no ACK from a source that is not in charge.
  unfoldable pub syn_rule : Detector → Packet T → ℕ → Text → Detector × List (Alert T)
  syn_rule d pkt dport protocol =
      if contains_char b'S' pkt.flags
        && (not (contains_char b'A' pkt.flags) && unauthorised d.baseline pkt.src)
      then one_alert d pkt medium protocol (syn_summary dport) syn_advice
      else (d, [])

  unfoldable pub protocol_rule : Detector → Packet T → Text → Result (Detector × List (Alert T))
  protocol_rule d pkt protocol =
      if text_eq protocol (codes "Modbus")
      then modbus_rule d pkt
      else if text_eq protocol (codes "IEC-104")
      then iec104_rule d pkt
      else s7comm_rule d pkt

  -- Behind the SYN rule: nothing more for an empty payload.
  unfoldable pub payload_rules :
      Bytes → Detector → Packet T → Text → Result (Detector × List (Alert T))
  unfolding protocol_rule
  payload_rules [] d pkt protocol = ok (d, [])
  payload_rules (_ ∷ _) d pkt protocol = do
    let talker = new_talker d pkt protocol
    found ← protocol_rule talker.0 pkt protocol
    ok (found.0, talker.1 ++ found.1)

  -- A packet to a protected device on the OT port `dport`.
  unfoldable pub feed_ot : Detector → Packet T → ℕ → Text → Result (Detector × List (Alert T))
  unfolding payload_rules syn_rule
  feed_ot d pkt dport protocol = do
    let syn = syn_rule (record d { packets = d.packets + 1 }) pkt dport protocol
    rest ← payload_rules pkt.payload syn.0 pkt protocol
    ok (rest.0, syn.1 ++ rest.1)

  unfoldable pub feed_protocol :
      Detector → Packet T → ℕ → Option Text → Result (Detector × List (Alert T))
  unfolding feed_ot
  feed_protocol d pkt dport none = ok (d, [])
  feed_protocol d pkt dport (some protocol) =
      if not (protected d.baseline pkt.dst) then ok (d, []) else feed_ot d pkt dport protocol

  unfoldable pub feed_port : Detector → Packet T → Option ℕ → Result (Detector × List (Alert T))
  unfolding feed_protocol lookup
  feed_port d pkt none = ok (d, [])
  feed_port d pkt (some dport) = feed_protocol d pkt dport (lookup dport ot_ports)

  -- Every alert that a packet justifies, and the detector behind it.
  unfoldable pub feed : Detector → Packet T → Result (Detector × List (Alert T))
  unfolding feed_port
  feed d pkt =
      if not (text_eq pkt.protocol (codes "TCP")) then ok (d, []) else feed_port d pkt pkt.dport
