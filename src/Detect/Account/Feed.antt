-- ===== src/Detect/Account/Feed.antt =====
-- The account of `feed`, for every packet and every state.
use pyscan.Wire.{Bytes}
use pyscan.Prelude.{
  ℕ, ◌+◌, ◌≡◌, refl, ap, inl, inr, Bool, true, false, not, ◌&&◌, Option, none, some, List, [], ◌∷◌,
  arith, Text, codes, text_eq, contains_char, lookup, if◌then◌else◌, Bool-cases, Result, ok,
}
use pyscan.Packet.Transport.{Packet}
use pyscan.Detect.Account.Rules.{
  Accounted, Accounted-if, Account-new_talker, Account-modbus_alerts, Account-iec104_alerts,
  Account-s7_alerts,
}
use pyscan.Detect.State.{medium, Alert, Baseline, Detector, protected, unauthorised}
use pyscan.Detect.{
  ot_ports, syn_rule, protocol_rule, payload_rules, feed_ot, feed_protocol, feed_port, feed,
}
use pyscan.Detect.Account.{Account-append, Account-nothing, Account-one_alert, Account}
use pyscan.Detect.Rules.{modbus_rule, iec104_rule, new_talker, s7comm_rule}
use pyscan.Modbus.Frame.{read_function_code-code_of_frame, code_of_frame}
use pyscan.Iec104.Total.{parse_apdus-bounded}
use pyscan.S7comm.Total.{parse_job-job_of_header, job_of_header}

-- A packet that the engine looks into: TCP, to an OT port of a protected device.
is_some_text : Option Text → Bool
is_some_text none = false
is_some_text (some t) = true

is_ot_port : Option ℕ → Bool
unfolding is_some_text lookup
is_ot_port none = false
is_ot_port (some dport) = is_some_text (lookup dport ot_ports)

unfoldable pub is_watched : {T : Type 0} → Baseline → Packet T → Bool
unfolding is_ot_port
is_watched b pkt =
    text_eq pkt.protocol (codes "TCP") && (is_ot_port pkt.dport && protected b pkt.dst)

module _ {T : Type 0} (pkt : Packet T) (b : Baseline) where
  -- The call returns, and what it returns is accounted for.
  abbrev Reports : Detector → Result (Detector × List (Alert T)) → Type 0
  Reports d m = (r : Detector × List (Alert T)) × (m ≡ ok r) × Accounted pkt b d r

  pub Reports-syn_rule :
      (d : Detector) (dport : ℕ) (protocol : Text)
      → d.baseline ≡ b
      → Accounted pkt b d (syn_rule d pkt dport protocol)
  unfolding syn_rule
  Reports-syn_rule d dport protocol e =
      Accounted-if pkt b d
        (contains_char b'S' pkt.flags
          && (not (contains_char b'A' pkt.flags) && unauthorised d.baseline pkt.src))
        _ _ (λ h. Account-one_alert pkt b d medium protocol _ _ e (inl (ground arith)))
        (λ _. Account-nothing pkt b d e)

  Reports-protocol_rule :
      (d : Detector) (protocol : Text) → d.baseline ≡ b → Reports d (protocol_rule d pkt protocol)
  unfolding protocol_rule modbus_rule iec104_rule s7comm_rule
  Reports-protocol_rule d protocol e = elim (Bool-cases (text_eq protocol (codes "Modbus"))) [
    | inl h ↦
        rw (h, read_function_code-code_of_frame pkt.payload)
          (_, refl, Account-modbus_alerts pkt b d (code_of_frame pkt.payload) e)
    | inr h ↦ elim (Bool-cases (text_eq protocol (codes "IEC-104"))) [
      | inl k ↦
          let (apdus, read, _) = parse_apdus-bounded pkt.payload 64 in
          rw (h, k, read) (_, refl, Account-iec104_alerts pkt b d apdus e)
      | inr k ↦
          rw (h, k, parse_job-job_of_header pkt.payload)
            (_, refl, Account-s7_alerts pkt b d (job_of_header pkt.payload) e)
    ]
  ]

  Reports-payload_rules :
      (payload : Bytes) (d : Detector) (protocol : Text)
      → d.baseline ≡ b
      → Reports d (payload_rules payload d pkt protocol)
  unfolding payload_rules
  Reports-payload_rules [] d protocol e = (_, refl, Account-nothing pkt b d e)
  Reports-payload_rules (_ ∷ _) d protocol e =
      let talker = Account-new_talker pkt b d protocol e in
      let (r, returns, found) =
        Reports-protocol_rule (new_talker d pkt protocol).0 protocol talker.baseline in
      (_, rw returns, Account-append pkt b d _ _ _ _ talker found)

  abbrev counted_in : Detector → Detector
  counted_in d = record d { packets = d.packets + 1 }

  Reports-feed_ot :
      (d : Detector) (dport : ℕ) (protocol : Text)
      → d.baseline ≡ b
      → Reports (counted_in d) (feed_ot d pkt dport protocol)
  unfolding feed_ot
  Reports-feed_ot d dport protocol e =
      let syn = Reports-syn_rule (counted_in d) dport protocol e in
      let (r, returns, found) =
        Reports-payload_rules pkt.payload (syn_rule (counted_in d) pkt dport protocol).0 protocol
          syn.baseline in
      (_, rw returns, Account-append pkt b (counted_in d) _ _ _ _ syn found)

  -- What `feed` does to the counter of packets.
  abbrev counted : Detector → Detector
  counted d = if is_watched b pkt then counted_in d else d

  Reports-feed_protocol :
      (d : Detector) (dport : ℕ) (protocol : Option Text)
      → d.baseline ≡ b
      → Reports
          (if is_some_text protocol && protected b pkt.dst then counted_in d else d)
          (feed_protocol d pkt dport protocol)
  unfolding feed_protocol is_some_text
  Reports-feed_protocol d dport none e = (_, refl, Account-nothing pkt b d e)
  Reports-feed_protocol d dport (some protocol) e =
      let same : protected d.baseline pkt.dst ≡ protected b pkt.dst =
        ap (λ a. protected a pkt.dst) e in
      rw same (elim (Bool-cases (protected b pkt.dst)) [
        | inl h ↦ rw h (Reports-feed_ot d dport protocol e)
        | inr h ↦ rw h (_, refl, Account-nothing pkt b d e)
      ])

  Reports-feed_port :
      (d : Detector) (dport : Option ℕ)
      → d.baseline ≡ b
      → Reports
          (if is_ot_port dport && protected b pkt.dst then counted_in d else d)
          (feed_port d pkt dport)
  unfolding feed_port is_ot_port
  Reports-feed_port d none e = (_, refl, Account-nothing pkt b d e)
  Reports-feed_port d (some dport) e = Reports-feed_protocol d dport (lookup dport ot_ports) e

  Reports-feed : (d : Detector) → d.baseline ≡ b → Reports (counted d) (feed d pkt)
  unfolding feed is_watched
  Reports-feed d e = elim (Bool-cases (text_eq pkt.protocol (codes "TCP"))) [
    | inl h ↦ rw h (Reports-feed_port d pkt.dport e)
    | inr h ↦ rw h (_, refl, Account-nothing pkt b d e)
  ]

-- `feed` returns on every packet in every state, with no exception. It counts the packet exactly
-- where it is TCP to an OT port of a protected device; the baseline stays; the counter of alerts
-- grows by the alerts returned; each of them carries the packet's time and addresses, and has a
-- severity that is justified; no hostile source is forgotten; one that is new is the packet's
-- source and not in charge; and the source of an alert above INFO that is not in charge is noted.
pub feed-Account :
    {T : Type 0} (d : Detector) (pkt : Packet T)
    → (r : Detector × List (Alert T)) × (feed d pkt ≡ ok r)
      × Account pkt d.baseline
          (if is_watched d.baseline pkt then record d { packets = d.packets + 1 } else d)
          r.0
          r.1
feed-Account d pkt = Reports-feed pkt d.baseline d refl
