-- ===== src/Tests/Detection.antt =====
-- The theorems on the detector at concrete packets.
use pyscan.Traffic.{hmi, rtu}
use pyscan.Wire.{Bytes}
use pyscan.Prelude.{
  ℕ, ◌+◌, ◌≡◌, refl, ◌⊎◌, inl, true, List, [], ◌∷◌, Text, codes, text_eq, All, Any, lookup,
  if◌then◌else◌, ok,
}
use pyscan.Detect.State.{
  Detector, contains, protected, Baseline, known, Alert, unauthorised, fresh, high, show_host,
  one_alert, raise_alert,
}
use pyscan.Packet.Transport.{Packet}
use pyscan.Traffic.RoundTrip.{tcp_packet}
use pyscan.Traffic.{attacker, plc}
use pyscan.Detect.{feed}
use pyscan.Modbus.Tables.{classify_function}
use pyscan.Detect.Attack.{IsCritical, feed_attack, ActsOn}
use pyscan.Detect.Calm.{IsCalm, feed_hmi, feed_unknown}
use pyscan.Detect.Account.{Account}
use pyscan.Detect.Account.Feed.{is_watched, feed-Account}
use pyscan.Detect.Wording.{stopdt_summary}
use pyscan.Detect.Rules.{new_talker, contains_pair}
use pyscan.Detect.Talkers.{new_talker_once}

abbrev guard : Baseline
guard = record { hmi = hmi ∷ []; plcs = plc ∷ rtu ∷ [] }

abbrev write_request : Bytes
write_request = 0 ∷ 1 ∷ 0 ∷ 0 ∷ 0 ∷ 6 ∷ 1 ∷ 6 ∷ 0 ∷ 40 ∷ 0 ∷ 0 ∷ []

abbrev attack : Packet ℕ
attack = tcp_packet 7 66 attacker plc 40000 502 0x18 write_request

abbrev operation : Packet ℕ
operation = tcp_packet 8 66 hmi plc 40000 502 0x18 write_request

feed_attack_example :
    (r : Detector × List (Alert ℕ)) × (feed (fresh guard) attack ≡ ok r)
    × Any (IsCritical {T = ℕ}) r.1
    × (contains (show_host attack.src) r.0.hostile_sources ≡ true)
unfolding protected unauthorised known contains text_eq classify_function lookup fresh
feed_attack_example =
    feed_attack (fresh guard) attack 502 refl refl refl refl (ActsOn.modbus 6 refl refl (inl refl))

feed-Account_example :
    (r : Detector × List (Alert ℕ)) × (feed (fresh guard) attack ≡ ok r)
    × Account attack
        (fresh guard).baseline
        (if is_watched (fresh guard).baseline attack
          then record (fresh guard) { packets = (fresh guard).packets + 1 }
          else fresh guard)
        r.0
        r.1
feed-Account_example = feed-Account (fresh guard) attack

feed_hmi_example :
    (r : Detector × List (Alert ℕ)) × (feed (fresh guard) operation ≡ ok r)
    × All IsCalm r.1
    × ((h : Text)
        → contains h r.0.hostile_sources ≡ true
        → contains h (fresh guard).hostile_sources ≡ true)
unfolding contains text_eq fresh
feed_hmi_example = feed_hmi (fresh guard) operation hmi refl refl

abbrev nobody : Baseline
nobody = record { hmi = []; plcs = [] }

feed_unknown_example :
    (r : Detector × List (Alert ℕ)) × (feed (fresh nobody) attack ≡ ok r)
    × All (λ (a : Alert ℕ). (a.severity ≡ high) ⊎ (a.summary ≡ stopdt_summary)) r.1
    × ((h : Text)
        → contains h r.0.hostile_sources ≡ true
        → contains h (fresh nobody).hostile_sources ≡ true)
unfolding known fresh
feed_unknown_example = feed_unknown (fresh nobody) attack refl

new_talker_once_example :
    new_talker {T = ℕ} (new_talker (fresh guard) attack (codes "Modbus")).0 attack (codes "Modbus")
    ≡ ((new_talker (fresh guard) attack (codes "Modbus")).0, [])
unfolding new_talker one_alert raise_alert fresh contains_pair unauthorised known contains text_eq
new_talker_once_example =
    new_talker_once (fresh guard) (new_talker (fresh guard) attack (codes "Modbus")).0 attack attack
      (codes "Modbus") (codes "Modbus") refl refl refl refl
