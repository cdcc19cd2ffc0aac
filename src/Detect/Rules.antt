-- ===== src/Detect/Rules.antt =====
-- The rules of pyscan/domain/ot_detect.py, one for each protocol. A rule takes the detector
-- and returns it, changed, with the alerts; reading the payload may raise as the codecs may.
use pyscan.Prelude.{
  ℕ, Bool, false, not, ◌&&◌, ◌||◌, Option, none, some, List, [], ◌∷◌, ◌++◌, Text, codes, text_eq,
  decimal, ◌==◌, if◌then◌else◌, Result, ok, ◌>>=◌,
}
use pyscan.Modbus
use pyscan.Modbus.Tables.{FunctionClass, classify_function, function_name}
use pyscan.Iec104
use pyscan.Iec104.{Apdu, Format, i_format, s_format, u_format, apdu_name}
use pyscan.Iec104.Tables.{TypeClass, classify_type_id}
use pyscan.S7comm
use pyscan.S7comm.Tables.{S7Job, JobClass, job_class, job_name}
use pyscan.Packet.Transport.{Packet}
use pyscan.Detect.Wording.{
  talker_advice, modbus_write_advice, modbus_program_advice, modbus_recon_advice, stopdt_advice,
  iec_command_advice, iec_recon_advice, s7_program_advice, s7_control_advice, s7_write_advice,
  talker_summary, function_summary, named_summary, stopdt_summary,
}
use pyscan.Detect.State.{
  critical, high, medium, Alert, Detector, unauthorised, severity_of, show_host, one_alert, observe,
}

-- `pair in self._seen_talkers`
unfoldable pub contains_pair : Text × Text → List (Text × Text) → Bool
contains_pair p [] = false
contains_pair p (q ∷ rest) = text_eq q.0 p.0 && text_eq q.1 p.1 || contains_pair p rest

module _ {T : Type 0} where
  unfoldable pub new_talker : Detector → Packet T → Text → Detector × List (Alert T)
  new_talker d pkt protocol =
      let pair : Text × Text = (show_host pkt.src, show_host pkt.dst) in
      if not (unauthorised d.baseline pkt.src) || contains_pair pair d.seen_talkers
      then (d, [])
      else one_alert (record d { seen_talkers = pair ∷ d.seen_talkers }) pkt high protocol
          talker_summary talker_advice

  unfoldable pub modbus_by_class :
      FunctionClass → Detector → Packet T → ℕ → Detector × List (Alert T)
  modbus_by_class FunctionClass.write d pkt function =
      one_alert d pkt (severity_of d.baseline pkt.src critical) (codes "Modbus")
        (function_summary (codes "WRITE to the process") function (function_name function))
        modbus_write_advice
  modbus_by_class FunctionClass.program d pkt function =
      one_alert d pkt (severity_of d.baseline pkt.src critical) (codes "Modbus")
        (function_summary (codes "Logic/file operation") function (function_name function))
        modbus_program_advice
  modbus_by_class FunctionClass.recon d pkt function =
      if unauthorised d.baseline pkt.src
      then one_alert d pkt medium (codes "Modbus")
          (function_summary (codes "Reconnaissance") function (function_name function))
          modbus_recon_advice
      else (d, [])
  modbus_by_class _ d pkt function = (d, [])

  unfoldable pub modbus_alerts : Detector → Packet T → Option ℕ → Detector × List (Alert T)
  unfolding modbus_by_class
  modbus_alerts d pkt none = (d, [])
  modbus_alerts d pkt (some function) =
      modbus_by_class (classify_function function)
        (observe d (codes "Modbus FC" ++ decimal function)) pkt function

  unfoldable pub modbus_rule : Detector → Packet T → Result (Detector × List (Alert T))
  unfolding modbus_alerts
  modbus_rule d pkt = do
    function ← Modbus.read_function_code pkt.payload
    ok (modbus_alerts d pkt function)

  unfoldable pub iec_by_class : TypeClass → Detector → Packet T → Apdu → Detector × List (Alert T)
  iec_by_class TypeClass.command d pkt apdu =
      one_alert d pkt (severity_of d.baseline pkt.src critical) (codes "IEC-104")
        (named_summary (codes "CONTROL COMMAND") (apdu_name apdu)) iec_command_advice
  iec_by_class TypeClass.system d pkt apdu =
      if unauthorised d.baseline pkt.src
      then one_alert d pkt medium (codes "IEC-104")
          (named_summary (codes "Reconnaissance") (apdu_name apdu)) iec_recon_advice
      else (d, [])
  iec_by_class TypeClass.monitor d pkt apdu = (d, [])

  unfoldable pub iec_by_type : Option ℕ → Detector → Packet T → Apdu → Detector × List (Alert T)
  unfolding iec_by_class
  iec_by_type none d pkt apdu = (d, [])
  iec_by_type (some type_id) d pkt apdu =
      iec_by_class (classify_type_id type_id) (observe d (codes "IEC-104 T" ++ decimal type_id)) pkt
        apdu

  -- The body of the loop for one APDU, by its format.
  unfoldable pub iec_by_format : Format → Detector → Packet T → Apdu → Detector × List (Alert T)
  unfolding iec_by_type
  iec_by_format u_format d pkt apdu =
      if apdu.control == 0x13
      then one_alert (observe d (codes "IEC-104 STOPDT")) pkt medium (codes "IEC-104")
          stopdt_summary stopdt_advice
      else (d, [])
  iec_by_format i_format d pkt apdu = iec_by_type apdu.type_id d pkt apdu
  iec_by_format s_format d pkt apdu = iec_by_type apdu.type_id d pkt apdu

  unfoldable pub iec104_alerts : Detector → Packet T → List Apdu → Detector × List (Alert T)
  unfolding iec_by_format
  iec104_alerts d pkt [] = (d, [])
  iec104_alerts d pkt (apdu ∷ rest) =
      let (d', first) = iec_by_format apdu.format d pkt apdu in
      let (d'', others) = iec104_alerts d' pkt rest in (d'', first ++ others)

  unfoldable pub iec104_rule : Detector → Packet T → Result (Detector × List (Alert T))
  unfolding iec104_alerts
  iec104_rule d pkt = do
    apdus ← Iec104.parse_apdus pkt.payload Iec104.default_limit
    ok (iec104_alerts d pkt apdus)

  unfoldable pub s7_by_class : JobClass → Detector → Packet T → S7Job → Detector × List (Alert T)
  s7_by_class JobClass.program d pkt job =
      one_alert d pkt (severity_of d.baseline pkt.src critical) (codes "S7comm")
        (named_summary (codes "Block transfer") (job_name job)) s7_program_advice
  s7_by_class JobClass.control d pkt job =
      one_alert d pkt (severity_of d.baseline pkt.src critical) (codes "S7comm")
        (named_summary (codes "CPU control") (job_name job)) s7_control_advice
  s7_by_class JobClass.write d pkt job =
      one_alert d pkt (severity_of d.baseline pkt.src critical) (codes "S7comm")
        (named_summary (codes "WRITE to the process") (job_name job)) s7_write_advice
  s7_by_class _ d pkt job = (d, [])

  -- Only requests, which have message kind 1, and not the replies.
  unfoldable pub s7_alerts : Detector → Packet T → Option S7Job → Detector × List (Alert T)
  unfolding s7_by_class
  s7_alerts d pkt none = (d, [])
  s7_alerts d pkt (some job) =
      if not (job.rosctr == 0x01)
      then (d, [])
      else s7_by_class (job_class job) (observe d (codes "S7 " ++ job_name job)) pkt job

  unfoldable pub s7comm_rule : Detector → Packet T → Result (Detector × List (Alert T))
  unfolding s7_alerts
  s7comm_rule d pkt = do job ← S7comm.parse_job pkt.payload; ok (s7_alerts d pkt job)
