-- ===== src/Detect/Account/Rules.antt =====
-- The account of each rule, and of a packet.
use pyscan.Prelude.{
  ℕ, ◌≡◌, refl, ◌∙◌, inl, inr, Bool, true, false, not, ◌||◌, Option, none, some, List, [], ◌∷◌,
  arith, Text, ◌==◌, if◌then◌else◌, Bool-cases,
}
use pyscan.Packet.Transport.{Packet}
use pyscan.Modbus.Tables.{FunctionClass}
use pyscan.Detect.State.{
  critical, Alert, Baseline, Detector, unauthorised, known, severity_of, observe, one_alert, high,
  medium,
}
use pyscan.Detect.Rules.{
  new_talker, modbus_by_class, s7_by_class, contains_pair, iec_by_type, iec_by_class, iec_by_format,
  iec104_alerts, modbus_alerts, s7_alerts,
}
use pyscan.Detect.Account.{
  Justified, Account-one_alert, Account, Account-nothing, Account-start, Account-append,
}
use pyscan.Detect.Wording.{Advice}
use pyscan.Iec104.{u_format, i_format, s_format, Apdu, Format}
use pyscan.Iec104.Tables.{TypeClass}
use pyscan.S7comm.Tables.{JobClass, S7Job}

severity_of-Justified :
    (b : Baseline) (src : Option Text) (summary : Text)
    → Justified b src (severity_of b src critical) summary
unfolding severity_of
severity_of-Justified b src summary = elim (Bool-cases (unauthorised b src)) [
  | inl u ↦ rw (u, severity_of) u
  | inr u ↦ elim (Bool-cases (known b)) [ inl k ↦ rw (u, k) (u, k) | inr k ↦ rw (u, k) (inr k) ]
]

module _ {T : Type 0} (pkt : Packet T) (b : Baseline) where
  abbrev pub Accounted : Detector → Detector × List (Alert T) → Type 0
  Accounted d r = Account pkt b d r.0 r.1

  pub Accounted-if :
      (d : Detector) (c : Bool) (m n : Detector × List (Alert T))
      → (c ≡ true → Accounted d m)
      → (c ≡ false → Accounted d n)
      → Accounted d (if c then m else n)
  Accounted-if d true m n f g = f refl
  Accounted-if d false m n f g = g refl

  pub Account-new_talker :
      (d : Detector) (protocol : Text) → d.baseline ≡ b → Accounted d (new_talker d pkt protocol)
  unfolding new_talker
  Account-new_talker d protocol e =
      Accounted-if d (not (unauthorised d.baseline pkt.src) || contains_pair _ d.seen_talkers) _ _
        (λ _. Account-nothing pkt b d e)
        λ h.
          Account-start pkt b d _ _ _ refl refl refl
            (Account-one_alert pkt b _ high protocol _ _ e (inl (ground arith)))

  -- A rule that alerts with the severity of a hostile act.
  pub Account-hostile_act :
      (d : Detector) (protocol summary : Text) (advice : Advice)
      → d.baseline ≡ b
      → Accounted d
          (one_alert d pkt (severity_of d.baseline pkt.src critical) protocol summary advice)
  Account-hostile_act d protocol summary advice e =
      Account-one_alert pkt b d _ protocol summary advice e
        (rw e (severity_of-Justified b pkt.src summary))

  -- A rule that alerts for sources that are not in charge only.
  pub Account-recon :
      (d : Detector) (protocol summary : Text) (advice : Advice)
      → d.baseline ≡ b
      → Accounted d (
          if unauthorised d.baseline pkt.src
          then one_alert d pkt medium protocol summary advice
          else (d, []))
  Account-recon d protocol summary advice e =
      Accounted-if d (unauthorised d.baseline pkt.src) _ _
        (λ u. Account-one_alert pkt b d medium protocol summary advice e (inl (rw e at u)))
        (λ _. Account-nothing pkt b d e)

  pub Account-modbus_by_class :
      (c : FunctionClass) (d : Detector) (f : ℕ)
      → d.baseline ≡ b
      → Accounted d (modbus_by_class c d pkt f)
  unfolding modbus_by_class
  Account-modbus_by_class FunctionClass.write d f e = Account-hostile_act d _ _ _ e
  Account-modbus_by_class FunctionClass.program d f e = Account-hostile_act d _ _ _ e
  Account-modbus_by_class FunctionClass.recon d f e = Account-recon d _ _ _ e
  Account-modbus_by_class FunctionClass.read d f e = Account-nothing pkt b d e
  Account-modbus_by_class FunctionClass.other d f e = Account-nothing pkt b d e

  -- What `observe` changes is not in the account.
  pub Account-observe :
      (d : Detector) (operation : Text) {r : Detector × List (Alert T)}
      → Accounted (observe d operation) r
      → Accounted d r
  unfolding observe
  Account-observe d operation a = Account-start pkt b d _ _ _ refl refl refl a

  baseline-observe : (d : Detector) (operation : Text) → (observe d operation).baseline ≡ d.baseline
  unfolding observe
  baseline-observe d operation = refl

  pub Account-modbus_alerts :
      (d : Detector) (found : Option ℕ) → d.baseline ≡ b → Accounted d (modbus_alerts d pkt found)
  unfolding modbus_alerts
  Account-modbus_alerts d none e = Account-nothing pkt b d e
  Account-modbus_alerts d (some f) e =
      Account-observe d _ (Account-modbus_by_class _ _ f (baseline-observe d _ ∙ e))

  pub Account-iec_by_class :
      (c : TypeClass) (d : Detector) (apdu : Apdu)
      → d.baseline ≡ b
      → Accounted d (iec_by_class c d pkt apdu)
  unfolding iec_by_class
  Account-iec_by_class TypeClass.command d apdu e = Account-hostile_act d _ _ _ e
  Account-iec_by_class TypeClass.system d apdu e = Account-recon d _ _ _ e
  Account-iec_by_class TypeClass.monitor d apdu e = Account-nothing pkt b d e

  pub Account-iec_by_type :
      (t : Option ℕ) (d : Detector) (apdu : Apdu)
      → d.baseline ≡ b
      → Accounted d (iec_by_type t d pkt apdu)
  unfolding iec_by_type
  Account-iec_by_type none d apdu e = Account-nothing pkt b d e
  Account-iec_by_type (some t) d apdu e =
      Account-observe d _ (Account-iec_by_class _ _ apdu (baseline-observe d _ ∙ e))

  pub Account-iec_by_format :
      (f : Format) (d : Detector) (apdu : Apdu)
      → d.baseline ≡ b
      → Accounted d (iec_by_format f d pkt apdu)
  unfolding iec_by_format
  Account-iec_by_format u_format d apdu e =
      Accounted-if d (apdu.control == 0x13) _ _
        (λ _.
          Account-observe d _
            (Account-one_alert pkt b _ medium _ _ _ (baseline-observe d _ ∙ e) (inr refl)))
        (λ _. Account-nothing pkt b d e)
  Account-iec_by_format i_format d apdu e = Account-iec_by_type apdu.type_id d apdu e
  Account-iec_by_format s_format d apdu e = Account-iec_by_type apdu.type_id d apdu e

  pub Account-iec104_alerts :
      (d : Detector) (apdus : List Apdu) → d.baseline ≡ b → Accounted d (iec104_alerts d pkt apdus)
  unfolding iec104_alerts
  Account-iec104_alerts d [] e = Account-nothing pkt b d e
  Account-iec104_alerts d (apdu ∷ rest) e =
      let first = Account-iec_by_format apdu.format d apdu e in
      Account-append pkt b d _ _ _ _ first
        (Account-iec104_alerts (iec_by_format apdu.format d pkt apdu).0 rest first.baseline)

  pub Account-s7_by_class :
      (c : JobClass) (d : Detector) (job : S7Job)
      → d.baseline ≡ b
      → Accounted d (s7_by_class c d pkt job)
  unfolding s7_by_class
  Account-s7_by_class JobClass.program d job e = Account-hostile_act d _ _ _ e
  Account-s7_by_class JobClass.control d job e = Account-hostile_act d _ _ _ e
  Account-s7_by_class JobClass.write d job e = Account-hostile_act d _ _ _ e
  Account-s7_by_class JobClass.read d job e = Account-nothing pkt b d e
  Account-s7_by_class JobClass.setup d job e = Account-nothing pkt b d e
  Account-s7_by_class JobClass.other d job e = Account-nothing pkt b d e

  pub Account-s7_alerts :
      (d : Detector) (found : Option S7Job) → d.baseline ≡ b → Accounted d (s7_alerts d pkt found)
  unfolding s7_alerts
  Account-s7_alerts d none e = Account-nothing pkt b d e
  Account-s7_alerts d (some job) e =
      Accounted-if d (not (job.rosctr == 0x01)) _ _ (λ _. Account-nothing pkt b d e)
        (λ _. Account-observe d _ (Account-s7_by_class _ _ job (baseline-observe d _ ∙ e)))
