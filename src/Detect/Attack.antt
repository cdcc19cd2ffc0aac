-- ===== src/Detect/Attack.antt =====
-- Acts on the process from a source that is not in charge are reported as CRITICAL.
use pyscan.Wire.{Bytes}
use pyscan.Prelude.{
  ℕ, ◌+◌, ◌≡◌, refl, ap, ◌≢◌, ◌⊎◌, inl, inr, true, Option, some, List, [], ◌∷◌, ◌++◌, Text, codes,
  text_eq_iff, text_eq, All, Any, Any-append_left, Any-append_right, lookup, ==_iff, Result, ok,
}
use pyscan.Packet.Transport.{Packet}
use pyscan.Iec104.{Apdu, Format, i_format, s_format, u_format, parse_apdus}
use pyscan.Iec104.Tables.{TypeClass, classify_type_id}
use pyscan.Modbus.Frame.{code_of_frame, read_function_code-code_of_frame}
use pyscan.Modbus.Tables.{FunctionClass, classify_function}
use pyscan.S7comm.Tables.{S7Job, JobClass, job_class}
use pyscan.S7comm.Total.{job_of_header, parse_job-job_of_header}
use mathlib.Core.Path.{subst}
use pyscan.Detect.State.{
  info, critical, Alert, Baseline, Detector, unauthorised, severity_of, one_alert, observe,
  protected, contains, show_host,
}
use pyscan.Detect.Rules.{
  modbus_alerts, iec_by_class, iec_by_type, iec_by_format, iec104_alerts, s7_alerts,
  modbus_by_class, s7_by_class, modbus_rule, new_talker, iec104_rule, s7comm_rule,
}
use pyscan.Detect.Account.Rules.{Account-iec_by_format, Account-new_talker}
use pyscan.Detect.{
  payload_rules, feed_port, feed_ot, protocol_rule, ot_ports, feed_protocol, feed, syn_rule,
}
use pyscan.Detect.Account.Feed.{Reports-syn_rule, feed-Account}

-- An APDU that carries a command: not a U-frame, with a type id of the command class.
pub record IsCommand (apdu : Apdu) : Type 0 where
  pub type_id : ℕ
  pub numbered : apdu.format ≢ u_format
  pub typed : apdu.type_id ≡ some type_id
  pub commands : classify_type_id type_id ≡ TypeClass.command

-- The payload of a packet to this port acts on the process: a Modbus write or file transfer, an
-- IEC-104 command among the APDUs, or an S7 request that writes, transfers blocks or controls the
-- CPU.
pub data ActsOn (payload : Bytes) : ℕ → Type 0 where
  modbus :
      {port : ℕ} (function : ℕ)
      → port ≡ 502
      → code_of_frame payload ≡ some function
      → (classify_function function ≡ FunctionClass.write)
        ⊎ (classify_function function ≡ FunctionClass.program)
      → ActsOn payload port
  iec104 :
      {port : ℕ} (apdus : List Apdu)
      → port ≡ 2404
      → parse_apdus payload 64 ≡ ok apdus
      → Any IsCommand apdus
      → ActsOn payload port
  s7comm :
      {port : ℕ} (job : S7Job)
      → port ≡ 102
      → job_of_header payload ≡ some job
      → job.rosctr ≡ 0x01
      → (job_class job ≡ JobClass.write)
        ⊎ ((job_class job ≡ JobClass.program) ⊎ (job_class job ≡ JobClass.control))
      → ActsOn payload port

Any-ne-nil {ℓ} : {A : Type ℓ} (P : A → Type 0) (xs : List A) → Any P xs → xs ≢ []
Any-ne-nil P [] h e = h
Any-ne-nil P (x ∷ xs) h e = cc

parse_apdus-nil : parse_apdus [] 64 ≡ ok []
unfolding parse_apdus
parse_apdus-nil = refl

abbrev pub IsCritical : {T : Type 0} → Alert T → Type 0
IsCritical a = a.severity ≡ critical

module _ {T : Type 0} (pkt : Packet T) where
  abbrev Alarms : Result (Detector × List (Alert T)) → Type 0
  Alarms m = (r : Detector × List (Alert T)) × (m ≡ ok r) × Any (IsCritical {T = T}) r.1

  hostile_severity :
      (b : Baseline) → unauthorised b pkt.src ≡ true → severity_of b pkt.src critical ≡ critical
  unfolding severity_of
  hostile_severity b u = rw u

  modbus_alerts-Any :
      (d : Detector) (function : ℕ)
      → unauthorised d.baseline pkt.src ≡ true
      → (classify_function function ≡ FunctionClass.write)
        ⊎ (classify_function function ≡ FunctionClass.program)
      → Any IsCritical (modbus_alerts d pkt (some function)).1
  unfolding modbus_alerts modbus_by_class one_alert observe
  modbus_alerts-Any d function u (inl c) = rw c (inl (hostile_severity d.baseline u))
  modbus_alerts-Any d function u (inr c) = rw c (inl (hostile_severity d.baseline u))

  s7_alerts-Any :
      (d : Detector) (job : S7Job)
      → unauthorised d.baseline pkt.src ≡ true
      → job.rosctr ≡ 0x01
      → (job_class job ≡ JobClass.write)
        ⊎ ((job_class job ≡ JobClass.program) ⊎ (job_class job ≡ JobClass.control))
      → Any IsCritical (s7_alerts d pkt (some job)).1
  unfolding s7_alerts s7_by_class one_alert observe
  s7_alerts-Any d job u q (inl c) =
      rw ((==_iff job.rosctr 1).1 q) (rw c (inl (hostile_severity d.baseline u)))
  s7_alerts-Any d job u q (inr (inl c)) =
      rw ((==_iff job.rosctr 1).1 q) (rw c (inl (hostile_severity d.baseline u)))
  s7_alerts-Any d job u q (inr (inr c)) =
      rw ((==_iff job.rosctr 1).1 q) (rw c (inl (hostile_severity d.baseline u)))

  iec_by_type-Any :
      (o : Option ℕ) (d : Detector) (apdu : Apdu) (t : ℕ)
      → o ≡ some t
      → unauthorised d.baseline pkt.src ≡ true
      → classify_type_id t ≡ TypeClass.command
      → Any IsCritical (iec_by_type o d pkt apdu).1
  unfolding iec_by_type iec_by_class one_alert observe
  iec_by_type-Any o d apdu t e u c =
      rw (e, iec_by_type) (rw c (inl (hostile_severity d.baseline u)))

  iec_by_format-Any :
      (f : Format) (d : Detector) (apdu : Apdu) (t : ℕ)
      → f ≢ u_format
      → apdu.type_id ≡ some t
      → unauthorised d.baseline pkt.src ≡ true
      → classify_type_id t ≡ TypeClass.command
      → Any IsCritical (iec_by_format f d pkt apdu).1
  unfolding iec_by_format
  iec_by_format-Any u_format d apdu t n e u c = absurd (n refl)
  iec_by_format-Any i_format d apdu t n e u c = iec_by_type-Any apdu.type_id d apdu t e u c
  iec_by_format-Any s_format d apdu t n e u c = iec_by_type-Any apdu.type_id d apdu t e u c

  iec104_alerts-Any :
      (d : Detector) (apdus : List Apdu)
      → unauthorised d.baseline pkt.src ≡ true
      → Any IsCommand apdus
      → Any IsCritical (iec104_alerts d pkt apdus).1
  unfolding iec104_alerts
  iec104_alerts-Any d [] u h = absurd h
  iec104_alerts-Any d (apdu ∷ rest) u (inl h) =
      Any-append_left IsCritical _ _
        (iec_by_format-Any apdu.format d apdu h.type_id h.numbered h.typed u h.commands)
  iec104_alerts-Any d (apdu ∷ rest) u (inr h) =
      let d' = (iec_by_format apdu.format d pkt apdu).0 in
      Any-append_right IsCritical (iec_by_format apdu.format d pkt apdu).1 _ (
        iec104_alerts-Any d' rest
          (rw (Account-iec_by_format pkt d.baseline apdu.format d apdu refl).baseline u) h)

  -- The name under which a port is known, and what its rule finds.
  abbrev Named : ℕ → Type 0
  Named port =
      (protocol : Text) × (lookup port ot_ports ≡ some protocol)
      × ((d : Detector)
          → unauthorised d.baseline pkt.src ≡ true
          → Alarms (protocol_rule d pkt protocol))

  ActsOn-Named : {port : ℕ} → ActsOn pkt.payload port → Named port
  unfolding protocol_rule modbus_rule iec104_rule s7comm_rule lookup text_eq
  ActsOn-Named (modbus function e code kind) = (
    codes "Modbus",
    rw e,
    λ d u.
        rw (read_function_code-code_of_frame pkt.payload, code)
          (_, refl, modbus_alerts-Any d function u kind),
  )
  ActsOn-Named (iec104 apdus e read commands) =
      (codes "IEC-104", rw e, λ d u. rw read (_, refl, iec104_alerts-Any d apdus u commands))
  ActsOn-Named (s7comm job e header request kind) = (
    codes "S7comm",
    rw e,
    λ d u.
        rw (parse_job-job_of_header pkt.payload, header)
          (_, refl, s7_alerts-Any d job u request kind),
  )

  ActsOn-nonempty : {payload : Bytes} {port : ℕ} → ActsOn payload port → payload ≢ []
  ActsOn-nonempty (modbus function e code kind) n = cc (ap code_of_frame n)
  ActsOn-nonempty (iec104 apdus e read commands) n =
      absurd (Any-ne-nil IsCommand apdus commands (cc (read, n, parse_apdus-nil)))
  ActsOn-nonempty (s7comm job e header request kind) n = cc (ap job_of_header n)

  Alarms-payload_rules :
      (payload : Bytes) (d : Detector) (protocol : Text)
      → payload ≢ []
      → unauthorised d.baseline pkt.src ≡ true
      → ((d' : Detector)
          → unauthorised d'.baseline pkt.src ≡ true
          → Alarms (protocol_rule d' pkt protocol))
      → Alarms (payload_rules payload d pkt protocol)
  unfolding payload_rules
  Alarms-payload_rules [] d protocol n u rule = absurd (n refl)
  Alarms-payload_rules (x ∷ xs) d protocol n u rule =
      let talker = Account-new_talker pkt d.baseline d protocol refl in
      let (r, returns, found) = rule (new_talker d pkt protocol).0 (rw talker.baseline u) in
      (
        (r.0, (new_talker d pkt protocol).1 ++ r.1),
        rw returns,
        Any-append_right IsCritical (new_talker d pkt protocol).1 _ found,
      )

  Alarms-feed_ot :
      (d : Detector) (port : ℕ) (protocol : Text)
      → pkt.payload ≢ []
      → unauthorised d.baseline pkt.src ≡ true
      → ((d' : Detector)
          → unauthorised d'.baseline pkt.src ≡ true
          → Alarms (protocol_rule d' pkt protocol))
      → Alarms (feed_ot d pkt port protocol)
  unfolding feed_ot
  Alarms-feed_ot d port protocol n u rule =
      let d' = record d { packets = d.packets + 1 } in
      let syn = Reports-syn_rule pkt d.baseline d' port protocol refl in
      let (r, returns, found) =
        Alarms-payload_rules pkt.payload (syn_rule d' pkt port protocol).0 protocol n
          (rw syn.baseline u) rule in
      (
        (r.0, (syn_rule d' pkt port protocol).1 ++ r.1),
        rw returns,
        Any-append_right IsCritical (syn_rule d' pkt port protocol).1 _ found,
      )

  Alarms-feed_port :
      (d : Detector) (dport : Option ℕ) (port : ℕ)
      → dport ≡ some port
      → protected d.baseline pkt.dst ≡ true
      → unauthorised d.baseline pkt.src ≡ true
      → ActsOn pkt.payload port
      → Alarms (feed_port d pkt dport)
  unfolding feed_port feed_protocol
  Alarms-feed_port d dport port e p u acts =
      let (protocol, named, rule) = ActsOn-Named acts in
      rw (e, feed_port)
        (rw named (rw p (Alarms-feed_ot d port protocol (ActsOn-nonempty acts) u rule)))

feed_tcp :
    {T : Type 0} (d : Detector) (pkt : Packet T)
    → pkt.protocol ≡ codes "TCP"
    → feed d pkt ≡ feed_port d pkt pkt.dport
unfolding feed
feed_tcp d pkt e =
    let same : text_eq pkt.protocol (codes "TCP") ≡ true =
      (text_eq_iff pkt.protocol (codes "TCP")).1 e in
    rw same

noted_critical :
    {T : Type 0} (Q : Type 0) (found : List (Alert T))
    → All (λ (a : Alert T). a.severity ≢ info → Q) found
    → Any (IsCritical {T = T}) found
    → Q
noted_critical Q [] h k = absurd k
noted_critical Q (a ∷ rest) (h, t) (inl c) = h (λ i. cc)
noted_critical Q (a ∷ rest) (h, t) (inr k) = noted_critical Q rest t k

-- A packet that acts on the process, sent over TCP to an OT port of a protected device by a
-- source that is not in charge, makes `feed` return at least one CRITICAL alert, with the source
-- among the hostile ones afterwards.
pub feed_attack :
    {T : Type 0} (d : Detector) (pkt : Packet T) (port : ℕ)
    → pkt.protocol ≡ codes "TCP"
    → pkt.dport ≡ some port
    → protected d.baseline pkt.dst ≡ true
    → unauthorised d.baseline pkt.src ≡ true
    → ActsOn pkt.payload port
    → (r : Detector × List (Alert T)) × (feed d pkt ≡ ok r)
      × Any (IsCritical {T = T}) r.1
      × (contains (show_host pkt.src) r.0.hostile_sources ≡ true)
feed_attack {T} d pkt port tcp e p u acts =
    let (r, returns, alarms) = Alarms-feed_port pkt d pkt.dport port e p u acts in
    let (r', returns', account) = feed-Account d pkt in
    let same : r ≡ r' = cc (returns, returns', feed_tcp d pkt tcp) in
    let found : Any (IsCritical {T = T}) r'.1 =
      subst (λ q. Any (IsCritical {T = T}) q.1) same alarms in
    (r', returns', found, noted_critical _ r'.1 (account.noted u) found)
