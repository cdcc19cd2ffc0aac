-- ===== src/Command/Watch/Evidence.antt =====
-- From a frame on the wire to the incident report.
use pyscan.Monitor.Attack.{run-encode_frame}
use pyscan.Detect.Attack.{IsCritical}
use pyscan.Wire.{Bytes}
use pyscan.Monitor.{Frame, run}
use pyscan.Monitor.Run.{TimeHas, run-times}
use mathlib.Core.Path.{subst}
use pyscan.Prelude.{
  ◌≡◌, refl, ap, inl, inr, true, Option, none, some, List, [], ◌∷◌, ◌++◌, Text, codes, All,
  All-append, Any, ok, Returns,
}
use pyscan.Command.Watch.{
  MonitorArguments, severity_of_text, baseline_of, joined, monitor_command, source_end, Watched,
  fresh, Alert, Severity, Detector, run,
}
use pyscan.Command.Watch.Entries.{
  Printing, Entry, entry_of, severity_text, clock, entries_of, alert_detail,
}
use pyscan.Detect.State.{
  unauthorised, baseline_of, joined, protected, contains, fresh, Alert, Severity, Detector,
}
use pyscan.Command.Sniff.{source_end}
use pyscan.Traffic.{Exchange, encode_frame}
use pyscan.Traffic.Layout.{IsSendable}
use pyscan.Detect.Attack.{ActsOn}
use pyscan.Command.{goes}
use pyscan.Monitor.Attack.{run-encode_frame}

-- An entry of the timeline that says CRITICAL.
abbrev pub IsCriticalEntry : Entry → Type 0
IsCriticalEntry entry = entry.kind ≡ codes "CRITICAL"

-- The arguments of `monitor` name a severity, a source that is not in charge and a device that is
-- protected.
pub record IsWatching (upper : Text → Text) (args : MonitorArguments) (src dst : Text)
    : Type 0 where
  pub floor : Returns (severity_of_text (upper args.min_severity))
  pub hostile : unauthorised (baseline_of (joined args.hmi) (joined args.plc)) (some src) ≡ true
  pub protects : protected (baseline_of (joined args.hmi) (joined args.plc)) (some dst) ≡ true

-- The time can be printed.
abbrev pub Prints : {T : Type 0} → Printing T → T → Type 0
Prints printing ts = Returns (clock printing ts)

entries_of-IsCriticalEntry :
    {T : Type 0} (printing : Printing T) (alerts : List (Alert T))
    → All (λ (a : Alert T). Prints printing a.ts) alerts
    → (entries : List Entry) × (entries_of printing alerts ≡ ok entries)
      × (Any IsCritical alerts → Any IsCriticalEntry entries)
unfolding entries_of entry_of severity_text
entries_of-IsCriticalEntry printing [] h = ([], refl, λ k. absurd k)
entries_of-IsCriticalEntry printing (alert ∷ rest) ((when, e), h) =
    let (entries, f, found) = entries_of-IsCriticalEntry printing rest h in
    (
      record { when = when; kind = severity_text alert.severity; detail = alert_detail alert }
          ∷ entries,
      rw e (rw f refl),
      λ k. elim k [ inl c ↦ inl (ap severity_text c) | inr l ↦ inr (found l) ],
    )

module _ {T : Type 0} (ntop : Bytes → Text) (printing : Printing T) (upper : Text → Text) where
  monitor_command_ok :
      (args : MonitorArguments) (frames : List (Option (Frame T))) (floor : Severity)
      (r : Detector × List (Alert T)) (entries : List Entry)
      → severity_of_text (upper args.min_severity) ≡ ok floor
      → run ntop floor (fresh (baseline_of (joined args.hmi) (joined args.plc))) frames ≡ ok r
      → entries_of printing r.1 ≡ ok entries
      → monitor_command ntop printing upper args frames none
        ≡ goes (record { emitted = r.1; detector = r.0; timeline = entries })
  unfolding monitor_command source_end
  monitor_command_ok args frames floor r entries named ran printed =
      rw named (rw ran (rw printed refl))

  -- The command `monitor`, with any severity that has a name, over a capture that holds an exchange
  -- acting on a protected device from a source not in charge, encoded by `encode_frame`, among any
  -- other frames, with every time one that can be printed and nothing raised at the end: it goes to
  -- its end, its timeline has a CRITICAL entry, and its detector, of which summary and report are
  -- made, has the source as hostile.
  pub monitor_command-encode_frame :
      (args : MonitorArguments) (x : Exchange T) (before after : List (Option (Frame T)))
      (padding : Bytes)
      → IsWatching upper args x.src x.dst
      → IsSendable x
      → ActsOn x.payload x.dport
      → All (TimeHas (Prints printing)) before
      → Prints printing x.ts
      → All (TimeHas (Prints printing)) after
      → (frame : Bytes) × (encode_frame x ≡ ok frame)
        × ((outcome : Watched T) × (monitor_command ntop printing upper args
                (before ++ (some (x.ts, 1, frame ++ padding) ∷ after))
                none
              ≡ goes outcome)
            × Any IsCriticalEntry outcome.timeline
            × (contains x.src outcome.detector.hostile_sources ≡ true))
  monitor_command-encode_frame args x before after padding w ready acts early now late =
      let baseline = baseline_of (joined args.hmi) (joined args.plc) in
      let (floor, named) = w.floor in
      let (frame, encoded, (r, ran, alarm, noted)) =
        run-encode_frame ntop floor baseline x.src (fresh baseline) x before after padding
          (unfold fresh in refl) ready refl w.hostile w.protects acts in
      let (r', ran', timed) =
        run-times ntop floor (Prints printing) (fresh baseline)
          (before ++ (some (x.ts, 1, frame ++ padding) ∷ after))
          (All-append _ before _ early (now, late)) in
      let same : r' ≡ r = cc (ran, ran') in
      let (entries, printed, found) =
        entries_of-IsCriticalEntry printing r.1
          (subst (λ q. All (λ (a : Alert T). Prints printing a.ts) q.1) same timed) in
      (
        frame,
        encoded,
        (
          record { emitted = r.1; detector = r.0; timeline = entries },
          monitor_command_ok args _ floor r entries named ran printed,
          found alarm,
          noted,
        ),
      )
