-- ===== src/Command/Watch.antt =====
-- The command `monitor` of pyscan/cli/main.py, pyscan/adapters/output/incident_report.py, and the
-- evidence timeline of pyscan/adapters/output/monitor_tui.py. `str.upper` and the printing of times
-- are parameters; a capture is the frames that it yields and what it raises behind them.
pub mod Entries
pub mod Evidence
pub mod Replay
pub mod Timeline
use pyscan.Command.Watch.Entries.{Printing, Entry, entries_of}
use pyscan.Capture.{finished, Stream, Clock, failed, yield, stuck}
use pyscan.Wire.{Bytes}
use pyscan.Command.{◌>>=◌, value_is_usage, Body, on_error, uncaught}
use pyscan.Monitor.{Frame, run}
use pyscan.Prelude.{
  ℕ, ◌-◌, ◌/◌, not, Option, none, some, List, [], ◌∷◌, ◌++◌, map, Text, codes, text_eq, decimal,
  if◌then◌else◌, Exception, value_error, Result, ok, err, sort_texts, join,
}
use pyscan.Detect.State.{
  Detector, Alert, Severity, critical, high, medium, info, baseline_of, joined, fresh,
}
use pyscan.Command.Sniff.{source_end}
use pyscan.Capture.Pcapng.{read_pcap}

-- `Severity(text)`
unfoldable pub severity_of_text : Text → Result Severity
unfolding text_eq
severity_of_text t =
    if text_eq t (codes "CRITICAL")
    then ok critical
    else if text_eq t (codes "HIGH")
    then ok high
    else if text_eq t (codes "MEDIUM")
    then ok medium
    else if text_eq t (codes "INFO")
    then ok info
    else err value_error

-- `text or fallback`
unfoldable pub or_else : Text → Text → Text
or_else [] fallback = fallback
or_else (c ∷ t) fallback = c ∷ t

-- `", ".join(sorted(texts)) or fallback`
unfoldable pub listed : List Text → Text → Text
unfolding join sort_texts or_else
listed texts fallback = or_else (join (codes ", ") (sort_texts texts)) fallback

unfoldable pub timeline_line : Entry → Text
timeline_line e =
    codes "- **" ++ (e.when ++ (codes "** - " ++ (e.kind ++ (codes " - " ++ e.detail))))

unfoldable pub timeline_lines : List Entry → List Text
unfolding timeline_line
timeline_lines [] = codes "_(no events recorded)_" ∷ []
timeline_lines (e ∷ rest) = map timeline_line (e ∷ rest)

-- The lines in front of the timeline; the day and the second of the stamp are printed outside.
unfoldable pub report_head : Text → Text → Detector → List Text
unfolding listed decimal
report_head day second d =
    (codes "# INC-" ++ (day ++ codes "-01 - OT incident"))
    ∷ []
    ∷ (codes "Generated: " ++ (second ++ codes " UTC"))
    ∷ (codes "Traffic reviewed: "
        ++ (decimal d.packets
            ++ (codes " OT packets, " ++ (decimal d.alerts ++ codes " alerts raised."))))
    ∷ []
    ∷ codes "## 1. Executive summary"
    ∷ []
    ∷ codes "_[fill in: what happened, over what window, current status]_"
    ∷ []
    ∷ codes "## 2. Indicators of compromise"
    ∷ []
    ∷ (codes "- Hostile source(s): `" ++ (listed d.hostile_sources (codes "-") ++ codes "`"))
    ∷ (codes "- Operations observed: `" ++ (listed d.observed_operations (codes "-") ++ codes "`"))
    ∷ codes "- OT ports in scope: 502 (Modbus) / 2404 (IEC-104) / 102 (S7comm)"
    ∷ []
    ∷ codes "## 3. Timeline (UTC)"
    ∷ []
    ∷ []

unfoldable pub report_tail : List Text
report_tail =
    []
    ∷ codes "## 4. ATT&CK for ICS mapping"
    ∷ []
    ∷ (codes "Discovery (T0846 / T0888) -> Collection -> Impair Process Control "
        ++ codes "(T0855 Unauthorized Command Message) -> Impact.")
    ∷ []
    ∷ codes "## 5. Containment and recommendations"
    ∷ []
    ∷ codes "- Source isolated by ACL at the IDMZ - the source, not the PLC."
    ∷ codes "- Setpoint and breaker restoration coordinated with operations."
    ∷ (codes "- Allow-list of sources permitted to reach the PLC; IDS rule on any write "
        ++ codes "from a source other than the HMI.")
    ∷ []
    ∷ codes "---"
    ∷ []
    ∷ (codes "Availability > Integrity > Confidentiality. Detect, map, document, "
        ++ codes "isolate the source, report.")
    ∷ []

-- `build_report`
unfoldable pub build_report : Text → Text → Detector → List Entry → Text
unfolding report_head timeline_lines report_tail join
build_report day second d timeline =
    join (codes "\n") (report_head day second d ++ (timeline_lines timeline ++ report_tail))
    ++ codes "\n"

pub record MonitorArguments : Type 0 where
  pub hmi : Text
  pub plc : Text
  pub min_severity : Text

-- What `monitor` has when its source is at the end: what it printed, in order, and what it reports.
pub record Watched (T : Type 0) : Type 0 where
  pub emitted : List (Alert T)
  pub detector : Detector
  pub timeline : List Entry

module _ {T : Type 0} (ntop : Bytes → Text) (printing : Printing T) (upper : Text → Text) where
  -- The body behind the choice of the source; an interrupt ends the frames. A time that is not
  -- printed ends the command before the source's end.
  unfoldable pub monitor_command :
      MonitorArguments → List (Option (Frame T)) → Option Exception → Body (Watched T)
  unfolding severity_of_text value_is_usage source_end entries_of
  monitor_command args frames raised = do
    floor ← on_error value_is_usage (severity_of_text (upper args.min_severity))
    let baseline = baseline_of (joined args.hmi) (joined args.plc)
    watched ← on_error uncaught (run ntop floor (fresh baseline) frames)
    timeline ← on_error uncaught (entries_of printing watched.1)
    source_end raised (record { emitted = watched.1; detector = watched.0; timeline = timeline })

-- What `_read_capture` yields of a capture, and what it raises behind that. A reader is never stuck.
unfoldable pub replayed :
    {T : Type 0} → Stream (T × ℕ × Bytes) → List (Option (T × ℕ × Bytes)) × Option Exception
replayed finished = ([], none)
replayed (failed e) = ([], some e)
replayed (yield frame rest) = let (frames, raised) = replayed rest in (some frame ∷ frames, raised)
replayed stuck = ([], none)

-- `monitor` on the bytes of a capture file.
unfoldable pub monitor_file :
    {T : Type 0}
    → (Bytes → Text)
    → Clock T
    → Printing T
    → (Text → Text)
    → MonitorArguments
    → Bytes
    → Body (Watched T)
unfolding monitor_command replayed
monitor_file ntop time printing upper args file =
    let (frames, raised) = replayed (read_pcap time file) in
    monitor_command ntop printing upper args frames raised
