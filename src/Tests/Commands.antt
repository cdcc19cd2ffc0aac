-- ===== src/Tests/Commands.antt =====
-- The theorems on the commands at concrete arguments.
use pyscan.Command.Watch.Timeline.{started, note_added, cleared, exported}
use pyscan.Detect.Attack.{ActsOn}
use pyscan.Wire.{Bytes, to_bytes, u16_bytes, u32_bytes, pack_u8, pack_u16, pack_u32}
use pyscan.Tests.Watch.{coil_write, coil_write-IsSendable}
use pyscan.Prelude.{
  ℕ, ◌-◌, ◌≡◌, refl, ◌⊎◌, inl, inr, true, false, none, some, List, [], ◌∷◌, ◌++◌, arith, codes,
  text_eq, strip, split_on, Any, lookup, ◌==◌, Bool-cases, pos, value_error, ok,
}
use pyscan.Command.Watch.Timeline.{
  MonitorEvent, MonitorApp, on_events, recorded_all, on_events-timeline,
}
use pyscan.Modbus.Tables.{classify_function}
use pyscan.Scan.Targets.{Addressing}
use pyscan.Command.Probe.Endings.{Early, ScanService, Served, scan_calls}
use pyscan.Command.Sniff.Screen.{Shows, takes_all, handle_events-Shows}
use pyscan.Command.Probe.{ScanArguments, scan}
use pyscan.Command.Sniff.{
  sniff, SniffEvent, Source, packet_arrived, handle_events, toggle_pause, new_app, clear,
}
use pyscan.Command.Watch.Evidence.{IsWatching, IsCriticalEntry, monitor_command-encode_frame}
use pyscan.Command.Watch.{
  MonitorArguments, Watched, monitor_command, severity_of_text, monitor_file,
}
use pyscan.Command.Watch.Entries.{Printing, clock}
use pyscan.Packet.Transport.{Packet, unknown_packet}
use pyscan.Command.Sniff.Filtered.{up_to, limit_of, matches, wanted, sniff_shows}
use pyscan.Detect.State.{high, contains, unauthorised, known, baseline_of, as_set, add, protected}
use pyscan.Traffic.{encode_frame, flag_bits}
use pyscan.Scan.Strategies.Registry.{builtin}
use pyscan.Command.{goes}
use pyscan.Capture.Writer.{write_pcap, split_time, carry}
use pyscan.Tests.Files.{micro_rounding, micro_clock, first-IsWritable}
use pyscan.Capture.RoundTrip.{IsWritable}
use pyscan.Command.Watch.Replay.{monitor_file-write_pcap}
use pyscan.Command.Watch.Evidence.{Prints}
use pyscan.Traffic.Checksum.{checksum}

abbrev one_host : Addressing
one_host = record { ip_network = λ spec. none; ip_version = λ host. none }

abbrev arguments : ScanArguments ℕ
arguments = record {
  host = codes "plc.lab";
  ports = codes "502";
  scan_type = codes "modbus";
  show_all = false;
  banner = true;
  json_out = none;
  csv_out = some (codes "out.csv");
  top = none;
  pace = record {
    concurrency = pos 1;
    timeout = 1;
    max_rate = some 5;
    retries = pos 0;
    prefer_ipv6 = false;
  };
}

scan_calls_example :
    Early {S = ScanService ℕ ℕ} one_host arguments
      (λ service. scan one_host (builtin true) service arguments)
    ⊎ Served {A = ℕ} one_host true arguments
        (λ service. scan one_host (builtin true) service arguments)
scan_calls_example = scan_calls {A = ℕ} one_host true arguments

abbrev difference : ℕ → ℕ → ℕ
difference a b = a - b

abbrev seen : Packet ℕ
seen = unknown_packet 5 60

abbrev presses : List (SniffEvent ℕ)
presses =
    packet_arrived seen
    ∷ toggle_pause
    ∷ packet_arrived seen
    ∷ toggle_pause
    ∷ clear
    ∷ packet_arrived seen
    ∷ []

handle_events-Shows_example :
    Shows difference
      (handle_events difference (new_app difference) presses)
      (takes_all (false, []) presses)
handle_events-Shows_example = handle_events-Shows difference presses

abbrev short_frames : Source ℕ
short_frames = record { frames = (1, 1, 0 ∷ []) ∷ (2, 1, 1 ∷ []) ∷ []; raised = some value_error }

sniff_shows_example :
    sniff (λ _. []) (λ t. t) none (some (pos 1)) short_frames
    ≡ up_to
        (limit_of (some (pos 1)))
        (matches (λ _. []) (wanted (λ t. t) none) short_frames.frames)
        short_frames.raised
sniff_shows_example = sniff_shows (λ _. []) (λ t. t) none (some (pos 1)) short_frames

abbrev shift : List (MonitorEvent ℕ)
shift =
    started (codes "10.10.30.10") [] (codes "live")
    ∷ note_added (codes "08:00:00") (codes " odd write ")
    ∷ cleared
    ∷ note_added (codes "08:01:00") (codes " ")
    ∷ exported (codes "08:02:00") (codes "20250101") (codes "2025-01-01 08:02:00") (codes "r.md")
    ∷ []

abbrev idle : MonitorApp ℕ
idle = record { service = none; timeline = []; log = []; reports = [] }

on_events-timeline_example : (on_events idle shift).timeline ≡ [] ++ recorded_all shift
on_events-timeline_example = on_events-timeline shift idle

abbrev watching : MonitorArguments
watching = record {
  hmi = codes "10.10.30.10";
  plc = codes "10.10.30.21";
  min_severity = codes "HIGH";
}

watching-IsWatching : IsWatching (λ t. t) watching coil_write.src coil_write.dst
unfolding severity_of_text unauthorised known baseline_of as_set split_on strip add protected
watching-IsWatching = record { floor = (high, refl); hostile = refl; protects = refl }

abbrev pub plain : Printing ℕ
plain = record { is_zero = λ ts. ts == 0; strftime = λ ts. ok (codes "12:00:00") }

pub plain-Prints : (ts : ℕ) → Prints plain ts
unfolding clock
plain-Prints ts = elim (Bool-cases (ts == 0)) [ inl h ↦ rw h (_, refl) | inr h ↦ rw h (_, refl) ]

monitor_command-encode_frame_example :
    (frame : Bytes) × (encode_frame coil_write ≡ ok frame)
    × ((outcome : Watched ℕ) × (monitor_command
            (λ _. [])
            plain
            (λ t. t)
            watching
            ((none ∷ []) ++ (some (9, 1, frame ++ (0 ∷ [])) ∷ []))
            none
          ≡ goes outcome)
        × Any IsCriticalEntry outcome.timeline
        × (contains coil_write.src outcome.detector.hostile_sources ≡ true))
unfolding classify_function lookup
monitor_command-encode_frame_example =
    monitor_command-encode_frame (λ _. []) plain (λ t. t) watching coil_write (none ∷ []) []
      (0 ∷ []) watching-IsWatching coil_write-IsSendable (ActsOn.modbus 5 refl refl (inl refl))
      (tt, tt) (plain-Prints 9) tt

abbrev coil_frame : Bytes
coil_frame =
    2 ∷ 0 ∷ 10 ∷ 10 ∷ 30 ∷ 21 ∷ 2 ∷ 0 ∷ 10 ∷ 10 ∷ 30 ∷ 142 ∷ 8 ∷ 0 ∷ 69 ∷ 0 ∷ 0 ∷ 52 ∷ 0 ∷ 0 ∷ 64
    ∷ 0 ∷ 64 ∷ 6 ∷ 234 ∷ 13 ∷ 10 ∷ 10 ∷ 30 ∷ 142 ∷ 10 ∷ 10 ∷ 30 ∷ 21 ∷ 156 ∷ 64 ∷ 1 ∷ 246 ∷ 0 ∷ 0
    ∷ 3 ∷ 232 ∷ 0 ∷ 0 ∷ 7 ∷ 208 ∷ 80 ∷ 24 ∷ 32 ∷ 0 ∷ 148 ∷ 14 ∷ 0 ∷ 0 ∷ 0 ∷ 1 ∷ 0 ∷ 0 ∷ 0 ∷ 6 ∷ 1
    ∷ 5 ∷ 0 ∷ 1 ∷ 0 ∷ 0 ∷ []

coil_frame-encode_frame : encode_frame coil_write ≡ ok coil_frame
unfolding encode_frame pack_u16 pack_u32 pack_u8 flag_bits text_eq to_bytes u16_bytes u32_bytes
    checksum
coil_frame-encode_frame = refl

coil_frame-IsWritable : IsWritable micro_rounding (9, coil_frame ++ (0 ∷ []))
unfolding split_time carry
coil_frame-IsWritable = record {
  seconds = 0;
  micros = 9;
  split = refl;
  seconds_word = omega arith;
  micros_word = omega arith;
  fits = omega arith;
}

monitor_file-write_pcap_example :
    (file : Bytes) × (write_pcap micro_rounding
        ((1_500_000, 1 ∷ 2 ∷ 3 ∷ []) ∷ (9, coil_frame ++ (0 ∷ [])) ∷ [])
        1
      ≡ ok (file, 2))
    × ((outcome : Watched ℕ) × (monitor_file (λ _. []) micro_clock plain (λ t. t) watching file
          ≡ goes outcome)
        × Any IsCriticalEntry outcome.timeline
        × (contains coil_write.src outcome.detector.hostile_sources ≡ true))
unfolding classify_function lookup
monitor_file-write_pcap_example =
    monitor_file-write_pcap micro_rounding micro_clock plain (λ s m _ _. plain-Prints _) (λ _. [])
      (λ t. t) watching coil_write coil_frame (0 ∷ []) ((1_500_000, 1 ∷ 2 ∷ 3 ∷ []) ∷ []) []
      watching-IsWatching coil_write-IsSendable (ActsOn.modbus 5 refl refl (inl refl))
      coil_frame-encode_frame (first-IsWritable, (coil_frame-IsWritable, tt))
