-- ===== src/Command/Lab/Drill.antt =====
-- The practice capture, replayed as its printed line says.
use mathlib.Core.Path.{subst}
use pyscan.Detect.Attack.{ActsOn}
use pyscan.Wire.{Bytes, to_bytes, u16_bytes, u32_bytes, pack_u8, pack_u16, pack_u32}
use pyscan.Prelude.{
  ℕ, ◌≡◌, refl, sym, ap, ◌∙◌, inl, true, List, [], ◌∷◌, ◌++◌, arith, Text, codes, text_eq, decimal,
  strip, split_on, length, take, drop, All, Any, lookup, Result, ok, err,
}
use pyscan.Traffic.{hmi, plc, rtu, attacker, build_frames, Exchange, encode_frame, flag_bits}
use pyscan.Command.Watch.{MonitorArguments, severity_of_text, Watched, monitor_file}
use pyscan.Command.Watch.Entries.{Printing}
use pyscan.Traffic.Checksum.{checksum}
use pyscan.Traffic.Payloads.{
  modbus_read_holding, modbus_read_device_id, modbus_write_register, modbus_write_coil, iec_u_frame,
  iec_i_frame,
}
use pyscan.Traffic.Layout.{IsSendable}
use pyscan.Detect.State.{baseline_of, as_set, add, contains, protected, unauthorised, known, medium}
use pyscan.Capture.Writer.{Rounding, write_pcap}
use pyscan.Command.Watch.Evidence.{IsWatching, IsCriticalEntry}
use pyscan.Capture.{Clock}
use pyscan.Command.Watch.Replay.{PrintsHeaders}
use pyscan.Command.Lab.{lab, Lab, goes, written_line, replay_line}
use pyscan.Modbus.Tables.{classify_function}
use pyscan.Capture.RoundTrip.{IsWritable}
use pyscan.Command.{goes}
use pyscan.Command.Watch.Replay.{monitor_file-write_pcap}

-- The frames of a result, and none of an exception.
abbrev frames_of : {A : Type 0} → Result (List A) → List A
frames_of (ok frames) = frames
frames_of (err e) = []

-- The frames of the practice scenario.
abbrev pub practice : {T : Type 0} → (T → ℕ → T) → T → List (T × Bytes)
unfolding build_frames
practice tick now = frames_of (build_frames tick now)

-- `monitor` with the options of the printed line, the severity left at its default.
abbrev pub drill_arguments : MonitorArguments
drill_arguments = record { hmi = hmi; plc = plc ++ (b',' ∷ rtu); min_severity = codes "MEDIUM" }

drill-IsWatching :
    (upper : Text → Text)
    → upper (codes "MEDIUM") ≡ codes "MEDIUM"
    → IsWatching upper drill_arguments attacker plc
unfolding severity_of_text baseline_of as_set add contains text_eq protected unauthorised known
    strip split_on
drill-IsWatching upper e = record { floor = rw e (medium, refl); hostile = refl; protects = refl }

module _ {T : Type 0} (tick : T → ℕ → T) (now : T) where
  -- The command to open a feeder, at the time that it has in the scenario.
  abbrev opening : T → Exchange T
  opening ts = record {
    ts = ts;
    src = attacker;
    dst = plc;
    sport = 50412;
    dport = 502;
    payload = 0 ∷ 0 ∷ 0 ∷ 0 ∷ 0 ∷ 6 ∷ 1 ∷ 5 ∷ 0 ∷ 0 ∷ 0 ∷ 0 ∷ [];
    flags = codes "PA";
  }

  pub build_frames-practice : build_frames tick now ≡ ok (practice tick now)
  unfolding build_frames encode_frame pack_u16 pack_u32 pack_u8 flag_bits text_eq to_bytes u16_bytes
      u32_bytes checksum modbus_read_holding modbus_read_device_id modbus_write_register
      modbus_write_coil iec_u_frame iec_i_frame
  build_frames-practice = refl

  length-practice : length (practice tick now) ≡ 22
  unfolding build_frames encode_frame pack_u16 pack_u32 pack_u8 flag_bits text_eq to_bytes u16_bytes
      u32_bytes checksum modbus_read_holding modbus_read_device_id modbus_write_register
      modbus_write_coil iec_u_frame iec_i_frame
  length-practice = refl

  -- `now`, moved on by each number of tenths in turn.
  after_tenths : List ℕ → T → T
  after_tenths [] t = t
  after_tenths (n ∷ rest) t = after_tenths rest (tick t n)

  -- The time of the command to open the feeder: six polls, then the attacker's first six frames.
  abbrev opening_time : T
  unfolding after_tenths
  opening_time =
      after_tenths (9 ∷ 2 ∷ 9 ∷ 2 ∷ 9 ∷ 2 ∷ 9 ∷ 2 ∷ 9 ∷ 2 ∷ 9 ∷ 2 ∷ 3 ∷ 9 ∷ 9 ∷ 9 ∷ 9 ∷ 9 ∷ []) now

  abbrev opening_frame : Bytes
  unfolding encode_frame
  opening_frame = frames_of (encode_frame (opening opening_time))

  encode_frame-opening : encode_frame (opening opening_time) ≡ ok opening_frame
  unfolding encode_frame pack_u16 pack_u32 pack_u8 flag_bits text_eq to_bytes u16_bytes u32_bytes
      checksum
  encode_frame-opening = refl

  practice_opening :
      practice tick now
      ≡ take 17 (practice tick now)
        ++ ((opening_time, opening_frame ++ []) ∷ drop 18 (practice tick now))
  unfolding build_frames encode_frame pack_u16 pack_u32 pack_u8 flag_bits text_eq to_bytes u16_bytes
      u32_bytes checksum modbus_read_holding modbus_read_device_id modbus_write_register
      modbus_write_coil iec_u_frame iec_i_frame after_tenths
  practice_opening = refl

  opening-IsSendable : IsSendable (opening opening_time)
  unfolding decimal
  opening-IsSendable = record {
    from = record {
      a = 10;
      b = 10;
      c = 30;
      d = 142;
      a_byte = omega arith;
      b_byte = omega arith;
      c_byte = omega arith;
      d_byte = omega arith;
    };
    to = record {
      a = 10;
      b = 10;
      c = 30;
      d = 21;
      a_byte = omega arith;
      b_byte = omega arith;
      c_byte = omega arith;
      d_byte = omega arith;
    };
    src = refl;
    dst = refl;
    sport = omega arith;
    dport = omega arith;
    fits = omega arith;
  }

module _ {T : Type 0} (tick : T → ℕ → T) (rounding : Rounding T) (time : Clock T) where
  lab_ok :
      (frames : List (T × Bytes)) (file : Bytes) (now : T) (out : Text)
      → build_frames tick now ≡ ok frames
      → write_pcap rounding frames 1 ≡ ok (file, length frames)
      → lab tick rounding now out
        ≡ goes (record {
          file = file;
          echoed = written_line (length frames) out ∷ replay_line out ∷ [];
        })
  unfolding lab
  lab_ok frames file now out e w = rw e (rw w refl)

  -- Whenever it is run, where the times of its scenario can be written and those of record headers
  -- printed, `lab` writes a capture of 22
  -- packets and prints so; `monitor`, with the options that `lab` prints and its default severity,
  -- which `str.upper` leaves as it is, goes over that file to its end, with a CRITICAL entry on the
  -- timeline and the scenario's attacker among the hostile sources.
  pub lab-monitor_file :
      (printing : Printing T) (ntop : Bytes → Text) (upper : Text → Text) (out : Text) (now : T)
      → PrintsHeaders time printing
      → upper (codes "MEDIUM") ≡ codes "MEDIUM"
      → All (IsWritable rounding) (practice tick now)
      → (made : Lab) × (lab tick rounding now out ≡ goes made)
        × (made.echoed ≡ written_line 22 out ∷ replay_line out ∷ [])
        × ((outcome : Watched T) × (monitor_file ntop time printing upper drill_arguments made.file
              ≡ goes outcome)
            × Any IsCriticalEntry outcome.timeline
            × (contains attacker outcome.detector.hostile_sources ≡ true))
  unfolding classify_function lookup
  lab-monitor_file printing ntop upper out now prints e ws =
      let frames = practice tick now in
      let split_eq = practice_opening tick now in
      let split =
        take 17 frames
        ++ ((opening_time tick now, opening_frame tick now ++ []) ∷ drop 18 frames) in
      let (file, written, seen) =
        monitor_file-write_pcap rounding time printing prints ntop upper drill_arguments
          (opening tick now (opening_time tick now)) (opening_frame tick now) [] (take 17 frames)
          (drop 18 frames) (drill-IsWatching upper e) (opening-IsSendable tick now)
          (ActsOn.modbus 5 refl refl (inl refl)) (encode_frame-opening tick now)
          (subst (All (IsWritable rounding)) split_eq ws) in
      (
        record { file = file; echoed = written_line (length split) out ∷ replay_line out ∷ [] },
        lab_ok split file now out (build_frames-practice tick now ∙ ap ok split_eq) written,
        ap (λ n. written_line n out ∷ replay_line out ∷ [])
            (sym (ap length split_eq) ∙ length-practice tick now),
        seen,
      )
