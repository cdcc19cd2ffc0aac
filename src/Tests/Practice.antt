-- ===== src/Tests/Practice.antt =====
-- The practice capture at concrete times.
use pyscan.Wire.{Bytes, to_bytes, u16_bytes, u32_bytes, pack_u8, pack_u16, pack_u32}
use pyscan.Prelude.{
  ℕ, ◌+◌, ◌*◌, ◌<◌, ◌≤◌, ◌≡◌, refl, inl, inr, Bool, true, ◌&&◌, List, [], ◌∷◌, arith, codes,
  text_eq, length, All, Any, ltb, leb, Bool-cases,
}
use pyscan.Command.Lab.{lab, Lab, written_line, replay_line}
use pyscan.Tests.Files.{micro_rounding, micro_clock}
use pyscan.Capture.Writer.{split_time, carry}
use pyscan.Traffic.{build_frames, encode_frame, flag_bits, attacker}
use pyscan.Capture.RoundTrip.{IsWritable}
use pyscan.Command.{goes}
use pyscan.Traffic.Checksum.{checksum}
use pyscan.Command.Watch.{Watched, monitor_file}
use pyscan.Traffic.Payloads.{
  modbus_read_holding, modbus_read_device_id, modbus_write_register, modbus_write_coil, iec_u_frame,
  iec_i_frame,
}
use pyscan.Tests.Commands.{plain, plain-Prints}
use pyscan.Command.Lab.Drill.{drill_arguments, practice, lab-monitor_file}
use pyscan.Command.Watch.Evidence.{IsCriticalEntry}
use pyscan.Detect.State.{contains}

-- A time in the first second, and a frame of a length that the reader accepts.
abbrev is_early : List (ℕ × Bytes) → Bool
is_early [] = true
is_early ((ts, frame) ∷ rest) = (ltb ts 1_000_000 && leb (length frame) 67_108_864) && is_early rest

early-IsWritable :
    (ts : ℕ) (frame : Bytes)
    → ltb ts 1_000_000 && leb (length frame) 67_108_864 ≡ true
    → IsWritable micro_rounding (ts, frame)
unfolding split_time carry
early-IsWritable ts frame h =
    let early : ts < 1_000_000 = ground arith in
    let short : length frame ≤ 67_108_864 = ground arith in
    record {
      seconds = 0;
      micros = ts;
      split = ground arith;
      seconds_word = omega arith;
      micros_word = omega arith;
      fits = short;
    }

is_early-IsWritable :
    (frames : List (ℕ × Bytes)) → is_early frames ≡ true → All (IsWritable micro_rounding) frames
is_early-IsWritable [] h = tt
is_early-IsWritable ((ts, frame) ∷ rest) h =
    elim (Bool-cases (ltb ts 1_000_000 && leb (length frame) 67_108_864)) [
      | inl e ↦ (early-IsWritable ts frame e, is_early-IsWritable rest (ground arith))
      | inr e ↦ ground arith
    ]

abbrev later : ℕ → ℕ → ℕ
later t n = t + n * 10

practice-is_early : is_early (practice later 700) ≡ true
unfolding build_frames encode_frame pack_u16 pack_u32 pack_u8 flag_bits text_eq to_bytes u16_bytes
    u32_bytes checksum modbus_read_holding modbus_read_device_id modbus_write_register
    modbus_write_coil iec_u_frame iec_i_frame
practice-is_early = refl

lab-monitor_file_example :
    (made : Lab) × (lab later micro_rounding 700 (codes "drill.pcap") ≡ goes made)
    × (made.echoed ≡ written_line 22 (codes "drill.pcap") ∷ replay_line (codes "drill.pcap") ∷ [])
    × ((outcome : Watched ℕ) × (monitor_file
            (λ _. [])
            micro_clock
            plain
            (λ t. t)
            drill_arguments
            made.file
          ≡ goes outcome)
        × Any IsCriticalEntry outcome.timeline
        × (contains attacker outcome.detector.hostile_sources ≡ true))
lab-monitor_file_example =
    lab-monitor_file later micro_rounding micro_clock plain (λ _. []) (λ t. t) (codes "drill.pcap")
      700 (λ s m _ _. plain-Prints _) refl
      (is_early-IsWritable (practice later 700) practice-is_early)
