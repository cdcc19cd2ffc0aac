-- ===== src/Tests/Watch.antt =====
-- The theorems on the monitor at a concrete source of frames.
use pyscan.Monitor.Attack.{run-encode_frame}
use pyscan.Wire.{Bytes}
use pyscan.Prelude.{
  ℕ, ◌≡◌, refl, inl, true, none, some, List, [], ◌∷◌, ◌++◌, arith, codes, text_eq, decimal, Any,
  lookup, ok,
}
use pyscan.Traffic.{hmi, Exchange, encode_frame}
use pyscan.Traffic.{plc, attacker}
use pyscan.Traffic.Address.{Address}
use pyscan.Detect.State.{
  Baseline, fresh, protected, Detector, Alert, unauthorised, known, medium, contains, critical,
}
use pyscan.Traffic.Layout.{IsSendable}
use pyscan.Monitor.{run}
use pyscan.Monitor.Run.{IsRun, run-IsRun}
use pyscan.Modbus.Tables.{classify_function}
use pyscan.Detect.Attack.{IsCritical, ActsOn}
use pyscan.Monitor.Attack.{run-encode_frame}

abbrev station : Address
station = record {
  a = 10;
  b = 10;
  c = 30;
  d = 142;
  a_byte = omega arith;
  b_byte = omega arith;
  c_byte = omega arith;
  d_byte = omega arith;
}

abbrev device : Address
device = record {
  a = 10;
  b = 10;
  c = 30;
  d = 21;
  a_byte = omega arith;
  b_byte = omega arith;
  c_byte = omega arith;
  d_byte = omega arith;
}

abbrev site : Baseline
site = record { hmi = hmi ∷ []; plcs = plc ∷ [] }

-- Coil 1 of the feeder controller is written by a station of no business there.
abbrev pub coil_write : Exchange ℕ
coil_write = record {
  ts = 9;
  src = attacker;
  dst = plc;
  sport = 40000;
  dport = 502;
  payload = 0 ∷ 1 ∷ 0 ∷ 0 ∷ 0 ∷ 6 ∷ 1 ∷ 5 ∷ 0 ∷ 1 ∷ 0 ∷ 0 ∷ [];
  flags = codes "PA";
}

pub coil_write-IsSendable : IsSendable coil_write
unfolding decimal
coil_write-IsSendable = record {
  from = station;
  to = device;
  src = refl;
  dst = refl;
  sport = omega arith;
  dport = omega arith;
  fits = omega arith;
}

run-encode_frame_example :
    (frame : Bytes) × (encode_frame coil_write ≡ ok frame)
    × ((r : Detector × List (Alert ℕ)) × (run
            (λ _. [])
            critical
            (fresh site)
            ((none ∷ []) ++ (some (9, 1, frame ++ (0 ∷ [])) ∷ (none ∷ [])))
          ≡ ok r)
        × Any (IsCritical {T = ℕ}) r.1
        × (contains attacker r.0.hostile_sources ≡ true))
unfolding fresh protected unauthorised known contains text_eq classify_function lookup
run-encode_frame_example =
    run-encode_frame (λ _. []) critical site attacker (fresh site) coil_write (none ∷ [])
      (none ∷ []) (0 ∷ []) refl coil_write-IsSendable refl refl refl
      (ActsOn.modbus 5 refl refl (inl refl))

run-IsRun_example :
    (r : Detector × List (Alert ℕ)) × (run
        (λ _. [])
        medium
        (fresh site)
        (none ∷ (some (3, 1, 1 ∷ 2 ∷ []) ∷ []))
      ≡ ok r)
    × IsRun medium site (fresh site) r.0 r.1
unfolding fresh
run-IsRun_example =
    run-IsRun (λ _. []) medium site (fresh site) (none ∷ (some (3, 1, 1 ∷ 2 ∷ []) ∷ [])) refl
