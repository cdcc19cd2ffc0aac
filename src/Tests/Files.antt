-- ===== src/Tests/Files.antt =====
-- The theorems on capture files, device-id answers and probes at concrete inputs.
use mathlib.Core.Path.{subst}
use pyscan.Wire.{Bytes}
use pyscan.Prelude.{
  ℕ, ◌+◌, ◌*◌, ◌/◌, ◌%◌, ◌≤◌, ◌≡◌, refl, ◌⊎◌, Bool, true, false, Option, none, some, List, [], ◌∷◌,
  arith, Text, codes, text_eq, length, Table, if◌then◌else◌, pos, value_error, ok, err,
}
use pyscan.Scan.Strategies.{connected, scan_modbus}
use pyscan.Modbus.{parse_response, plain_info}
use pyscan.Capture.Total.{Ends, read_pcap-Ends}
use pyscan.Modbus.DeviceId.{device_id_answer, last_value, parse_response-device_id_answer}
use pyscan.Scan.Targets.{expand_targets, Addressing, Network, expand_targets-bounded}
use pyscan.Capture.Writer.{split_time, write_pcap, Rounding, carry}
use pyscan.Capture.{Clock, yield_all, finished}
use pyscan.Capture.Pcapng.{read_pcap}
use pyscan.Scan.Strategies.Total.{scan_modbus-IsReport, Reports}
use pyscan.Capture.RoundTrip.{IsWritable, reread, read_pcap-write_pcap}

-- Timestamps as numbers of microseconds.
abbrev pub micro_clock : Clock ℕ
micro_clock = record {
  quotient = λ n d. n * 1_000_000 / d;
  plus = λ n t. n * 1_000_000 + t;
  zero_time = 0;
}

abbrev pub micro_rounding : Rounding ℕ
micro_rounding = record { whole = λ t. pos (t / 1_000_000); micros = λ t s. pos (t % 1_000_000) }

abbrev two_frames : List (ℕ × Bytes)
two_frames = (1_500_000, 1 ∷ 2 ∷ 3 ∷ []) ∷ (2_000_001, []) ∷ []

pub first-IsWritable : IsWritable micro_rounding (1_500_000, 1 ∷ 2 ∷ 3 ∷ [])
unfolding split_time carry
first-IsWritable = record {
  seconds = 1;
  micros = 500_000;
  split = refl;
  seconds_word = omega arith;
  micros_word = omega arith;
  fits = omega arith;
}

second-IsWritable : IsWritable micro_rounding (2_000_001, [])
unfolding split_time carry
second-IsWritable = record {
  seconds = 2;
  micros = 1;
  split = refl;
  seconds_word = omega arith;
  micros_word = omega arith;
  fits = omega arith;
}

read_pcap-write_pcap_example :
    (file : Bytes) × (write_pcap micro_rounding two_frames 1 ≡ ok (file, 2))
    × (read_pcap micro_clock file
        ≡ yield_all
            (reread micro_rounding micro_clock 1 two_frames
              (first-IsWritable, (second-IsWritable, tt)))
            finished)
read_pcap-write_pcap_example =
    read_pcap-write_pcap micro_rounding micro_clock 1 two_frames
      (first-IsWritable, (second-IsWritable, tt)) (omega arith)

-- A section header that is cut short.
abbrev cut_file : Bytes
cut_file = 0x0A ∷ 0x0D ∷ 0x0D ∷ 0x0A ∷ 28 ∷ 0 ∷ 0 ∷ 0 ∷ 0x4D ∷ 0x3C ∷ 0x2B ∷ 0x1A ∷ 1 ∷ []

read_pcap-Ends_example : Ends (read_pcap micro_clock cut_file)
read_pcap-Ends_example = read_pcap-Ends micro_clock cut_file

abbrev objects : Table Text
objects = (0, codes "Acme") ∷ (1, codes "P-9") ∷ (0, codes "Apex") ∷ []

parse_response-device_id_answer_example :
    parse_response (device_id_answer 7 1 0x81 objects (0xFF ∷ [])) 1
    ≡ ok (
        some (record plain_info {
          vendor = last_value 0x00 objects;
          product = last_value 0x01 objects;
          version = last_value 0x02 objects;
        }))
parse_response-device_id_answer_example =
    parse_response-device_id_answer 7 1 1 0x81 objects (0xFF ∷ [])

scan_modbus-IsReport_example :
    Reports {T = ℕ} (connected 12) 502 (scan_modbus 1 (connected 12) (ok (1 ∷ 2 ∷ [])) 502)
scan_modbus-IsReport_example =
    scan_modbus-IsReport 1 (connected 12) (ok (1 ∷ 2 ∷ [])) 502 (omega arith) tt

abbrev small : Network
small = record {
  network_address = codes "10.0.0.0";
  num_addresses = 4;
  hosts = codes "10.0.0.1" ∷ codes "10.0.0.2" ∷ [];
}

-- Addressing that knows one network and no other text.
abbrev one_network : Addressing
one_network = record {
  ip_network = λ t. if text_eq t (codes "10.0.0.0/30") then some small else none;
  ip_version = λ t. some 4;
}

abbrev FitsIn : Option Network → Type 0
FitsIn none = Unit
FitsIn (some net) = length net.hosts ≤ net.num_addresses

small-FitsIn : (known : Bool) → FitsIn (if known then some small else none)
small-FitsIn true = omega arith
small-FitsIn false = tt

enumerates :
    (spec : Text) (net : Network)
    → one_network.ip_network spec ≡ some net
    → length net.hosts ≤ net.num_addresses
enumerates spec net e = subst FitsIn e (small-FitsIn (text_eq spec (codes "10.0.0.0/30")))

expand_targets-bounded_example :
    (expand_targets one_network (codes " 10.0.0.0/30") ≡ err value_error)
    ⊎ ((targets : List Text) × (expand_targets one_network (codes " 10.0.0.0/30") ≡ ok targets)
        × (length targets ≤ 65538))
expand_targets-bounded_example =
    expand_targets-bounded one_network (codes " 10.0.0.0/30") enumerates
