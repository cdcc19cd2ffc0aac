-- ===== src/Tests/Scanner.antt =====
-- The theorems on the scanner's pure parts at concrete inputs.
use pyscan.Scan.Models.{filtered, open_port}
use pyscan.Prelude.{
  ℕ, suc, zero, ◌≡◌, refl, ◌↔◌, Option, none, List, [], ◌∷◌, Text, codes, contains_char, is_space,
  lstrip, rstrip, strip, split_on, partition, Any, ◌==◌, if◌then◌else◌, pos, negsuc, is_digit,
  int_digits, signed_int, parse_int, ok,
}
use pyscan.Scan.PortSpec.Sorted.{Checked, IsPortList, parse_port_spec-Checked, Has}
use pyscan.Scan.PortSpec.Members.{Reads, single, span, at_end, Within, parse_port_spec-members}
use pyscan.Scan.PortSpec.{parse_port_spec, to_port, checked_port}
use pyscan.Scan.Service.Results.{IsDecided, bounded-IsDecided}
use pyscan.Scan.Models.{PortState, PortResult}
use pyscan.Scan.Service.{ServiceInfo, bounded}
use pyscan.Scan.Pacer.{Spaced, fire_times, Follows, fire_times-Spaced}
use pyscan.Scan.Services.{service_for}

abbrev spec : Text
spec = codes "443, 20-22,21"

parse_port_spec-Checked_example : Checked IsPortList (parse_port_spec spec)
parse_port_spec-Checked_example = parse_port_spec-Checked spec

spec-Reads : Reads (split_on b',' spec) ((443, 443) ∷ (20, 22) ∷ (21, 21) ∷ [])
unfolding to_port checked_port parse_int signed_int int_digits is_digit strip lstrip rstrip is_space
    split_on partition contains_char
spec-Reads = single refl refl refl (span refl refl refl refl (single refl refl refl at_end))

parse_port_spec-members_example :
    (ports : List ℕ) × (parse_port_spec spec ≡ ok ports)
    × ((x : ℕ) → Has x ports ↔ Any (Within x) ((443, 443) ∷ (20, 22) ∷ (21, 21) ∷ []))
parse_port_spec-members_example =
    parse_port_spec-members spec 443 443 ((20, 22) ∷ (21, 21) ∷ []) spec-Reads

fire_times-Spaced_example :
    Spaced 10 5 (fire_times (record { interval = 10; next = 5 }) (0 ∷ 1 ∷ 40 ∷ []))
    × Follows (0 ∷ 1 ∷ 40 ∷ []) (fire_times (record { interval = 10; next = 5 }) (0 ∷ 1 ∷ 40 ∷ []))
fire_times-Spaced_example = fire_times-Spaced (record { interval = 10; next = 5 }) (0 ∷ 1 ∷ 40 ∷ [])

abbrev pub found : ℕ → PortState → PortResult ℕ
found port state = record {
  port = port;
  state = state;
  service = none;
  product = none;
  version = none;
  latency_ms = none;
  banner = none;
}

-- Port 80 answers at the second attempt, every other port never.
abbrev pub network : ℕ → ℕ → PortResult ℕ
network port zero = found port filtered
network port (suc k) = if port == 80 then found port open_port else found port filtered

bounded-IsDecided_example :
    IsDecided
      (network 80)
      0
      (elim (pos 3) [ pos n ↦ n | negsuc n ↦ 0 ])
      (bounded (network 80) (pos 3))
bounded-IsDecided_example = bounded-IsDecided (network 80) (pos 3)

abbrev pub no_match : Option Text → ℕ → ServiceInfo
no_match banner port = record { service = service_for port; product = none; version = none }
