-- ===== src/Tests/Outputs.antt =====
-- The theorems on the outputs at a concrete report.
use pyscan.Tests.Scanner.{found}
use pyscan.Scan.Models.{filtered, ScanReport, NetworkReport, tcp_protocol, open_port}
use pyscan.Prelude.{ℕ, ◌/◌, ◌≡◌, some, [], ◌∷◌, map, codes}
use pyscan.Output.{Times, json_report, network_json}
use pyscan.Output.Json.{read_port, with_rounded, read_open_port, open_ports_of, read_json}

abbrev coarse : Times ℕ
coarse = record { round4 = λ t. t; round2 = λ t. t / 10; fixed1 = λ t. []; isoformat = λ t. [] }

abbrev report : ScanReport ℕ
report = record {
  target = record { host = codes "rtu"; ports = 502 ∷ 503 ∷ []; protocol = tcp_protocol };
  host = record {
    host = codes "rtu";
    ip = some (codes "10.0.0.9");
    ports =
        record (found 502 open_port) { banner = some (codes "Modbus/TCP"); latency_ms = some 123 }
        ∷ found 503 filtered
        ∷ [];
  };
  scan_type = codes "modbus";
  started_at = 0;
  duration_s = 4;
}

abbrev inventory : NetworkReport ℕ
inventory = record {
  network = codes "lab";
  hosts = report ∷ [];
  total_candidates = 2;
  up_count = 1;
  duration_s = 9;
}

read_json_example :
    (map read_port (json_report coarse report).1 ≡ map (with_rounded coarse) report.host.ports)
    × (map (λ h. map read_open_port h.1) (network_json coarse inventory).1
        ≡ map open_ports_of inventory.hosts)
read_json_example = read_json coarse report inventory
