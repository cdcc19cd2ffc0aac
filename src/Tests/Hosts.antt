-- ===== src/Tests/Hosts.antt =====
-- The theorems on hosts, sweeps and strategies at concrete answers of the network.
use pyscan.Wire.{Bytes}
use pyscan.Tests.Scanner.{network, no_match}
use pyscan.Prelude.{
  ℕ, ◌≡◌, refl, ◌⊎◌, true, false, not, none, some, List, [], ◌∷◌, arith, Text, codes, text_eq,
  if◌then◌else◌, pos, value_error, os_error, Result, ok, err,
}
use pyscan.Scan.Hosts.{wanted_family, World, HostAddress, same_family, resolve, run_sweep}
use pyscan.Scan.Strategies.{Connection, refused, connected, timed_out, unencodable}
use pyscan.Scan.Hosts.Inventory.{Sweeps, IsInventory, Fault, run_sweep-IsInventory, candidates_of}
use pyscan.Scan.Strategies.Handshake.{scan_s7comm}
use pyscan.Scan.Targets.{Addressing, inet6, inet}
use pyscan.Scan.Models.{PortResult, NetworkReport}
use pyscan.Scan.Strategies.Connect.{ConnectOptions, scan_connect}
use pyscan.Scan.Strategies.Handshake.Errors.{scan_s7comm_short, scan_s7comm-IsReport}
use pyscan.Scan.Strategies.Total.{IsReport, is_connected, Reports}
use pyscan.Scan.Hosts.Resolve.{preferred, latest, resolve_lem}
use pyscan.Scan.Strategies.Connect.Banner.{IsLine, scan_connect-IsReport}
use pyscan.Scan.Strategies.Handshake.Read.{HasShortHeader}
use pyscan.Scan.Pacer.{Rate}

abbrev infos : List HostAddress
infos = (inet6, codes "::1") ∷ (inet, codes "10.0.0.1") ∷ (inet, codes "10.0.0.2") ∷ []

resolve_lem_example :
    resolve (some infos) false
    ≡ preferred (latest infos (wanted_family false)) (latest infos (wanted_family (not false)))
unfolding wanted_family same_family
resolve_lem_example = resolve_lem infos false (λ e. cc)

-- Two hosts by name, of which one refuses every connection and the other is silent.
abbrev world : World ℕ
world = record {
  getaddrinfo = λ host. some ((inet, host) ∷ []);
  answers = λ address port k. ok (network port k);
  identify = no_match;
  strategy_name = codes "tcp-connect";
  started = 0;
  elapsed = 7;
  tick = 0;
}

abbrev two_hosts : Addressing
two_hosts = record {
  ip_network = λ spec.
      some
        (record { network_address = spec; num_addresses = 4; hosts = codes "b" ∷ codes "a" ∷ [] });
  ip_version = λ host. some 4;
}

abbrev knocks : Text → ℕ → Connection ℕ
knocks host port = if text_eq host (codes "a") then refused 3 else timed_out

abbrev five : Rate
five = record { is_zero = false; at_most_zero = false; interval = 200 }

run_sweep-IsInventory_example :
    Sweeps
      (◌∷◌ (λ (report : NetworkReport ℕ). report.up_count) [])
      (IsInventory world knocks (22 ∷ []) (pos 0))
      (Fault world knocks (22 ∷ []) (pos 0))
      (candidates_of world two_hosts (some five) (codes "lab"))
      (run_sweep
        (◌∷◌ (λ (report : NetworkReport ℕ). report.up_count) [])
        world
        two_hosts
        knocks
        (22 ∷ [])
        (pos 0)
        true
        (some five)
        (codes "lab"))
run_sweep-IsInventory_example =
    run_sweep-IsInventory (◌∷◌ (λ (report : NetworkReport ℕ). report.up_count) []) world two_hosts
      knocks (22 ∷ []) (pos 0) (some five) (codes "lab")

scan_s7comm-IsReport_example :
    Reports
      (connected 5)
      102
      (scan_s7comm {T = ℕ} 0 2 (connected 5) (0x03 ∷ 0 ∷ 0 ∷ 5 ∷ 1 ∷ []) 102)
    ⊎ ((scan_s7comm {T = ℕ} 0 2 (connected 5) (0x03 ∷ 0 ∷ 0 ∷ 5 ∷ 1 ∷ []) 102 ≡ err value_error)
        × (is_connected {T = ℕ} (connected 5) ≡ true)
        × HasShortHeader (0x03 ∷ 0 ∷ 0 ∷ 5 ∷ 1 ∷ []))
scan_s7comm-IsReport_example =
    scan_s7comm-IsReport {T = ℕ} 0 2 (connected 5) (0x03 ∷ 0 ∷ 0 ∷ 5 ∷ 1 ∷ []) 102

scan_s7comm_short_example :
    scan_s7comm {T = ℕ} 0 2 (connected 5) (0x03 ∷ 0 ∷ 0 ∷ 2 ∷ 9 ∷ []) 102 ≡ err value_error
scan_s7comm_short_example = scan_s7comm_short {T = ℕ} 0 2 5 0 2 (9 ∷ []) 102 (omega arith)

abbrev both : ConnectOptions
both = record { grab_banner = true; http_probe = true }

abbrev page : Result Bytes
page = ok (codes "HTTP/1.0\r\n\r\nok")

abbrev opened : Connection ℕ
opened = connected 5

scan_connect-IsReport_example :
    ((opened ≡ unencodable)
      × (scan_connect both opened (err os_error) (ok tt) page 80 ≡ err value_error))
    ⊎ ((result : PortResult ℕ) × (scan_connect both opened (err os_error) (ok tt) page 80
          ≡ ok result)
        × IsReport opened 80 result
        × IsLine result.banner
        × (true ≡ false → result.banner ≡ none))
scan_connect-IsReport_example =
    scan_connect-IsReport both opened (err os_error) (ok tt) page 80 refl tt tt
