-- ===== src/Scan/Hosts.antt =====
-- One host and a network of hosts: `_resolve`, `scan_host` and `run` of
-- pyscan/application/scan_service.py, pyscan/application/sweep_service.py and
-- pyscan/adapters/discovery/tcp_ping.py. The resolver, the probes, `identify` and the clock are
-- parameters; a sink is what it does with a report, in the order of the calls. In what order the
-- hosts of a sweep are probed is left out: the answers of the network are fixed. So is a semaphore
-- without a place, on which every probe waits for ever (Scan/Tasks/Hang).
pub mod Resolve
pub mod Discovery
pub mod Inventory
use pyscan.Scan.Service.Probing.{gather, probe_ports}
use pyscan.Prelude.{
  ℕ, Bool, true, false, ◌||◌, Option, none, some, List, [], ◌∷◌, map, Text, length, if◌then◌else◌,
  ℤ, pos, negsuc, value_error, Result, ok, err, ◌>>=◌, sort_by, text_leb,
}
use pyscan.Scan.Targets.{Family, inet, inet6, expand_targets, Addressing}
use pyscan.Scan.Strategies.{Connection, connected, refused, timed_out, unreachable, unencodable}
use pyscan.Scan.Models.{PortResult, ScanReport, NetworkReport, ScanTarget, tcp_protocol}
use pyscan.Scan.Service.{either_text, ServiceInfo}
use pyscan.Scan.Pacer.{new_pacer, Pacer, Rate}

-- An address of a host, as `getaddrinfo` answers it: of one of the two families of IP.
abbrev pub HostAddress : Type 0
HostAddress = Family × Text

unfoldable pub same_family : Family → Family → Bool
same_family inet inet = true
same_family inet6 inet6 = true
same_family _ _ = false

-- `addresses[family] = text`: in the place of the family, or behind the others.
unfoldable pub set_address : List HostAddress → Family → Text → List HostAddress
unfolding same_family
set_address [] family text = (family, text) ∷ []
set_address ((other, old) ∷ rest) family text =
    let later = set_address rest family text in
    if same_family other family then (family, text) ∷ rest else (other, old) ∷ later

-- The dict that the comprehension builds from these infos, behind those so far.
unfoldable pub set_addresses : List HostAddress → List HostAddress → List HostAddress
unfolding set_address
set_addresses so_far [] = so_far
set_addresses so_far ((family, text) ∷ infos) = set_addresses (set_address so_far family text) infos

unfoldable pub get_address : List HostAddress → Family → Option Text
unfolding same_family
get_address [] family = none
get_address ((other, text) ∷ rest) family =
    let later = get_address rest family in if same_family other family then some text else later

-- `next(iter(addresses.values()), None)`
unfoldable pub first_address : List HostAddress → Option Text
first_address [] = none
first_address ((family, text) ∷ rest) = some text

unfoldable pub wanted_family : Bool → Family
wanted_family prefer_ipv6 = if prefer_ipv6 then inet6 else inet

-- `_resolve`, of the answer of `getaddrinfo`; none is OSError or UnicodeError.
unfoldable pub resolve : Option (List HostAddress) → Bool → Option Text
unfolding set_addresses get_address first_address wanted_family either_text
resolve none prefer_ipv6 = none
resolve (some infos) prefer_ipv6 =
    let addresses = set_addresses [] infos in
    either_text (get_address addresses (wanted_family prefer_ipv6)) (first_address addresses)

-- `ip or host`: an address that is no text, or an empty one, counts as none.
unfoldable pub text_or : Option Text → Text → Text
text_or none fallback = fallback
text_or (some []) fallback = fallback
text_or (some (c ∷ t)) fallback = c ∷ t

-- What a scan of one host is given besides the target: the resolver, the answer to attempt k at a
-- port of an address or what it raises, the fingerprints, the name of the strategy, the clock's
-- readings, and the time at which a pacer starts.
pub record World (T : Type 0) : Type 0 where
  pub getaddrinfo : Text → Option (List HostAddress)
  pub answers : Text → ℕ → ℕ → Result (PortResult T)
  pub identify : Option Text → ℕ → ServiceInfo
  pub strategy_name : Text
  pub started : T
  pub elapsed : T
  pub tick : ℕ

-- `AsyncRateLimiter(max_rate)` where a rate is given that is not zero.
unfoldable pub limiter_of : ℕ → Option Rate → Result (Option Pacer)
unfolding new_pacer
limiter_of tick none = ok none
limiter_of tick (some rate) =
    if rate.is_zero then ok none else do pacer ← new_pacer rate tick; ok (some pacer)

-- `asyncio.Semaphore(value)`: the number of its places.
unfoldable pub semaphore : ℤ → Result ℕ
semaphore (pos n) = ok n
semaphore (negsuc n) = err value_error

module _ {T : Type 0} where
  -- `scan_host`. The semaphore and the limiter, which is the caller's where the rate is none, order
  -- the probes and have no part in the report.
  unfoldable pub scan_host :
      World T → ScanTarget → ℤ → ℤ → Bool → Option Rate → Result (ScanReport T)
  unfolding resolve text_or probe_ports semaphore limiter_of
  scan_host network target concurrency retries prefer_ipv6 max_rate = do
    let ip = resolve (network.getaddrinfo target.host) prefer_ipv6
    sem ← semaphore concurrency
    limiter ← limiter_of network.tick max_rate
    ports ←
        probe_ports network.identify (network.answers (text_or ip target.host)) retries target.ports
    ok (record {
      target = target;
      host = record { host = target.host; ip = ip; ports = ports };
      scan_type = network.strategy_name;
      started_at = network.started;
      duration_s = network.elapsed;
    })

  -- `ScanService.run`: what the sinks do with the report, in their order, and the report.
  unfoldable pub run_scan :
      {E : Type 0}
      → List (ScanReport T → E)
      → World T
      → ScanTarget
      → ℤ
      → ℤ
      → Bool
      → Option Rate
      → Result (List E × ScanReport T)
  unfolding scan_host
  run_scan sinks network target concurrency retries prefer_ipv6 max_rate = do
    report ← scan_host network target concurrency retries prefer_ipv6 max_rate
    ok (map (λ sink. sink report) sinks, report)

-- What a knock at a port tells of its host: an answer of any kind, also a refusal. UnicodeError is
-- in no clause.
unfoldable pub knock : {T : Type 0} → Connection T → Result Bool
knock (connected latency) = ok true
knock (refused latency) = ok true
knock timed_out = ok false
knock unreachable = ok false
knock unencodable = err value_error

abbrev pub default_ping_ports : List ℕ
default_ping_ports = 80 ∷ 443 ∷ 22 ∷ 3389 ∷ []

-- `is_up`: `any(results)` of the gathered knocks.
unfoldable pub is_up : {T : Type 0} → (ℕ → Connection T) → List ℕ → Result Bool
unfolding knock
is_up connections [] = ok false
is_up connections (port ∷ ports) = do
  first ← knock (connections port)
  others ← is_up connections ports
  ok (first || others)

-- `_discover`: the gathered checks, then `[host for host, up in checked if up]`.
unfoldable pub discover : (Text → Result Bool) → List Text → Result (List Text)
discover check [] = ok []
discover check (host ∷ hosts) = do
  up ← check host
  others ← discover check hosts
  ok (if up then host ∷ others else others)

module _ {T : Type 0} where
  -- `sorted(reports, key=lambda r: r.host.ip or r.host.host)`
  abbrev pub by_address : ScanReport T → ScanReport T → Bool
  by_address r s = text_leb (text_or r.host.ip r.host.host) (text_or s.host.ip s.host.host)

  unfoldable pub scan_one : World T → List ℕ → ℤ → Text → Result (ScanReport T)
  unfolding scan_host
  scan_one network ports retries host =
      scan_host network (record { host = host; ports = ports; protocol = tcp_protocol })
        (pos (length ports)) retries false none

  unfoldable pub scan_all : World T → List ℕ → ℤ → List Text → Result (List (ScanReport T))
  unfolding scan_one sort_by gather
  scan_all network ports retries hosts = do
    reports ← gather (scan_one network ports retries) hosts
    ok (sort_by by_address reports)

  -- `SweepService.run` behind `expand_targets` and the limiter, with the default of 64 hosts at once.
  unfoldable pub sweep_report :
      World T
      → (Text → Result Bool)
      → List ℕ
      → ℤ
      → Bool
      → Text
      → List Text
      → Result (NetworkReport T)
  unfolding discover scan_all
  sweep_report network check ports retries discovering spec candidates = do
    up_hosts ← if discovering then discover check candidates else ok candidates
    reports ← scan_all network ports retries up_hosts
    ok (record {
      network = spec;
      hosts = reports;
      total_candidates = length candidates;
      up_count = length up_hosts;
      duration_s = network.elapsed;
    })

  -- `SweepService.run` with the discovery of `TcpPingDiscovery`. The limiter, which both phases
  -- share, paces the probes and has no part in the report.
  unfoldable pub run_sweep :
      {E : Type 0}
      → List (NetworkReport T → E)
      → World T
      → Addressing
      → (Text → ℕ → Connection T)
      → List ℕ
      → ℤ
      → Bool
      → Option Rate
      → Text
      → Result (List E × NetworkReport T)
  unfolding expand_targets limiter_of is_up sweep_report
  run_sweep sinks network addressing connections ports retries discovering max_rate spec = do
    candidates ← expand_targets addressing spec
    limiter ← limiter_of network.tick max_rate
    report ←
        sweep_report network (λ host. is_up (connections host) default_ping_ports) ports retries
          discovering spec candidates
    ok (map (λ sink. sink report) sinks, report)
