-- ===== src/Output/Json.antt =====
-- What a reader of the machine-readable outputs gets back.
use mathlib.Core.Path.{ap₂}
use pyscan.Scan.Models.{
  filtered, PortState, open_port, unknown, PortResult, closed, open_filtered, open_ports, is_open,
  ScanReport, NetworkReport,
}
use pyscan.Prelude.{
  ℕ, ◌≡◌, refl, ap, Option, none, some, List, [], ◌∷◌, map, Text, codes, text_eq, if◌then◌else◌,
}
use pyscan.Output.{
  Times, Value, state_text, Object, opt_text, null_value, text_value, number_value, time_value,
  unknown, PortResult, json_latency, json_port, network_port, closed, open_filtered, open_ports,
  network_host, json_report, ScanReport, network_json, NetworkReport,
}

-- The member of that name, or null.
abbrev pub member : {T : Type 0} → Text → Object T → Value T
member name [] = null_value
member name ((other, value) ∷ rest) = if text_eq name other then value else member name rest

abbrev pub read_text : {T : Type 0} → Value T → Option Text
read_text (text_value t) = some t
read_text _ = none

abbrev pub read_number : {T : Type 0} → Value T → ℕ
read_number (number_value n) = n
read_number _ = 0

abbrev pub read_time : {T : Type 0} → Value T → Option T
read_time (time_value t) = some t
read_time _ = none

abbrev pub read_state : Option Text → PortState
read_state none = unknown
read_state (some t) =
    if text_eq t (codes "open")
    then open_port
    else if text_eq t (codes "closed")
    then closed
    else if text_eq t (codes "filtered")
    then filtered
    else if text_eq t (codes "open|filtered")
    then open_filtered
    else unknown

-- A port of the JSON report, read by the names of its members.
abbrev pub read_port : {T : Type 0} → Object T → PortResult T
read_port o = record {
  port = read_number (member (codes "port") o);
  state = read_state (read_text (member (codes "state") o));
  service = read_text (member (codes "service") o);
  product = read_text (member (codes "product") o);
  version = read_text (member (codes "version") o);
  latency_ms = read_time (member (codes "latency_ms") o);
  banner = read_text (member (codes "banner") o);
}

-- A port of the inventory, which has neither a state nor a latency.
abbrev pub read_open_port : {T : Type 0} → Object T → PortResult T
read_open_port o = record {
  port = read_number (member (codes "port") o);
  state = open_port;
  service = read_text (member (codes "service") o);
  product = read_text (member (codes "product") o);
  version = read_text (member (codes "version") o);
  latency_ms = none;
  banner = read_text (member (codes "banner") o);
}

abbrev pub rounded_time : {T : Type 0} → (T → T) → Option T → Option T
rounded_time round none = none
rounded_time round (some t) = some (round t)

abbrev pub without_latency : {T : Type 0} → PortResult T → PortResult T
without_latency p = record p { latency_ms = none }

abbrev pub with_rounded : {T : Type 0} → Times T → PortResult T → PortResult T
with_rounded times p = record p { latency_ms = rounded_time times.round2 p.latency_ms }

-- The open ports of a host, as the inventory has them.
abbrev pub open_ports_of : {T : Type 0} → ScanReport T → List (PortResult T)
open_ports_of hr = map without_latency (open_ports hr.host.ports)

read_text-opt_text : (T : Type 0) (t : Option Text) → read_text (opt_text {T = T} t) ≡ t
unfolding opt_text
read_text-opt_text T none = refl
read_text-opt_text T (some t) = refl

read_state-state_text : (s : PortState) → read_state (some (state_text s)) ≡ s
unfolding state_text text_eq
read_state-state_text open_port = refl
read_state-state_text closed = refl
read_state-state_text filtered = refl
read_state-state_text open_filtered = refl
read_state-state_text unknown = refl

module _ {T : Type 0} (times : Times T) where
  read_time-json_latency :
      (latency : Option T)
      → read_time (json_latency times latency) ≡ rounded_time times.round2 latency
  unfolding json_latency
  read_time-json_latency none = refl
  read_time-json_latency (some latency) = refl

  read_port-json_port :
      (p : PortResult T)
      → read_port (json_port times p)
        ≡ record p { latency_ms = rounded_time times.round2 p.latency_ms }
  unfolding json_port text_eq
  read_port-json_port p = rw (read_state-state_text p.state) (
      rw (read_text-opt_text T p.service) (
        rw (read_text-opt_text T p.product) (
          rw (read_text-opt_text T p.version)
            (rw (read_text-opt_text T p.banner) (rw (read_time-json_latency p.latency_ms) refl)))))

  read_open_port-network_port :
      (p : PortResult T)
      → p.state ≡ open_port
      → read_open_port (network_port times p) ≡ record p { latency_ms = none }
  unfolding network_port text_eq
  read_open_port-network_port p h = rw (read_text-opt_text T p.service) (
      rw (read_text-opt_text T p.product)
        (rw (read_text-opt_text T p.version) (rw (read_text-opt_text T p.banner) (rw h refl))))

  map_ports :
      (f : PortResult T → Object T) (read : Object T → PortResult T)
      (kept : PortResult T → PortResult T) (ports : List (PortResult T))
      → ((p : PortResult T) → read (f p) ≡ kept p)
      → map read (map f ports) ≡ map kept ports
  map_ports f read kept [] h = refl
  map_ports f read kept (p ∷ ports) h = ap₂ ◌∷◌ (h p) (map_ports f read kept ports h)

  abbrev Reads : List (PortResult T) → Type 0
  Reads ports =
      map read_open_port (map (network_port times) (open_ports ports))
      ≡ map without_latency (open_ports ports)

  is_open_congr : (p : PortResult T) (s : PortState) → p.state ≡ s → is_open p.state ≡ is_open s
  is_open_congr p s h = ap is_open h

  map_open_ports_cons :
      (p : PortResult T) (ports : List (PortResult T)) (s : PortState)
      → p.state ≡ s
      → Reads ports
      → Reads (p ∷ ports)
  unfolding open_ports is_open
  map_open_ports_cons p ports open_port h rest =
      rw (is_open_congr p open_port h) (ap₂ ◌∷◌ (read_open_port-network_port p h) rest)
  map_open_ports_cons p ports closed h rest = rw (is_open_congr p closed h) rest
  map_open_ports_cons p ports filtered h rest = rw (is_open_congr p filtered h) rest
  map_open_ports_cons p ports open_filtered h rest = rw (is_open_congr p open_filtered h) rest
  map_open_ports_cons p ports unknown h rest = rw (is_open_congr p unknown h) rest

  map_open_ports : (ports : List (PortResult T)) → Reads ports
  unfolding open_ports
  map_open_ports [] = refl
  map_open_ports (p ∷ ports) = map_open_ports_cons p ports p.state refl (map_open_ports ports)

  map_hosts :
      (hosts : List (ScanReport T))
      → map (λ h. map read_open_port h.1) (map (network_host times) hosts) ≡ map open_ports_of hosts
  unfolding network_host
  map_hosts [] = refl
  map_hosts (hr ∷ hosts) = ap₂ ◌∷◌ (map_open_ports hr.host.ports) (map_hosts hosts)

  -- Read back by the names of its members, the JSON of a scan gives every port with every field, in
  -- the order of the report, where only the latency is rounded; the JSON of a sweep gives for each
  -- host, in the order of the report, its open ports and no others, with every field but the latency.
  pub read_json :
      (report : ScanReport T) (inventory : NetworkReport T)
      → (map read_port (json_report times report).1 ≡ map (with_rounded times) report.host.ports)
        × (map (λ h. map read_open_port h.1) (network_json times inventory).1
            ≡ map open_ports_of inventory.hosts)
  unfolding json_report network_json
  read_json report inventory = (
    map_ports (json_port times) read_port _ report.host.ports read_port-json_port,
    map_hosts inventory.hosts,
  )
