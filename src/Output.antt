-- ===== src/Output.antt =====
-- pyscan/adapters/output: table.py, csv_sink.py, json_sink.py, network_table.py and network_json.py,
-- as the cells and the members that they hand to rich, csv and json. Rounding and printing of times,
-- and rich's `escape`, are parameters; files, titles, rules and panels are left out.
pub mod Json
use pyscan.Scan.Models.{
  filtered, PortState, PortResult, ScanReport, open_ports, NetworkReport, open_port, closed,
  open_filtered, unknown,
}
use pyscan.Prelude.{
  ℕ, ◌+◌, ◌-◌, Bool, false, Option, none, some, List, [], ◌∷◌, ◌++◌, map, Text, codes, decimal,
  length, take, ltb, ◌==◌, if◌then◌else◌, join,
}
use pyscan.Scan.Hosts.{text_or}
use pyscan.Command.Watch.{or_else}

-- `state.value`
unfoldable pub state_text : PortState → Text
state_text open_port = codes "open"
state_text closed = codes "closed"
state_text filtered = codes "filtered"
state_text open_filtered = codes "open|filtered"
state_text unknown = codes "unknown"

-- `text or ""`
unfoldable pub or_empty : Option Text → Text
or_empty none = []
or_empty (some t) = t

-- What a cell or a member holds.
pub data Value (T : Type 0) : Type 0 where
  null_value : Value T
  number_value : (n : ℕ) → Value T
  text_value : (text : Text) → Value T
  time_value : (time : T) → Value T

abbrev pub Object : Type 0 → Type 0
Object T = List (Text × Value T)

unfoldable pub opt_text : {T : Type 0} → Option Text → Value T
opt_text none = null_value
opt_text (some t) = text_value t

-- How times are rounded and printed: `round(x, 4)`, `round(x, 2)`, `f"{x:.1f}"`, `isoformat()`.
pub record Times (T : Type 0) : Type 0 where
  pub round4 : T → T
  pub round2 : T → T
  pub fixed1 : T → Text
  pub isoformat : T → Text

abbrev pub csv_fields : List Text
csv_fields =
    codes "port"
    ∷ codes "state"
    ∷ codes "service"
    ∷ codes "product"
    ∷ codes "version"
    ∷ codes "latency_ms"
    ∷ codes "banner"
    ∷ []

module _ {T : Type 0} (times : Times T) where
  csv_latency : Option T → Value T
  csv_latency none = text_value []
  csv_latency (some latency) = time_value (times.round2 latency)

  unfoldable pub csv_row : PortResult T → List (Value T)
  unfolding state_text or_empty csv_latency
  csv_row p =
      number_value p.port
      ∷ text_value (state_text p.state)
      ∷ text_value (or_empty p.service)
      ∷ text_value (or_empty p.product)
      ∷ text_value (or_empty p.version)
      ∷ csv_latency p.latency_ms
      ∷ text_value (or_empty p.banner)
      ∷ []

  -- The header and a row for each port.
  unfoldable pub csv_rows : ScanReport T → List (List (Value T))
  unfolding csv_row
  csv_rows report = map text_value csv_fields ∷ map csv_row report.host.ports

  json_latency : Option T → Value T
  json_latency none = null_value
  json_latency (some latency) = time_value (times.round2 latency)

  unfoldable pub json_port : PortResult T → Object T
  unfolding state_text opt_text json_latency
  json_port p =
      (codes "port", number_value p.port)
      ∷ (codes "state", text_value (state_text p.state))
      ∷ (codes "service", opt_text p.service)
      ∷ (codes "product", opt_text p.product)
      ∷ (codes "version", opt_text p.version)
      ∷ (codes "latency_ms", json_latency p.latency_ms)
      ∷ (codes "banner", opt_text p.banner)
      ∷ []

  -- The plain members of the payload, and the list under its last member, `ports`.
  unfoldable pub json_report : ScanReport T → Object T × List (Object T)
  unfolding json_port opt_text
  json_report report = (
    (codes "host", text_value report.host.host)
        ∷ (codes "ip", opt_text report.host.ip)
        ∷ (codes "scan_type", text_value report.scan_type)
        ∷ (codes "started_at", text_value (times.isoformat report.started_at))
        ∷ (codes "duration_s", time_value (times.round4 report.duration_s))
        ∷ [],
    map json_port report.host.ports,
  )

  unfoldable pub network_port : PortResult T → Object T
  unfolding opt_text
  network_port p =
      (codes "port", number_value p.port)
      ∷ (codes "service", opt_text p.service)
      ∷ (codes "product", opt_text p.product)
      ∷ (codes "version", opt_text p.version)
      ∷ (codes "banner", opt_text p.banner)
      ∷ []

  -- A host of the inventory: its plain members, and the list under `open_ports`.
  unfoldable pub network_host : ScanReport T → Object T × List (Object T)
  unfolding network_port opt_text open_ports
  network_host hr = (
    (codes "host", text_value hr.host.host) ∷ (codes "ip", opt_text hr.host.ip) ∷ [],
    map network_port (open_ports hr.host.ports),
  )

  -- The plain members of the payload, and the list under its last member, `hosts`.
  unfoldable pub network_json : NetworkReport T → Object T × List (Object T × List (Object T))
  unfolding network_host
  network_json report = (
    (codes "network", text_value report.network)
        ∷ (codes "total_candidates", number_value report.total_candidates)
        ∷ (codes "up_count", number_value report.up_count)
        ∷ (codes "duration_s", time_value (times.round4 report.duration_s))
        ∷ [],
    map network_host report.hosts,
  )

-- `version_str`
unfoldable pub version_text : Option Text → Option Text → Text
unfolding join
version_text product version = present (parts product (parts version []))
  where
    parts : Option Text → List Text → List Text
    parts none rest = rest
    parts (some []) rest = rest
    parts (some (c ∷ t)) rest = (c ∷ t) ∷ rest

    present : List Text → Text
    present [] = codes "-"
    present (t ∷ rest) = join (codes " ") (t ∷ rest)

unfoldable pub or_dash : (Text → Text) → Option Text → Text
or_dash escape none = codes "-"
or_dash escape (some []) = codes "-"
or_dash escape (some (c ∷ t)) = escape (c ∷ t)

module _ {T : Type 0} (times : Times T) (escape : Text → Text) where
  latency_text : Option T → Text
  latency_text none = codes "-"
  latency_text (some latency) = times.fixed1 latency ++ codes " ms"

  -- A row of `build_port_table`, without the colour of the state.
  unfoldable pub port_row : PortResult T → List Text
  unfolding decimal state_text or_dash version_text latency_text
  port_row r =
      decimal r.port
      ∷ state_text r.state
      ∷ or_dash escape r.service
      ∷ escape (version_text r.product r.version)
      ∷ latency_text r.latency_ms
      ∷ []

  unfoldable pub port_rows : ScanReport T → Bool → List (List Text)
  unfolding port_row open_ports
  port_rows report show_all =
      map port_row (if show_all then report.host.ports else open_ports report.host.ports)

  -- `f"{p.port}/{p.service or '?'}"`
  unfoldable pub service_text : PortResult T → Text
  unfolding decimal
  service_text p = decimal p.port ++ (b'/' ∷ or_question p.service)
    where
      or_question : Option Text → Text
      or_question none = codes "?"
      or_question (some []) = codes "?"
      or_question (some (c ∷ t)) = c ∷ t

  -- The first eight open ports, and how many there are besides.
  unfoldable pub services_text : List (PortResult T) → Text
  unfolding service_text join decimal
  services_text ports =
      let shown = join (codes ", ") (map service_text (take 8 ports)) in
      if ltb 8 (length ports) then shown ++ (codes " +" ++ decimal (length ports - 8)) else shown

  -- A row of the inventory: the address, the number of open ports, the services.
  unfoldable pub inventory_row : ScanReport T → List Text
  unfolding text_or services_text open_ports decimal
  inventory_row host_report =
      let ports = open_ports host_report.host.ports in
      escape (text_or host_report.host.ip host_report.host.host)
      ∷ decimal (length ports)
      ∷ services_cell (services_text ports)
      ∷ []
    where
      services_cell : Text → Text
      services_cell [] = codes "-"
      services_cell (c ∷ t) = escape (c ∷ t)

  -- `NetworkTableSink.emit`: the inventory, and with `detail` the tables of the hosts that have an
  -- open port.
  unfoldable pub inventory_rows : NetworkReport T → List (List Text)
  unfolding inventory_row
  inventory_rows report = map inventory_row report.hosts

  unfoldable pub detail_tables : List (ScanReport T) → List (List (List Text))
  unfolding port_rows open_ports
  detail_tables [] = []
  detail_tables (hr ∷ rest) =
      let others = detail_tables rest in
      if length (open_ports hr.host.ports) == 0 then others else port_rows hr false ∷ others
