-- ===== src/Scan/Strategies/Total.antt =====
-- The identification strategies, whatever the network does.
use pyscan.Scan.Strategies.{
  Connection, connected, refused, timed_out, unreachable, probed, unencodable,
}
use pyscan.Wire.Laws.{pack_u8_ok}
use pyscan.Wire.{pack_u16}
use pyscan.Prelude.{
  ℕ, ◌<◌, ◌≡◌, refl, ◌⊎◌, inl, inr, Bool, true, false, Option, none, some, Text, value_error,
  os_error, Result, ok, err, Returns, Returns-bind,
}
use pyscan.Modbus
use pyscan.Modbus.DeviceId.{parse_response-Returns}
use pyscan.Scan.Strategies.{banner_of, Connection, scan_tcp, scan_modbus, Reading}
use pyscan.Scan.Models.{PortResult, is_open, open_port}

abbrev pub is_connected : {T : Type 0} → Connection T → Bool
is_connected (connected latency) = true
is_connected _ = false

-- The result names the port that was probed, is OPEN exactly where a connection was made, and has
-- a banner only then.
pub record IsReport {T : Type 0} (connection : Connection T) (port : ℕ) (result : PortResult T)
    : Type 0 where
  pub names : result.port ≡ port
  pub opens : is_open result.state ≡ is_connected connection
  pub quiet : is_connected connection ≡ false → result.banner ≡ none

-- What is raised is OSError, of which TimeoutError is one.
abbrev pub RaisesOs {ℓ} : {A : Type ℓ} → Result A → Type 0
RaisesOs (ok a) = Unit
RaisesOs (err e) = e ≡ os_error

-- The probe raises ValueError, and this only for a host name that cannot be encoded, or returns a
-- report.
abbrev pub Reports : {T : Type 0} → Connection T → ℕ → Result (PortResult T) → Type 0
Reports {T} connection port outcome =
    ((connection ≡ unencodable) × (outcome ≡ err value_error))
    ⊎ ((result : PortResult T) × (outcome ≡ ok result) × IsReport connection port result)

pub scan_tcp-IsReport :
    {T : Type 0} (connection : Connection T) (port : ℕ) (banner : Result (Option Text))
    → Returns banner
    → Reports connection port (scan_tcp connection port banner)
unfolding scan_tcp is_open
scan_tcp-IsReport timed_out port banner h =
    inr (_, refl, record { names = refl; opens = refl; quiet = λ _. refl })
scan_tcp-IsReport (refused latency) port banner h =
    inr (_, refl, record { names = refl; opens = refl; quiet = λ _. refl })
scan_tcp-IsReport unreachable port banner h =
    inr (_, refl, record { names = refl; opens = refl; quiet = λ _. refl })
scan_tcp-IsReport unencodable port banner h = inl (refl, refl)
scan_tcp-IsReport (connected latency) port banner (b, e) = inr (
  probed port open_port (some latency) b,
  rw e refl,
  record { names = refl; opens = refl; quiet = λ c. cc },
)

request-Returns : (unit : ℕ) → unit < 256 → Returns (Modbus.build_device_id_request unit 1)
unfolding Modbus.build_device_id_request Modbus.mbap_header pack_u16
request-Returns unit h = rw (pack_u8_ok unit h) (_, refl)

banner-Returns :
    (reading : Reading)
    → RaisesOs reading
    → Returns (banner_of (λ answer. Modbus.parse_response answer 1) Modbus.describe reading)
unfolding banner_of
banner-Returns (ok answer) h =
    Returns-bind (Modbus.parse_response answer 1) _ (parse_response-Returns answer 1)
      λ info. (_, refl)
banner-Returns (err e) h = rw h (none, refl)

-- A Modbus probe with a unit id of one byte, whatever the connection does and whatever bytes answer
-- the request: where its read raises nothing but TimeoutError and OSError, it returns a report, or
-- it raises ValueError, and this only for a host name that cannot be encoded.
pub scan_modbus-IsReport :
    {T : Type 0} (unit : ℕ) (connection : Connection T) (reading : Reading) (port : ℕ)
    → unit < 256
    → RaisesOs reading
    → Reports connection port (scan_modbus unit connection reading port)
unfolding scan_modbus
scan_modbus-IsReport unit connection reading port h reads = scan_tcp-IsReport connection port _ (
    Returns-bind (Modbus.build_device_id_request unit 1) _ (request-Returns unit h)
      λ request. banner-Returns reading reads)
