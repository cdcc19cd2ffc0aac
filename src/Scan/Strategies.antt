-- ===== src/Scan/Strategies.antt =====
-- pyscan/adapters/strategies: modbus.py, iec104.py and udp.py, as a function of what the network
-- did. Sockets, timeouts and the clock are the outcome that a probe is given.
pub mod Total
pub mod Handshake
pub mod Connect
pub mod Registry
use pyscan.Modbus
use pyscan.Iec104
use pyscan.Scan.Models.{filtered, closed, open_filtered, open_port}
use pyscan.Wire.{Bytes}
use pyscan.Prelude.{
  ℕ, ◌&&◌, Option, none, some, ◌++◌, map, Text, codes, decimal, length, take, ltb, leb,
  if◌then◌else◌, value_error, os_error, Result, ok, err, ◌>>=◌,
}
use pyscan.Scan.Models.{PortState, PortResult}

-- How `open_connection` ends; a connection and a refusal took a time. `unencodable` is UnicodeError,
-- of a name such as "a..b".
pub data Connection (T : Type 0) : Type 0 where
  connected refused : (latency : T) → Connection T
  timed_out unreachable unencodable : Connection T

-- What a read gives or raises; TimeoutError is an OSError.
abbrev pub Reading : Type 0
Reading = Result Bytes

-- What writing and `drain` raise, if anything.
abbrev pub Writing : Type 0
Writing = Result Unit

unfoldable pub probed : {T : Type 0} → ℕ → PortState → Option T → Option Text → PortResult T
probed port state latency banner = record {
  port = port;
  state = state;
  service = none;
  product = none;
  version = none;
  latency_ms = latency;
  banner = banner;
}

-- `banner = describe(parse_response(...))`, or None where the read raised what the clause names.
unfoldable pub banner_of :
    {A : Type 0}
    → (Bytes → Result (Option A))
    → (Option A → Option Text)
    → Reading
    → Result (Option Text)
banner_of parse describe (ok answer) = do info ← parse answer; ok (describe info)
banner_of parse describe (err os_error) = ok none
banner_of parse describe (err e) = err e

module _ {T : Type 0} where
  -- The outline that the TCP strategies share: `banner` runs on an open connection only. No clause
  -- names UnicodeError, which is a ValueError.
  unfoldable pub scan_tcp : Connection T → ℕ → Result (Option Text) → Result (PortResult T)
  unfolding probed
  scan_tcp timed_out port banner = ok (probed port filtered none none)
  scan_tcp (refused latency) port banner = ok (probed port closed (some latency) none)
  scan_tcp unreachable port banner = ok (probed port filtered none none)
  scan_tcp unencodable port banner = err value_error
  scan_tcp (connected latency) port banner = do
    b ← banner
    ok (probed port open_port (some latency) b)

  unfoldable pub scan_modbus : ℕ → Connection T → Reading → ℕ → Result (PortResult T)
  unfolding scan_tcp banner_of
  scan_modbus unit connection reading port = scan_tcp connection port (do
    request ← Modbus.build_device_id_request unit 1
    banner_of (λ answer. Modbus.parse_response answer 1) Modbus.describe reading)

  unfoldable pub scan_iec104 : Connection T → Reading → ℕ → Result (PortResult T)
  unfolding scan_tcp banner_of
  scan_iec104 connection reading port =
      scan_tcp connection port (banner_of Iec104.parse_response Iec104.describe reading)

-- How a UDP probe ends: at the endpoint, or behind the datagram.
pub data Datagram (T : Type 0) : Type 0 where
  no_endpoint no_answer failed_socket : Datagram T
  bounced : (latency : T) → Datagram T
  replied : (latency : T) (answer : Bytes) → Datagram T

unfoldable pub preview_char : ℕ → ℕ
preview_char b = if leb 32 b && ltb b 127 then b else b'.'

unfoldable pub preview : Bytes → Text
unfolding preview_char
preview answer =
    codes "udp reply "
    ++ (decimal (length answer) ++ (codes "B: " ++ map preview_char (take 24 answer)))

unfoldable pub scan_udp : {T : Type 0} → Datagram T → ℕ → PortResult T
unfolding probed preview
scan_udp no_endpoint port = probed port filtered none none
scan_udp no_answer port = probed port open_filtered none none
scan_udp (bounced latency) port = probed port closed (some latency) none
scan_udp failed_socket port = probed port filtered none none
scan_udp (replied latency answer) port =
    probed port open_port (some latency) (some (preview answer))
