-- ===== src/Scan/Models.antt =====
-- pyscan/domain/models.py: what a probe finds, and pyscan/domain/syn.py: how a reply is read.
use pyscan.Prelude.{
  ℕ, Bool, true, false, ◌&&◌, Option, none, some, List, [], ◌∷◌, Text, if◌then◌else◌, has_bit,
}

pub data PortState : Type 0 where
  open_port closed filtered open_filtered unknown : PortState

-- A latency is a time, which nothing here reads.
pub record PortResult (T : Type 0) : Type 0 where
  pub port : ℕ
  pub state : PortState
  pub service : Option Text
  pub product : Option Text
  pub version : Option Text
  pub latency_ms : Option T
  pub banner : Option Text

unfoldable pub is_open : PortState → Bool
is_open open_port = true
is_open _ = false

-- `HostResult.open_ports`
unfoldable pub open_ports : {T : Type 0} → List (PortResult T) → List (PortResult T)
unfolding is_open
open_ports [] = []
open_ports (r ∷ rest) =
    let others = open_ports rest in if is_open r.state then r ∷ others else others

-- The flags of a reply, or `none` for silence. SYN is bit 1, RST is bit 2 and ACK is bit 4.
unfoldable pub classify : Option ℕ → Bool → PortState
classify tcp_flags true = filtered
classify none false = filtered
classify (some flags) false =
    if has_bit flags 1 && has_bit flags 4
    then open_port
    else if has_bit flags 2
    then closed
    else filtered

pub data Protocol : Type 0 where
  tcp_protocol udp_protocol : Protocol

pub record ScanTarget : Type 0 where
  pub host : Text
  pub ports : List ℕ
  pub protocol : Protocol

pub record HostResult (T : Type 0) : Type 0 where
  pub host : Text
  pub ip : Option Text
  pub ports : List (PortResult T)

-- The times are the clock's, of type T.
pub record ScanReport (T : Type 0) : Type 0 where
  pub target : ScanTarget
  pub host : HostResult T
  pub scan_type : Text
  pub started_at : T
  pub duration_s : T

pub record NetworkReport (T : Type 0) : Type 0 where
  pub network : Text
  pub hosts : List (ScanReport T)
  pub total_candidates : ℕ
  pub up_count : ℕ
  pub duration_s : T
