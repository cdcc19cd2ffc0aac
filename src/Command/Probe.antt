-- ===== src/Command/Probe.antt =====
-- The commands `scan` and `sweep` of pyscan/cli/main.py. The services are what `asyncio.run` of
-- their `run` returns or raises; a sink is named by what it writes.
pub mod Endings
use pyscan.Command.{usage_error, ◌>>=◌}
use pyscan.Prelude.{
  ℕ, Bool, true, Option, none, some, List, [], ◌∷◌, ◌++◌, Text, length, ltb, if◌then◌else◌, ℤ,
  Result,
}
use pyscan.Scan.Targets.{Addressing, expand_targets}
use pyscan.Scan.Strategies.Registry.{available, Registry, Strategy, get_strategy}
use pyscan.Scan.Services.{top_ports}
use pyscan.Scan.Strategies.Connect.{ConnectOptions}
use pyscan.Scan.PortSpec.{parse_port_spec}
use pyscan.Command.{
  value_is_usage, strategy_fails, key_is_usage, runtime_fails, Body, on_error, uncaught, ends,
  usage_error,
}
use pyscan.Scan.Models.{ScanTarget, tcp_protocol}

pub data ScanSink : Type 0 where
  table_sink : (show_all : Bool) → ScanSink
  json_sink csv_sink : (path : Text) → ScanSink

pub data SweepSink : Type 0 where
  network_table_sink : (detail : Bool) → SweepSink
  network_json_sink : (path : Text) → SweepSink

-- The arguments that `scan` hands to the service as they are; a rate and a time are of type R.
pub record Pace (R : Type 0) : Type 0 where
  pub concurrency : ℤ
  pub timeout : R
  pub max_rate : Option R
  pub retries : ℤ
  pub prefer_ipv6 : Bool

pub record ScanArguments (R : Type 0) : Type 0 where
  pub host : Text
  pub ports : Text
  pub scan_type : Text
  pub show_all : Bool
  pub banner : Bool
  pub json_out : Option Text
  pub csv_out : Option Text
  pub top : Option ℤ
  pub pace : Pace R

unfoldable pub also : {A : Type 0} → (Text → A) → Option Text → List A
also sink none = []
also sink (some path) = sink path ∷ []

-- `top_ports(top) if top is not None else parse_port_spec(ports)`
unfoldable pub port_list : Option ℤ → Text → Result (List ℕ)
unfolding top_ports parse_port_spec
port_list none ports = parse_port_spec ports
port_list (some n) ports = top_ports n

-- `get_strategy(name, grab_banner=banner)`: the other options have their defaults.
unfoldable pub options_of : Bool → ConnectOptions
options_of banner = record { grab_banner = banner; http_probe = true }

unfoldable pub scan_sinks : {R : Type 0} → ScanArguments R → List ScanSink
unfolding also
scan_sinks args =
    table_sink args.show_all ∷ (also json_sink args.json_out ++ also csv_sink args.csv_out)

module _ {R A : Type 0} (addressing : Addressing)
    (registry : Registry ConnectOptions Strategy) where
  unfoldable pub scan :
      (Strategy → List ScanSink → ScanTarget → Pace R → Result A) → ScanArguments R → Body A
  unfolding expand_targets port_list get_strategy options_of scan_sinks value_is_usage
      strategy_fails runtime_fails
  scan service args = do
    targets ← on_error uncaught (expand_targets addressing args.host)
    if ltb 1 (length targets) then ends usage_error else do
      ports ← on_error value_is_usage (port_list args.top args.ports)
      strategy ←
          on_error strategy_fails (get_strategy registry args.scan_type (options_of args.banner))
      let target : ScanTarget = record { host = args.host; ports = ports; protocol = tcp_protocol }
      on_error runtime_fails (service strategy (scan_sinks args) target args.pace)

pub record SweepArguments (R : Type 0) : Type 0 where
  pub network : Text
  pub ports : Text
  pub scan_type : Text
  pub discovery : Bool
  pub detail : Bool
  pub json_out : Option Text
  pub timeout : R
  pub max_rate : Option R
  pub retries : ℤ

unfoldable pub sweep_sinks : {R : Type 0} → SweepArguments R → List SweepSink
unfolding also
sweep_sinks args = network_table_sink args.detail ∷ also network_json_sink args.json_out

module _ {R A : Type 0} (registry : Registry ConnectOptions Strategy) where
  -- The service is given the strategy, the ports and the sinks, and then the arguments.
  unfoldable pub sweep :
      (Strategy → List ℕ → List SweepSink → SweepArguments R → Result A) → SweepArguments R → Body A
  unfolding parse_port_spec get_strategy options_of sweep_sinks value_is_usage key_is_usage
  sweep service args = do
    ports ← on_error value_is_usage (parse_port_spec args.ports)
    strategy ← on_error key_is_usage (get_strategy registry args.scan_type (options_of true))
    on_error value_is_usage (service strategy ports (sweep_sinks args) args)

-- `_root`: what is printed without a subcommand.
pub data Shown : Type 0 where
  splash help : Shown

unfoldable pub root : Bool → List Shown
root has_subcommand = if has_subcommand then [] else splash ∷ help ∷ []

-- `strategies` prints the names; `version` shows the splash.
unfoldable pub list_strategies : Registry ConnectOptions Strategy → List Text
unfolding available
list_strategies registry = available registry
