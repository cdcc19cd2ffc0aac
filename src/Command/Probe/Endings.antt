-- ===== src/Command/Probe/Endings.antt =====
-- What the commands `scan` and `sweep` hand to their services, and what ends them before.
use pyscan.Prelude.{
  ℕ, suc, zero, ◌≤◌, ◌≡◌, refl, ◌≢◌, ◌⊎◌, inl, inr, Bool, true, false, ◌&&◌, Option, none, some,
  List, [], ◌∷◌, arith, Text, text_eq, length, take, All, ltb, leb, Bool-cases, ℤ, pos, negsuc,
  Exception, index_error, struct_error, value_error, os_error, Result, ok, err, Returns,
}
use pyscan.Command.Probe.{
  port_list, parse_port_spec, get_strategy, Addressing, ScanArguments, Registry, Strategy,
  ScanTarget, expand_targets, options_of, ConnectOptions, ScanSink, scan, Pace, scan_sinks,
  tcp_protocol,
}
use pyscan.Scan.Services.{top_ports, top_table}
use pyscan.Scan.PortSpec.Sorted.{Checked, IsPort, IsPortList, parse_port_spec-Checked}
use pyscan.Scan.PortSpec.{parse_port_spec}
use pyscan.Scan.Strategies.Registry.{
  builtin, get_strategy, find_class, register, new_syn_scan, Registry, Strategy,
}
use pyscan.Scan.Targets.{Addressing, expand_targets}
use pyscan.Command.{
  Ending, uncaught, usage_error, exit_one, runtime_error, key_error, Body, ends, on_error,
  value_is_usage, runtime_fails, strategy_fails,
}
use pyscan.Scan.Models.{ScanTarget, tcp_protocol}
use pyscan.Scan.Strategies.Connect.{ConnectOptions}

-- Some ports, each of 1 to 65535.
abbrev pub IsScannable : List ℕ → Type 0
IsScannable ports = All IsPort ports × (ports ≢ [])

are_ports : List ℕ → Bool
are_ports [] = true
are_ports (p ∷ ports) = (leb 1 p && leb p 65535) && are_ports ports

and_parts : (a b : Bool) → a && b ≡ true → (a ≡ true) × (b ≡ true)
and_parts true b h = (refl, h)
and_parts false b h = cc

are_ports-All : (ports : List ℕ) → are_ports ports ≡ true → All IsPort ports
unfolding are_ports
are_ports-All [] h = tt
are_ports-All (p ∷ ports) h =
    let (here, rest) = and_parts (leb 1 p && leb p 65535) (are_ports ports) h in
    (ground arith, are_ports-All ports rest)

top_table-IsPort : All IsPort top_table
unfolding are_ports
top_table-IsPort = are_ports-All top_table refl

All-take : {A : Type 0} (P : A → Type 0) (n : ℕ) (xs : List A) → All P xs → All P (take n xs)
All-take P zero xs h = tt
All-take P (suc n) [] h = tt
All-take P (suc n) (x ∷ xs) (p, h) = (p, All-take P n xs h)

top_ports-Checked : (n : ℤ) → Checked IsScannable (top_ports n)
unfolding top_ports
top_ports-Checked (pos zero) = tt
top_ports-Checked (pos (suc n)) = (All-take IsPort (suc n) top_table top_table-IsPort, λ e. cc)
top_ports-Checked (negsuc n) = tt

Checked-map :
    {A : Type 0} (P Q : A → Type 0) (m : Result A)
    → ((a : A) → P a → Q a)
    → Checked P m
    → Checked Q m
Checked-map P Q (ok a) f h = f a h
Checked-map P Q (err value_error) f h = tt
Checked-map P Q (err index_error) f h = h
Checked-map P Q (err struct_error) f h = h
Checked-map P Q (err os_error) f h = h
Checked-map P Q (err runtime_error) f h = h
Checked-map P Q (err key_error) f h = h

port_list-Checked : (top : Option ℤ) (ports : Text) → Checked IsScannable (port_list top ports)
unfolding port_list
port_list-Checked none ports =
    Checked-map IsPortList IsScannable (parse_port_spec ports) (λ found h. (h.in_range, h.nonempty))
      (parse_port_spec-Checked ports)
port_list-Checked (some n) ports = top_ports-Checked n

-- A constructor returns a strategy or raises RuntimeError.
IsBuilding : {O S : Type 0} → (O → Result S) → Type 0
IsBuilding {O} cls = (options : O) → Returns (cls options) ⊎ (cls options ≡ err runtime_error)

get_strategy-cases :
    {O S : Type 0} (registry : Registry O S) (name : Text) (options : O)
    → All (λ entry. IsBuilding entry.1) registry
    → Returns (get_strategy registry name options)
      ⊎ ((get_strategy registry name options ≡ err key_error)
          ⊎ (get_strategy registry name options ≡ err runtime_error))
unfolding get_strategy find_class IsBuilding
get_strategy-cases [] name options h = inr (inl refl)
get_strategy-cases ((other, cls) ∷ rest) name options (b, h) =
    elim (Bool-cases (text_eq name other)) [
      | inl same ↦ rw same (elim (b options) [ inl r ↦ inl r | inr e ↦ inr (inr e) ])
      | inr differs ↦ rw differs (get_strategy-cases rest name options h)
    ]

new_syn_scan-cases :
    (has_scapy : Bool) (options : ConnectOptions)
    → Returns (new_syn_scan has_scapy options)
      ⊎ (new_syn_scan has_scapy options ≡ err runtime_error)
unfolding new_syn_scan
new_syn_scan-cases true options = inl (_, refl)
new_syn_scan-cases false options = inr refl

builtin-IsBuilding : (has_scapy : Bool) → All (λ entry. IsBuilding entry.1) (builtin has_scapy)
unfolding builtin register text_eq IsBuilding
builtin-IsBuilding has_scapy = (
  λ options. inl (_, refl),
  (
    λ options. inl (_, refl),
    (
      λ options. inl (_, refl),
      (
        λ options. new_syn_scan-cases has_scapy options,
        (λ options. inl (_, refl), (λ options. inl (_, refl), tt)),
      ),
    ),
  ),
)

-- The call that `scan` makes of its service: the strategy asked for, the sinks in their order, and
-- the one host with a list of ports that are all in range.
pub record IsScanCall {R : Type 0} (addressing : Addressing) (has_scapy : Bool)
    (args : ScanArguments R) (strategy : Strategy) (target : ScanTarget) : Type 0 where
  pub single :
      (targets : List Text) × (expand_targets addressing args.host ≡ ok targets)
      × (length targets ≤ 1)
  pub host : target.host ≡ args.host
  pub ports : (port_list args.top args.ports ≡ ok target.ports) × IsScannable target.ports
  pub chosen :
      get_strategy (builtin has_scapy) args.scan_type (options_of args.banner) ≡ ok strategy

-- How `scan` ends without a call of its service: with a usage error or with a message, but for a
-- host that is a range of too many addresses, whose ValueError is not caught.
abbrev pub IsEarly : Addressing → Text → Ending → Type 0
IsEarly addressing host usage_error = Unit
IsEarly addressing host exit_one = Unit
IsEarly addressing host (uncaught e) = expand_targets addressing host ≡ err e

Result-cases : {A : Type 0} (m : Result A) → Returns m ⊎ ((e : Exception) × (m ≡ err e))
Result-cases (ok a) = inl (a, refl)
Result-cases (err e) = inr (e, refl)

Checked-cases :
    {A : Type 0} (P : A → Type 0) (m : Result A)
    → Checked P m
    → ((a : A) × (m ≡ ok a) × P a) ⊎ (m ≡ err value_error)
Checked-cases P (ok a) h = inl (a, refl, h)
Checked-cases P (err value_error) h = inr refl
Checked-cases P (err index_error) h = absurd h
Checked-cases P (err struct_error) h = absurd h
Checked-cases P (err os_error) h = absurd h
Checked-cases P (err runtime_error) h = absurd h
Checked-cases P (err key_error) h = absurd h

-- What `asyncio.run` of the service returns or raises.
abbrev pub ScanService : Type 0 → Type 0 → Type 0
ScanService R A = Strategy → List ScanSink → ScanTarget → Pace R → Result A

-- The command with each service.
abbrev pub Early : {S R A : Type 0} → Addressing → ScanArguments R → (S → Body A) → Type 0
Early {S} addressing args command =
    (ending : Ending) × IsEarly addressing args.host ending
    × ((service : S) → command service ≡ ends ending)

abbrev pub Served :
    {R A : Type 0} → Addressing → Bool → ScanArguments R → (ScanService R A → Body A) → Type 0
Served {R} {A} addressing has_scapy args command =
    (strategy : Strategy) × (target : ScanTarget) × IsScanCall addressing has_scapy args strategy
      target
    × ((service : ScanService R A)
        → command service
          ≡ on_error runtime_fails (service strategy (scan_sinks args) target args.pace))

-- The command `scan` ends before its service is called, the same for every service: with a usage
-- error, with exit code 1, or, only where the host is a range that is too large, with a ValueError
-- that is not caught. Or it calls its service once, with a strategy of that name, for a host that
-- is not a range, with a list of ports that is not empty and within 1 to 65535, and ends as the
-- call does.
pub scan_calls :
    {R A : Type 0} (addressing : Addressing) (has_scapy : Bool) (args : ScanArguments R)
    → Early {S = ScanService R A} addressing args
        (λ service. scan addressing (builtin has_scapy) service args)
      ⊎ Served {A = A} addressing has_scapy args
          (λ service. scan addressing (builtin has_scapy) service args)
unfolding scan value_is_usage strategy_fails
scan_calls addressing has_scapy args = elim (Result-cases (expand_targets addressing args.host)) [
  | inr (e, h) ↦ inl (uncaught e, h, λ service. rw h refl)
  | inl (targets, h) ↦ rw h (elim (Bool-cases (ltb 1 (length targets))) [
    | inl many ↦ inl (usage_error, tt, λ service. rw many refl)
    | inr single ↦
        elim (Checked-cases IsScannable (port_list args.top args.ports)
          (port_list-Checked args.top args.ports)) [
            | inr k ↦ inl (usage_error, tt, λ service. rw single (rw k refl))
            | inl (ports, k, scannable) ↦
                elim (get_strategy-cases (builtin has_scapy) args.scan_type (options_of args.banner)
                  (builtin-IsBuilding has_scapy)) [
                    | inr (inl unknown) ↦
                        inl (usage_error, tt, λ service. rw single (rw k (rw unknown refl)))
                    | inr (inr refused) ↦
                        inl (exit_one, tt, λ service. rw single (rw k (rw refused refl)))
                    | inl (strategy, chosen) ↦ inr (
                      strategy,
                      record { host = args.host; ports = ports; protocol = tcp_protocol },
                      record {
                        single = (targets, h, ground arith);
                        host = refl;
                        ports = (k, scannable);
                        chosen = chosen;
                      },
                      λ service. rw single (rw k (rw chosen refl)),
                    )
                  ]
          ]
  ])
]
