-- ===== src/Scan/Strategies/Registry.antt =====
-- pyscan/adapters/strategies/registry.py: strategies by their names. A class is its constructor,
-- which is given the options and may raise.
use pyscan.Prelude.{
  Bool, List, [], ◌∷◌, Text, codes, text_eq, if◌then◌else◌, Result, ok, err, ◌>>=◌, sort_texts,
  key_error, runtime_error,
}
use pyscan.Scan.Strategies.Connect.{ConnectOptions}

abbrev pub Registry : Type 0 → Type 0 → Type 0
Registry O S = List (Text × (O → Result S))

module _ {O S : Type 0} where
  -- `@register(name)`: in the place of the name, or behind the others.
  unfoldable pub register : Text → (O → Result S) → Registry O S → Registry O S
  unfolding text_eq
  register name cls [] = (name, cls) ∷ []
  register name cls ((other, old) ∷ rest) =
      let later = register name cls rest in
      if text_eq other name then (name, cls) ∷ rest else (other, old) ∷ later

  unfoldable pub find_class : Text → Registry O S → Result (O → Result S)
  unfolding text_eq
  find_class name [] = err key_error
  find_class name ((other, cls) ∷ rest) =
      let later = find_class name rest in if text_eq name other then ok cls else later

  unfoldable pub get_strategy : Registry O S → Text → O → Result S
  unfolding find_class
  get_strategy registry name options = do cls ← find_class name registry; cls options

  names_of : Registry O S → List Text
  names_of [] = []
  names_of ((name, cls) ∷ rest) = name ∷ names_of rest

  unfoldable pub available : Registry O S → List Text
  unfolding names_of sort_texts
  available registry = sort_texts (names_of registry)

-- The built-in strategies, with the constructor's options that they read.
pub data Strategy : Type 0 where
  tcp_connect_scan : (options : ConnectOptions) → Strategy
  syn_scan udp_scan modbus_scan iec104_scan s7comm_scan : Strategy

-- `SynScan()` raises RuntimeError where scapy is not installed.
unfoldable pub new_syn_scan : Bool → ConnectOptions → Result Strategy
new_syn_scan has_scapy options = if has_scapy then ok syn_scan else err runtime_error

-- What importing the package registers, in the order of its import line.
unfoldable pub builtin : Bool → Registry ConnectOptions Strategy
unfolding register new_syn_scan
builtin has_scapy =
    register (codes "udp") (λ options. ok udp_scan)
      (register (codes "tcp-connect") (λ options. ok (tcp_connect_scan options))
        (register (codes "syn") (new_syn_scan has_scapy) (
          register (codes "s7comm") (λ options. ok s7comm_scan)
            (register (codes "modbus") (λ options. ok modbus_scan)
              (register (codes "iec104") (λ options. ok iec104_scan) [])))))
