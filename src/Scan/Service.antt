-- ===== src/Scan/Service.antt =====
-- pyscan/application/scan_service.py: retransmission, enrichment and order of the results of one
-- host, where no attempt raises; Scan/Service/Probing has those that may. What the network answers
-- is a parameter: the result of each attempt at each port; Scan/Tasks has the order of the probes,
-- Scan/Hosts the report. `identify` is domain/fingerprint.py, a table of regular expressions, and is
-- a parameter too.
pub mod Results
pub mod Probing
use pyscan.Prelude.{
  ℕ, suc, zero, ◌+◌, Bool, true, false, not, Option, none, some, List, [], ◌∷◌, map, Text, leb,
  if◌then◌else◌, ℤ, pos, negsuc, sort_by,
}
use pyscan.Scan.Models.{PortState, PortResult, is_open, filtered, open_filtered}

pub record ServiceInfo : Type 0 where
  pub service : Option Text
  pub product : Option Text
  pub version : Option Text

-- `result.state in _INCONCLUSIVE`
unfoldable pub is_inconclusive : PortState → Bool
is_inconclusive filtered = true
is_inconclusive open_filtered = true
is_inconclusive _ = false

-- `info.service or result.service`: an empty text counts as none.
unfoldable pub either_text : Option Text → Option Text → Option Text
either_text none fallback = fallback
either_text (some []) fallback = fallback
either_text (some (c ∷ t)) fallback = some (c ∷ t)

module _ {T : Type 0} where
  -- The loop behind attempt `k`, with the retries that are left.
  unfoldable pub retry : (ℕ → PortResult T) → ℕ → ℕ → PortResult T
  unfolding is_inconclusive
  retry answers zero k = answers k
  retry answers (suc retries) k =
      let next = retry answers retries (k + 1) in
      if not (is_inconclusive (answers k).state) then answers k else next

  unfoldable pub bounded : (ℕ → PortResult T) → ℤ → PortResult T
  unfolding retry
  bounded answers (pos retries) = retry answers retries 0
  bounded answers (negsuc n) = retry answers 0 0

  unfoldable pub enrich : (Option Text → ℕ → ServiceInfo) → PortResult T → PortResult T
  unfolding is_open either_text
  enrich identify result =
      if not (is_open result.state)
      then result
      else (let info = identify result.banner result.port in
          record result {
            service = either_text info.service result.service;
            product = info.product;
            version = info.version;
          })

  -- `sorted(..., key=lambda r: r.port)`, which keeps the order of equal keys.
  abbrev pub by_port : PortResult T → PortResult T → Bool
  by_port r s = leb r.port s.port

  unfoldable pub sort_results : List (PortResult T) → List (PortResult T)
  unfolding sort_by
  sort_results results = sort_by by_port results

  -- The ports of the host's result.
  unfoldable pub scan_ports :
      (Option Text → ℕ → ServiceInfo) → (ℕ → ℕ → PortResult T) → ℤ → List ℕ → List (PortResult T)
  unfolding bounded enrich sort_results
  scan_ports identify network retries ports =
      sort_results (map (λ port. enrich identify (bounded (network port) retries)) ports)
