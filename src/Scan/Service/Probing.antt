-- ===== src/Scan/Service/Probing.antt =====
-- `bounded` and the gathering of `scan_host` where an attempt may raise. All that one strategy raises
-- is of one class, so it makes no difference which of its exceptions comes first.
use pyscan.Prelude.{
  ℕ, suc, zero, ◌+◌, ◌≡◌, refl, ap, inl, inr, not, Option, List, [], ◌∷◌, map, Text, if◌then◌else◌,
  Bool-cases, ℤ, pos, negsuc, Result, ok, ◌>>=◌, map-map,
}
use pyscan.Scan.Service.{
  is_inconclusive, retry, bounded, enrich, sort_results, scan_ports, ServiceInfo, PortResult,
}
use pyscan.Scan.Models.{PortResult}

-- `await asyncio.gather(...)`: the results in the order of the tasks, or what one of them raises.
unfoldable pub gather : {A B : Type 0} → (A → Result B) → List A → Result (List B)
gather task [] = ok []
gather task (x ∷ xs) = do result ← task x; results ← gather task xs; ok (result ∷ results)

module _ {T : Type 0} where
  -- The loop behind attempt `k`, with the retries that are left.
  unfoldable pub try_retry : (ℕ → Result (PortResult T)) → ℕ → ℕ → Result (PortResult T)
  unfolding is_inconclusive
  try_retry answers zero k = answers k
  try_retry answers (suc retries) k =
      let next = try_retry answers retries (k + 1) in
      do result ← answers k; if not (is_inconclusive result.state) then ok result else next

  unfoldable pub try_bounded : (ℕ → Result (PortResult T)) → ℤ → Result (PortResult T)
  unfolding try_retry
  try_bounded answers (pos retries) = try_retry answers retries 0
  try_bounded answers (negsuc n) = try_retry answers 0 0

  -- The ports of the host's result.
  unfoldable pub probe_ports :
      (Option Text → ℕ → ServiceInfo)
      → (ℕ → ℕ → Result (PortResult T))
      → ℤ
      → List ℕ
      → Result (List (PortResult T))
  unfolding gather try_bounded enrich sort_results
  probe_ports identify network retries ports = do
    results ← gather (λ port. try_bounded (network port) retries) ports
    ok (sort_results (map (enrich identify) results))

  try_retry-ok :
      (answers : ℕ → PortResult T) (retries k : ℕ)
      → try_retry (λ n. ok (answers n)) retries k ≡ ok (retry answers retries k)
  unfolding try_retry retry
  try_retry-ok answers zero k = refl
  try_retry-ok answers (suc retries) k = elim (Bool-cases (is_inconclusive (answers k).state)) [
    | inl h ↦ rw h (try_retry-ok answers retries (k + 1))
    | inr h ↦ rw h refl
  ]

  try_bounded-ok :
      (answers : ℕ → PortResult T) (retries : ℤ)
      → try_bounded (λ n. ok (answers n)) retries ≡ ok (bounded answers retries)
  unfolding try_bounded bounded
  try_bounded-ok answers (pos retries) = try_retry-ok answers retries 0
  try_bounded-ok answers (negsuc n) = try_retry-ok answers 0 0

  gather-ok :
      (f : ℕ → Result (PortResult T)) (g : ℕ → PortResult T) (ports : List ℕ)
      → ((port : ℕ) → f port ≡ ok (g port))
      → gather f ports ≡ ok (map g ports)
  unfolding gather
  gather-ok f g [] h = refl
  gather-ok f g (port ∷ ports) h = rw (h port) (rw (gather-ok f g ports h) refl)

  -- Where no attempt raises, the ports are those of `scan_ports`.
  probe_ports-scan_ports :
      (identify : Option Text → ℕ → ServiceInfo) (network : ℕ → ℕ → PortResult T) (retries : ℤ)
      (ports : List ℕ)
      → probe_ports identify (λ port k. ok (network port k)) retries ports
        ≡ ok (scan_ports identify network retries ports)
  unfolding probe_ports scan_ports
  probe_ports-scan_ports identify network retries ports =
      rw
        (gather-ok _ (λ port. bounded (network port) retries) ports
          (λ port. try_bounded-ok (network port) retries))
        (ap (λ results. ok (sort_results results))
          (map-map (enrich identify) (λ port. bounded (network port) retries) ports))
