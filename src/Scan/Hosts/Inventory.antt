-- ===== src/Scan/Hosts/Inventory.antt =====
-- What a sweep reports of the hosts of a network.
use pyscan.Scan.Hosts.Discovery.{Keeps, IsUp, IsUnnamed, is_up_lem, discover_lem, Keeps-Any}
use pyscan.Prelude.{
  ℕ, suc, ◌≡◌, refl, sym, ap, ◌∙◌, ◌⊎◌, inl, inr, Bool, true, Option, List, [], ◌∷◌, map, Text,
  length, Any, Bool-cases, ℤ, Exception, value_error, Result, ok, err, ◌>>=◌, Returns, insert_by,
  sort_by, IsSorted, sort_by-Perm, sort_by-IsSorted, text_leb_total,
}
use mathlib.Core.List.{Perm}
use pyscan.Scan.Service.Probing.{gather}
use pyscan.Scan.Hosts.{
  is_up, run_sweep, default_ping_ports, World, sweep_report, scan_one, scan_all, by_address,
  limiter_of,
}
use pyscan.Scan.Strategies.{Connection}
use pyscan.Scan.Models.{NetworkReport, ScanReport}
use pyscan.Scan.Targets.{Addressing, expand_targets}
use pyscan.Scan.Pacer.{Rate}

-- Two lists of one length, related place for place.
pub data Pairs {A B : Type 0} (R : A → B → Type 0) : List A → List B → Type 0 where
  no_pairs : Pairs R [] []
  pair :
      {x : A} {y : B} {xs : List A} {ys : List B}
      → R x y
      → Pairs R xs ys
      → Pairs R (x ∷ xs) (y ∷ ys)

length-Pairs :
    {A B : Type 0} {R : A → B → Type 0} {xs : List A} {ys : List B}
    → Pairs R xs ys
    → length xs ≡ length ys
length-Pairs no_pairs = refl
length-Pairs (pair r rest) = ap suc (length-Pairs rest)

Result-cases : {A : Type 0} (m : Result A) → Returns m ⊎ ((e : Exception) × (m ≡ err e))
Result-cases (ok a) = inl (a, refl)
Result-cases (err e) = inr (e, refl)

gather_lem :
    {A B : Type 0} (task : A → Result B) (xs : List A)
    → ((ys : List B) × (gather task xs ≡ ok ys) × Pairs (λ x y. task x ≡ ok y) xs ys)
      ⊎ ((e : Exception) × (gather task xs ≡ err e) × Any (λ x. task x ≡ err e) xs)
unfolding gather
gather_lem task [] = inl ([], refl, no_pairs)
gather_lem task (x ∷ xs) = elim (Result-cases (task x)) [
  | inl (y, h) ↦ elim (gather_lem task xs) [
    | inl (ys, k, pairs) ↦ inl (y ∷ ys, rw h (rw k refl), pair h pairs)
    | inr (e, k, found) ↦ inr (e, rw h (rw k refl), inr found)
  ]
  | inr (e, h) ↦ inr (e, rw h refl, inl h)
]

length-insert_by :
    {A : Type 0} (before : A → A → Bool) (x : A) (xs : List A)
    → length (insert_by before x xs) ≡ suc (length xs)
unfolding insert_by
length-insert_by before x [] = refl
length-insert_by before x (y ∷ xs) = elim (Bool-cases (before x y)) [
  | inl h ↦ rw h refl
  | inr h ↦ rw h (ap suc (length-insert_by before x xs))
]

length-sort_by :
    {A : Type 0} (before : A → A → Bool) (xs : List A) → length (sort_by before xs) ≡ length xs
unfolding sort_by
length-sort_by before [] = refl
length-sort_by before (x ∷ xs) =
    length-insert_by before x (sort_by before xs) ∙ ap suc (length-sort_by before xs)

-- What a sweep of these candidates promises of its report.
pub record IsInventory {T : Type 0} (network : World T) (connections : Text → ℕ → Connection T)
    (ports : List ℕ) (retries : ℤ) (candidates : List Text) (report : NetworkReport T)
    : Type 0 where
  pub up : List Text
  pub finds : Keeps (λ host. IsUp (connections host)) candidates up
  pub reports : List (ScanReport T)
  pub scans : Pairs (λ host r. scan_one network ports retries host ≡ ok r) up reports
  pub contents : Perm report.hosts reports
  pub sorts : IsSorted by_address report.hosts
  pub counts :
      (report.up_count ≡ length report.hosts) × (report.total_candidates ≡ length candidates)

-- Why a sweep of these candidates raises `e`: a name that cannot be encoded is knocked at, or the
-- scan of a host that answered raises it.
abbrev pub Fault :
    {T : Type 0} → World T → (Text → ℕ → Connection T) → List ℕ → ℤ → List Text → Exception → Type 0
Fault network connections ports retries candidates e =
    (Any (λ host. IsUnnamed (connections host) default_ping_ports) candidates × (e ≡ value_error))
    ⊎ Any (λ host. IsUp (connections host) × (scan_one network ports retries host ≡ err e))
        candidates

-- A sweep raises what stands in the way of its candidates; else each sink has the one report, or
-- no sink is called and there is a reason for what is raised.
abbrev pub Sweeps :
    {T E : Type 0}
    → List (NetworkReport T → E)
    → (List Text → NetworkReport T → Type 0)
    → (List Text → Exception → Type 0)
    → Result (List Text)
    → Result (List E × NetworkReport T)
    → Type 0
Sweeps sinks Promise Reason (err e) outcome = outcome ≡ err e
Sweeps {T} sinks Promise Reason (ok candidates) outcome =
    ((report : NetworkReport T) × (outcome ≡ ok (map (λ sink. sink report) sinks, report))
      × Promise candidates report)
    ⊎ ((e : Exception) × (outcome ≡ err e) × Reason candidates e)

module _ {T : Type 0} (network : World T) (connections : Text → ℕ → Connection T) (ports : List ℕ)
    (retries : ℤ) where
  sweep_report_lem :
      (spec : Text) (candidates : List Text)
      → ((report : NetworkReport T) × (sweep_report network
              (λ host. is_up (connections host) default_ping_ports)
              ports
              retries
              true
              spec
              candidates
            ≡ ok report)
          × IsInventory network connections ports retries candidates report)
        ⊎ ((e : Exception) × (sweep_report network
                (λ host. is_up (connections host) default_ping_ports)
                ports
                retries
                true
                spec
                candidates
              ≡ err e)
            × Fault network connections ports retries candidates e)
  unfolding sweep_report scan_all
  sweep_report_lem spec candidates =
      elim (discover_lem (λ host. is_up (connections host) default_ping_ports) candidates
        (λ host. is_up_lem (connections host) default_ping_ports)) [
          | inr (unnamed, h) ↦ inr (value_error, rw h refl, inl (unnamed, refl))
          | inl (up, h, keeps) ↦ elim (gather_lem (scan_one network ports retries) up) [
            | inr (e, k, found) ↦ inr (e, rw h (rw k refl), inr (Keeps-Any _ keeps found))
            | inl (found, k, pairs) ↦ inl (
              record {
                network = spec;
                hosts = sort_by by_address found;
                total_candidates = length candidates;
                up_count = length up;
                duration_s = network.elapsed;
              },
              rw h (rw k refl),
              record {
                up = up;
                finds = keeps;
                reports = found;
                scans = pairs;
                contents = sort_by-Perm by_address found;
                sorts = sort_by-IsSorted by_address (λ r s. text_leb_total _ _) found;
                counts = (length-Pairs pairs ∙ sym (length-sort_by by_address found), refl);
              },
            )
          ]
        ]

-- The candidates, behind the two steps of a sweep that may raise before any probe.
abbrev pub candidates_of :
    {T : Type 0} → World T → Addressing → Option Rate → Text → Result (List Text)
candidates_of network addressing max_rate spec = do
  candidates ← expand_targets addressing spec
  limiter ← limiter_of network.tick max_rate
  ok candidates

-- A sweep with discovery raises what the expansion of its spec raises, or else what the making of
-- its rate limiter raises, before any probe and any sink. Else it gives each sink, in order, one and
-- the same report: of each host that answered a knock at one of the ping ports, by a handshake or by
-- a refusal, and of no other, it has the report of a scan of that host, sorted by address, and it
-- counts the hosts that are up and the candidates. Or it raises with no sink called: ValueError, for
-- a candidate whose name cannot be encoded, or what the scan of a host that answered raises.
pub run_sweep-IsInventory :
    {T E : Type 0} (sinks : List (NetworkReport T → E)) (network : World T)
    (addressing : Addressing) (connections : Text → ℕ → Connection T) (ports : List ℕ) (retries : ℤ)
    (max_rate : Option Rate) (spec : Text)
    → Sweeps sinks
        (IsInventory network connections ports retries)
        (Fault network connections ports retries)
        (candidates_of network addressing max_rate spec)
        (run_sweep sinks network addressing connections ports retries true max_rate spec)
unfolding run_sweep
run_sweep-IsInventory sinks network addressing connections ports retries max_rate spec =
    elim (Result-cases (expand_targets addressing spec)) [
      | inr (e, h) ↦ rw h refl
      | inl (candidates, h) ↦ rw h (elim (Result-cases (limiter_of network.tick max_rate)) [
        | inr (e, k) ↦ rw k refl
        | inl (limiter, k) ↦
            rw k (elim (sweep_report_lem network connections ports retries spec candidates) [
              | inl (report, r, inventory) ↦ rw r (inl (report, refl, inventory))
              | inr (e, r, reason) ↦ rw r (inr (e, refl, reason))
            ])
      ])
    ]
