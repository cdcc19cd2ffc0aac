-- ===== src/Scan/Hosts/Discovery.antt =====
-- Which hosts the TCP ping of pyscan/adapters/discovery/tcp_ping.py finds.
use pyscan.Prelude.{
  ℕ, ◌≡◌, refl, ◌⊎◌, inl, inr, Bool, true, false, List, [], ◌∷◌, Text, Any, value_error, Result, ok,
  err,
}
use pyscan.Scan.Hosts.{knock, discover, is_up, default_ping_ports}
use pyscan.Scan.Strategies.{Connection, connected, refused, timed_out, unreachable, unencodable}

-- Something came back from a port: a handshake or a refusal.
abbrev pub Answered : {T : Type 0} → Connection T → Type 0
Answered (connected latency) = Unit
Answered (refused latency) = Unit
Answered timed_out = ⊥
Answered unreachable = ⊥
Answered unencodable = ⊥

-- `up` are the candidates, in their order, that have the property, and no others.
pub data Keeps (P : Text → Type 0) : List Text → List Text → Type 0 where
  all_seen : Keeps P [] []
  keep :
      {host : Text} {candidates up : List Text}
      → P host
      → Keeps P candidates up
      → Keeps P (host ∷ candidates) (host ∷ up)
  leave :
      {host : Text} {candidates up : List Text}
      → ¬ P host
      → Keeps P candidates up
      → Keeps P (host ∷ candidates) up

-- The host answered at a port that a ping tries.
abbrev pub IsUp : {T : Type 0} → (ℕ → Connection T) → Type 0
IsUp connections = Any (λ port. Answered (connections port)) default_ping_ports

-- Some knock at the host raises UnicodeError.
abbrev pub IsUnnamed : {T : Type 0} → (ℕ → Connection T) → List ℕ → Type 0
IsUnnamed connections = Any (λ port. connections port ≡ unencodable)

-- A check says whether the property holds, or raises ValueError for the fault.
abbrev pub Decides : Type 0 → Type 0 → Result Bool → Type 0
Decides P Fault m = (P × (m ≡ ok true)) ⊎ ((¬ P × (m ≡ ok false)) ⊎ (Fault × (m ≡ err value_error)))

module _ {T : Type 0} where
  knock_lem : (c : Connection T) → Decides (Answered c) (c ≡ unencodable) (knock c)
  unfolding knock
  knock_lem (connected latency) = inl (tt, refl)
  knock_lem (refused latency) = inl (tt, refl)
  knock_lem timed_out = inr (inl (λ a. a, refl))
  knock_lem unreachable = inr (inl (λ a. a, refl))
  knock_lem unencodable = inr (inr (refl, refl))

  pub is_up_lem :
      (connections : ℕ → Connection T) (ports : List ℕ)
      → Decides
          (Any (λ port. Answered (connections port)) ports)
          (IsUnnamed connections ports)
          (is_up connections ports)
  unfolding is_up
  is_up_lem connections [] = inr (inl (λ a. a, refl))
  is_up_lem connections (port ∷ ports) = elim (knock_lem (connections port)) [
    | inl (a, h) ↦ rw h (elim (is_up_lem connections ports) [
      | inl (b, k) ↦ rw k (inl (inl a, refl))
      | inr (inl (b, k)) ↦ rw k (inl (inl a, refl))
      | inr (inr (f, k)) ↦ rw k (inr (inr (inr f, refl)))
    ])
    | inr (inl (a, h)) ↦ rw h (elim (is_up_lem connections ports) [
      | inl (b, k) ↦ rw k (inl (inr b, refl))
      | inr (inl (b, k)) ↦ rw k (inr (inl (λ c. elim c [ inl x ↦ a x | inr y ↦ b y ], refl)))
      | inr (inr (f, k)) ↦ rw k (inr (inr (inr f, refl)))
    ])
    | inr (inr (f, h)) ↦ rw h (inr (inr (inl f, refl)))
  ]

pub discover_lem :
    {P Fault : Text → Type 0} (check : Text → Result Bool) (candidates : List Text)
    → ((host : Text) → Decides (P host) (Fault host) (check host))
    → ((up : List Text) × (discover check candidates ≡ ok up) × Keeps P candidates up)
      ⊎ (Any Fault candidates × (discover check candidates ≡ err value_error))
unfolding discover
discover_lem check [] decides = inl ([], refl, all_seen)
discover_lem check (host ∷ candidates) decides = elim (decides host) [
  | inl (p, h) ↦ rw h (elim (discover_lem check candidates decides) [
    | inl (up, k, keeps) ↦ rw k (inl (host ∷ up, refl, keep p keeps))
    | inr (f, k) ↦ rw k (inr (inr f, refl))
  ])
  | inr (inl (p, h)) ↦ rw h (elim (discover_lem check candidates decides) [
    | inl (up, k, keeps) ↦ rw k (inl (up, refl, leave p keeps))
    | inr (f, k) ↦ rw k (inr (inr f, refl))
  ])
  | inr (inr (f, h)) ↦ rw h (inr (inl f, refl))
]

pub Keeps-Any :
    {P : Text → Type 0} (Q : Text → Type 0) {candidates up : List Text}
    → Keeps P candidates up
    → Any Q up
    → Any (λ host. P host × Q host) candidates
Keeps-Any Q all_seen h = absurd h
Keeps-Any Q (keep p keeps) (inl q) = inl (p, q)
Keeps-Any Q (keep p keeps) (inr h) = inr (Keeps-Any Q keeps h)
Keeps-Any Q (leave p keeps) h = inr (Keeps-Any Q keeps h)
