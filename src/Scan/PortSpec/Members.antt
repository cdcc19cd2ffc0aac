-- ===== src/Scan/PortSpec/Members.antt =====
-- Which ports `parse_port_spec` returns.
use pyscan.Prelude.{
  ℕ, suc, zero, ◌+◌, ◌-◌, ◌<◌, ◌≤◌, ◌≡◌, refl, ◌↔◌, ◌⊎◌, inl, inr, true, false, List, [], ◌∷◌, ◌++◌,
  arith, Text, contains_char, strip, split_on, partition, Any, Any-append_left, Any-append_right,
  ltb, Bool-cases, ok, join,
}
use pyscan.Scan.PortSpec.{
  to_port, ports_from, ports_between, chunk_ports, all_ports, sorted_set, some_ports,
  parse_port_spec,
}
use pyscan.Scan.PortSpec.Sorted.{Has, sorted_set-Has}

-- Between the two bounds, whichever is the lower, both included.
abbrev pub Within : ℕ → ℕ × ℕ → Type 0
Within x (a, b) = ((a ≤ x) × (x ≤ b)) ⊎ ((b ≤ x) × (x ≤ a))

-- The chunks of a text as pairs of bounds: one port, two ports with a dash between, or nothing.
pub data Reads : List Text → List (ℕ × ℕ) → Type 0 where
  at_end : Reads [] []
  blank :
      {chunk : Text} {rest : List Text} {bounds : List (ℕ × ℕ)}
      → strip chunk ≡ []
      → Reads rest bounds
      → Reads (chunk ∷ rest) bounds
  single :
      {chunk body : Text} {c port : ℕ} {rest : List Text} {bounds : List (ℕ × ℕ)}
      → strip chunk ≡ c ∷ body
      → contains_char b'-' (c ∷ body) ≡ false
      → to_port (c ∷ body) ≡ ok port
      → Reads rest bounds
      → Reads (chunk ∷ rest) ((port, port) ∷ bounds)
  span :
      {chunk body : Text} {c a b : ℕ} {rest : List Text} {bounds : List (ℕ × ℕ)}
      → strip chunk ≡ c ∷ body
      → contains_char b'-' (c ∷ body) ≡ true
      → to_port (partition b'-' (c ∷ body)).0 ≡ ok a
      → to_port (partition b'-' (c ∷ body)).1 ≡ ok b
      → Reads rest bounds
      → Reads (chunk ∷ rest) ((a, b) ∷ bounds)

ports_from-Has : (x lo count : ℕ) → Has x (ports_from lo count) ↔ ((lo ≤ x) × (x < lo + count))
unfolding ports_from
ports_from-Has x lo zero = (λ h. absurd h, λ h. omega (arith, h.0, h.1))
ports_from-Has x lo (suc count) =
    let (out, into) = ports_from-Has x (lo + 1) count in
    (
      λ h. elim h [
        | inl e ↦ (omega arith, omega arith)
        | inr k ↦ let (l, u) = out k in (omega arith, omega arith)
      ],
      λ h. elim (Bool-cases (ltb lo x)) [
        | inl above ↦ inr (into (ground (arith, above), omega (arith, h.1)))
        | inr here ↦ inl (ground (arith, here, h.0))
      ],
    )

ports_between-Has : (x a b : ℕ) → Has x (ports_between a b) ↔ Within x (a, b)
unfolding ports_between
ports_between-Has x a b = elim (Bool-cases (ltb b a)) [
  | inl lt ↦ rw lt (
      let (out, into) = ports_from-Has x b (a + 1 - b) in
      (
        λ h. let (l, u) = out h in inr (l, ground arith),
        λ h. elim h [ inl (l, u) ↦ ground arith | inr (l, u) ↦ into (l, ground arith) ],
      ))
  | inr ge ↦ rw ge (
      let (out, into) = ports_from-Has x a (b + 1 - a) in
      (
        λ h. let (l, u) = out h in inl (l, ground arith),
        λ h. elim h [
          | inl (l, u) ↦ into (l, ground arith)
          | inr (l, u) ↦ into (ground arith, ground arith)
        ],
      ))
]

Any-append : (P : ℕ → Type 0) (xs ys : List ℕ) → Any P (xs ++ ys) ↔ (Any P xs ⊎ Any P ys)
Any-append P xs ys =
    (out xs, λ h. elim h [ inl k ↦ Any-append_left P xs ys k | inr k ↦ Any-append_right P xs ys k ])
  where
    out : (xs : List ℕ) → Any P (xs ++ ys) → Any P xs ⊎ Any P ys
    out [] h = inr h
    out (x ∷ xs) (inl p) = inl (inl p)
    out (x ∷ xs) (inr h) = elim (out xs h) [ inl k ↦ inl (inr k) | inr k ↦ inr k ]

-- The ports so far, which are those within the bounds.
abbrev Gathers : List Text → List (ℕ × ℕ) → Type 0
Gathers chunks bounds =
    (ports : List ℕ) × (all_ports chunks ≡ ok ports)
    × ((x : ℕ) → Has x ports ↔ Any (Within x) bounds)

-- A chunk with bounds in front of chunks that are gathered.
Gathers-chunk :
    (chunk : Text) (rest : List Text) (bound : ℕ × ℕ) (bounds : List (ℕ × ℕ)) (first : List ℕ)
    → chunk_ports (strip chunk) ≡ ok first
    → ((x : ℕ) → Has x first ↔ Within x bound)
    → Gathers rest bounds
    → Gathers (chunk ∷ rest) (bound ∷ bounds)
unfolding all_ports
Gathers-chunk chunk rest bound bounds first e member (others, f, members) = (
  first ++ others,
  rw e (rw f refl),
  λ x.
      let (split, join) = Any-append (λ q. q ≡ x) first others in
      (
        λ h. elim (split h) [ inl k ↦ inl ((member x).0 k) | inr k ↦ inr ((members x).0 k) ],
        λ h. elim h [ inl k ↦ join (inl ((member x).1 k)) | inr k ↦ join (inr ((members x).1 k)) ],
      ),
)

all_ports-Reads :
    (chunks : List Text) (bounds : List (ℕ × ℕ)) → Reads chunks bounds → Gathers chunks bounds
unfolding all_ports chunk_ports
all_ports-Reads chunks bounds at_end = ([], refl, λ x. (λ h. h, λ h. h))
all_ports-Reads (chunk ∷ rest) bounds (blank e reads) =
    let (ports, f, members) = all_ports-Reads rest bounds reads in
    (ports, rw e (rw f refl), members)
all_ports-Reads (chunk ∷ rest) ((port, _) ∷ bounds) (single e d p reads) =
    Gathers-chunk chunk rest (port, port) bounds (port ∷ []) (rw e (rw d (rw p refl)))
      (λ x. (
        λ h. elim h [ inl k ↦ inl (omega arith, omega arith) | inr k ↦ absurd k ],
        λ h. inl (elim h [ inl k ↦ omega (arith, k.0, k.1) | inr k ↦ omega (arith, k.0, k.1) ]),
      ))
      (all_ports-Reads rest bounds reads)
all_ports-Reads (chunk ∷ rest) ((a, b) ∷ bounds) (span e d p q reads) =
    Gathers-chunk chunk rest (a, b) bounds (ports_between a b) (rw e (rw d (rw p (rw q refl))))
      (λ x. ports_between-Has x a b) (all_ports-Reads rest bounds reads)

some_ports-Has : (x : ℕ) (ports : List ℕ) → Has x ports → some_ports ports ≡ ok ports
unfolding some_ports
some_ports-Has x [] h = absurd h
some_ports-Has x (port ∷ rest) h = refl

lower-Within : (a b : ℕ) → Within a (a, b)
lower-Within a b = elim (Bool-cases (ltb b a)) [
  | inl lt ↦ inr (ground (arith, lt), omega arith)
  | inr ge ↦ inl (omega arith, ground (arith, ge))
]

-- A text whose chunks between commas are each blank, one port, or two ports with a dash between,
-- and not all blank, is parsed to a list that has a port exactly where it is such a port, or lies
-- between two such ports, in whichever order they stand, both included.
pub parse_port_spec-members :
    (spec : Text) (a b : ℕ) (others : List (ℕ × ℕ))
    → Reads (split_on b',' spec) ((a, b) ∷ others)
    → (ports : List ℕ) × (parse_port_spec spec ≡ ok ports)
      × ((x : ℕ) → Has x ports ↔ Any (Within x) ((a, b) ∷ others))
unfolding parse_port_spec
parse_port_spec-members spec a b others reads =
    let (all, e, members) = all_ports-Reads (split_on b',' spec) ((a, b) ∷ others) reads in
    let found : Has a (sorted_set all) =
      (sorted_set-Has a all).1 ((members a).1 (inl (lower-Within a b))) in
    (
      sorted_set all,
      rw e (some_ports-Has a (sorted_set all) found),
      λ x.
          let (out, into) = sorted_set-Has x all in
          (λ h. (members x).0 (out h), λ h. into ((members x).1 h)),
    )
