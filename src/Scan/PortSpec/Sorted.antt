-- ===== src/Scan/PortSpec/Sorted.antt =====
-- What `parse_port_spec` returns: ports in order, each once, and exactly those that were added.
use mathlib.Core.Path.{subst}
use pyscan.Prelude.{
  ℕ, suc, zero, ◌+◌, ◌-◌, ◌*◌, ◌<◌, ◌≤◌, ◌≡◌, refl, sym, ◌∙◌, ◌≢◌, ◌⊎◌, inl, inr, Bool, true, false,
  ◌&&◌, List, [], ◌∷◌, arith, Text, contains_char, strip, split_on, partition, All, All-append, Any,
  ltb, leb, ◌==◌, ltb→lt, ==_iff, Bool-cases, ℤ, pos, negsuc, negate, is_digit, int_digits,
  signed_int, parse_int, index_error, struct_error, value_error, os_error, Result, ok, err, ◌>>=◌,
  runtime_error, key_error,
}
use pyscan.Scan.PortSpec.{
  to_port, ports_from, chunk_ports, insert_port, ports_between, sorted_set, checked_port,
  parse_port_spec, some_ports, all_ports,
}

abbrev pub Has : ℕ → List ℕ → Type 0
Has port = Any (λ q. q ≡ port)

-- Every port of the list is above the bound, and each is below the next.
abbrev pub Ascends : ℕ → List ℕ → Type 0
Ascends bound [] = Unit
Ascends bound (q ∷ rest) = (bound < q) × Ascends q rest

abbrev pub IsPort : ℕ → Type 0
IsPort port = (1 ≤ port) × (port ≤ 65535)

insert_port-Ascends :
    (port bound : ℕ) (ports : List ℕ)
    → bound < port
    → Ascends bound ports
    → Ascends bound (insert_port port ports)
unfolding insert_port
insert_port-Ascends port bound [] h a = (h, tt)
insert_port-Ascends port bound (q ∷ rest) h (b, a) = elim (Bool-cases (ltb port q)) [
  | inl lt ↦ rw lt (h, (ltb→lt port q lt, a))
  | inr ge ↦ rw ge (elim (Bool-cases (port == q)) [
    | inl eq ↦ rw eq (b, a)
    | inr ne ↦ rw ne (b, insert_port-Ascends port q rest (ground arith) a)
  ])
]

insert_port-Has :
    (port x : ℕ) (ports : List ℕ)
    → (Has x (insert_port port ports) → (port ≡ x) ⊎ Has x ports)
      × ((port ≡ x) ⊎ Has x ports → Has x (insert_port port ports))
unfolding insert_port
insert_port-Has port x [] = (λ h. h, λ h. h)
insert_port-Has port x (q ∷ rest) = elim (Bool-cases (ltb port q)) [
  | inl lt ↦ rw lt (λ h. h, λ h. h)
  | inr ge ↦ rw ge (elim (Bool-cases (port == q)) [
    | inl eq ↦ rw eq (
        let same : q ≡ port = sym ((==_iff port q).0 eq) in
        (λ h. inr h, λ h. elim h [ inl e ↦ inl (same ∙ e) | inr k ↦ k ]))
    | inr ne ↦ rw ne (
        let (out, into) = insert_port-Has port x rest in
        (
          λ h. elim h [
            | inl e ↦ inr (inl e)
            | inr k ↦ elim (out k) [ inl e ↦ inl e | inr r ↦ inr (inr r) ]
          ],
          λ h. elim h [
            | inl e ↦ inr (into (inl e))
            | inr k ↦ elim k [ inl e ↦ inl e | inr r ↦ inr (into (inr r)) ]
          ],
        ))
  ])
]

sorted_set-Ascends : (ports : List ℕ) → All IsPort ports → Ascends 0 (sorted_set ports)
unfolding sorted_set
sorted_set-Ascends [] h = tt
sorted_set-Ascends (port ∷ rest) (p, h) =
    insert_port-Ascends port 0 (sorted_set rest) (omega (arith, p.0)) (sorted_set-Ascends rest h)

pub sorted_set-Has :
    (x : ℕ) (ports : List ℕ)
    → (Has x (sorted_set ports) → Has x ports) × (Has x ports → Has x (sorted_set ports))
unfolding sorted_set
sorted_set-Has x [] = (λ h. h, λ h. h)
sorted_set-Has x (port ∷ rest) =
    let (out, into) = insert_port-Has port x (sorted_set rest) in
    let (out', into') = sorted_set-Has x rest in
    (
      λ h. elim (out h) [ inl e ↦ inl e | inr k ↦ inr (out' k) ],
      λ h. elim h [ inl e ↦ into (inl e) | inr k ↦ into (inr (into' k)) ],
    )

All-Has : (P : ℕ → Type 0) (ports : List ℕ) → ((x : ℕ) → Has x ports → P x) → All P ports
All-Has P [] h = tt
All-Has P (p ∷ rest) h = (h p (inl refl), All-Has P rest (λ x k. h x (inr k)))

Has-All : (P : ℕ → Type 0) (ports : List ℕ) (x : ℕ) → All P ports → Has x ports → P x
Has-All P [] x h k = absurd k
Has-All P (p ∷ rest) x (h, hs) (inl e) = subst P e h
Has-All P (p ∷ rest) x (h, hs) (inr k) = Has-All P rest x hs k

-- The call returns a value with the property, or raises ValueError.
abbrev pub Checked {ℓ} : {A : Type ℓ} → (A → Type 0) → Result A → Type 0
Checked P (ok a) = P a
Checked P (err value_error) = Unit
Checked P (err _) = ⊥

Checked-bind {ℓ κ} :
    {A : Type ℓ} {B : Type κ} (P : A → Type 0) (Q : B → Type 0) (m : Result A) (f : A → Result B)
    → Checked P m
    → ((a : A) → P a → Checked Q (f a))
    → Checked Q (m >>= f)
Checked-bind P Q (ok a) f h k = k a h
Checked-bind P Q (err value_error) f h k = tt
Checked-bind P Q (err index_error) f h k = absurd h
Checked-bind P Q (err struct_error) f h k = absurd h
Checked-bind P Q (err os_error) f h k = absurd h
Checked-bind P Q (err runtime_error) f h k = absurd h
Checked-bind P Q (err key_error) f h k = absurd h

abbrev AnyValue {ℓ} : {A : Type ℓ} → A → Type 0
AnyValue a = Unit

int_digits-Checked : (acc : ℕ) (flag : Bool) (t : Text) → Checked AnyValue (int_digits acc flag t)
unfolding int_digits
int_digits-Checked acc true [] = tt
int_digits-Checked acc false [] = tt
int_digits-Checked acc flag (c ∷ t) = elim (Bool-cases (is_digit c)) [
  | inl h ↦ rw h (int_digits-Checked (acc * 10 + (c - b'0')) true t)
  | inr h ↦ rw h (elim (Bool-cases (c == b'_' && flag)) [
    | inl k ↦ rw k (int_digits-Checked acc false t)
    | inr k ↦ rw k tt
  ])
]

digits-Checked :
    (sign : ℕ → ℤ) (t : Text) → Checked AnyValue (int_digits 0 false t >>= λ n. ok (sign n))
digits-Checked sign t =
    Checked-bind AnyValue AnyValue (int_digits 0 false t) _ (int_digits-Checked 0 false t) λ n u. tt

signed_int-Checked : (t : Text) → Checked AnyValue (signed_int t)
unfolding signed_int
signed_int-Checked [] = tt
signed_int-Checked (c ∷ t) = elim (Bool-cases (c == b'-')) [
  | inl h ↦ rw h (digits-Checked negate t)
  | inr h ↦ rw h (elim (Bool-cases (c == b'+')) [
    | inl k ↦ rw k (digits-Checked pos t)
    | inr k ↦ rw k (digits-Checked pos (c ∷ t))
  ])
]

parse_int-Checked : (t : Text) → Checked AnyValue (parse_int t)
unfolding parse_int
parse_int-Checked t = signed_int-Checked (strip t)

checked_port-Checked : (n : ℤ) → Checked IsPort (checked_port n)
unfolding checked_port
checked_port-Checked (pos n) = elim (Bool-cases (leb 1 n && leb n 65535)) [
  | inl h ↦ rw h (ground arith)
  | inr h ↦ rw h tt
]
checked_port-Checked (negsuc n) = tt

to_port-Checked : (raw : Text) → Checked IsPort (to_port raw)
unfolding to_port
to_port-Checked raw =
    Checked-bind AnyValue IsPort (parse_int (strip raw)) _ (parse_int-Checked _)
      λ n u. checked_port-Checked n

ports_from-IsPort : (lo count : ℕ) → 1 ≤ lo → lo + count ≤ 65536 → All IsPort (ports_from lo count)
unfolding ports_from
ports_from-IsPort lo zero l h = tt
ports_from-IsPort lo (suc count) l h =
    ((l, omega arith), ports_from-IsPort (lo + 1) count (omega arith) (omega arith))

ports_between-IsPort : (lo hi : ℕ) → IsPort lo → IsPort hi → All IsPort (ports_between lo hi)
unfolding ports_between
ports_between-IsPort lo hi l h = elim (Bool-cases (ltb hi lo)) [
  | inl lt ↦ rw lt (ports_from-IsPort hi (lo + 1 - hi) h.0 (omega (arith, l.1, ltb→lt hi lo lt)))
  | inr ge ↦ rw ge (ports_from-IsPort lo (hi + 1 - lo) l.0 (ground arith))
]

chunk_ports-Checked : (chunk : Text) → Checked (All IsPort) (chunk_ports chunk)
unfolding chunk_ports
chunk_ports-Checked [] = tt
chunk_ports-Checked (c ∷ chunk) = elim (Bool-cases (contains_char b'-' (c ∷ chunk))) [
  | inl h ↦ rw h (
      Checked-bind IsPort (All IsPort) (to_port (partition b'-' (c ∷ chunk)).0) _
        (to_port-Checked _)
        λ lo l.
          Checked-bind IsPort (All IsPort) (to_port (partition b'-' (c ∷ chunk)).1) _
            (to_port-Checked _) λ hi k. ports_between-IsPort lo hi l k)
  | inr h ↦ rw h (
      Checked-bind IsPort (All IsPort) (to_port (c ∷ chunk)) _ (to_port-Checked _)
        λ port k. (k, tt))
]

all_ports-Checked : (chunks : List Text) → Checked (All IsPort) (all_ports chunks)
unfolding all_ports
all_ports-Checked [] = tt
all_ports-Checked (chunk ∷ rest) =
    Checked-bind (All IsPort) (All IsPort) (chunk_ports (strip chunk)) _ (chunk_ports-Checked _)
      λ ports p.
        Checked-bind (All IsPort) (All IsPort) (all_ports rest) _ (all_ports-Checked rest)
          λ others o. All-append IsPort ports others p o

-- The list is in order with no port twice, has a port, and only ports of 1 to 65535.
pub record IsPortList (ports : List ℕ) : Type 0 where
  pub ascends : Ascends 0 ports
  pub in_range : All IsPort ports
  pub nonempty : ports ≢ []

some_ports-Checked :
    (ports : List ℕ) → Ascends 0 ports → All IsPort ports → Checked IsPortList (some_ports ports)
unfolding some_ports
some_ports-Checked [] a p = tt
some_ports-Checked (port ∷ rest) a p = record { ascends = a; in_range = p; nonempty = λ e. cc }

-- On every text the parser returns a list that is in order, without repetition, not empty and
-- within 1 to 65535, or it raises ValueError and no other exception.
pub parse_port_spec-Checked : (spec : Text) → Checked IsPortList (parse_port_spec spec)
unfolding parse_port_spec
parse_port_spec-Checked spec =
    Checked-bind (All IsPort) IsPortList (all_ports (split_on b',' spec)) _ (all_ports-Checked _)
      λ ports p. some_ports-Checked (sorted_set ports) (sorted_set-Ascends ports p) (
        All-Has IsPort (sorted_set ports)
          (λ x h. Has-All IsPort ports x p ((sorted_set-Has x ports).0 h)))
