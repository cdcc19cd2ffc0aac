-- ===== src/Scan/Targets.antt =====
-- pyscan/domain/targets.py: what a target spec stands for. The `ipaddress` library is a parameter:
-- how it reads a network and an address. A family is the version of IP that the socket speaks.
use pyscan.Prelude.{
  ℕ, ◌+◌, ◌≤◌, ◌≡◌, refl, ◌⊎◌, inl, inr, Bool, true, false, Option, none, some, List, [], ◌∷◌,
  arith, Text, strip, length, ltb, ◌==◌, if◌then◌else◌, Bool-cases, Option-cases, value_error,
  Result, ok, err,
}

-- A network as the library answers: its first address, the number of its addresses, and those
-- of its hosts, all printed.
pub record Network : Type 0 where
  pub network_address : Text
  pub num_addresses : ℕ
  pub hosts : List Text

-- `ip_network(spec, strict=False)` and the version of `ip_address(host)`; `none` is ValueError.
pub record Addressing : Type 0 where
  pub ip_network : Text → Option Network
  pub ip_version : Text → Option ℕ

abbrev pub max_hosts : ℕ
max_hosts = 65536

unfoldable pub hosts_of : Text → Option Network → Result (List Text)
hosts_of spec none = ok (spec ∷ [])
hosts_of spec (some net) =
    if net.num_addresses == 1
    then ok (net.network_address ∷ [])
    else if ltb (max_hosts + 2) net.num_addresses
    then err value_error
    else ok net.hosts

unfoldable pub expand_targets : Addressing → Text → Result (List Text)
unfolding hosts_of
expand_targets addressing raw = let spec = strip raw in hosts_of spec (addressing.ip_network spec)

pub data Family : Type 0 where
  inet inet6 : Family

unfoldable pub family_of : Addressing → Text → Family
family_of addressing host = elim (addressing.ip_version host) [
  | none ↦ inet
  | some version ↦ if version == 6 then inet6 else inet
]

unfoldable pub is_ipv6 : Addressing → Text → Bool
unfolding family_of
is_ipv6 addressing host = elim (family_of addressing host) [ inet ↦ false | inet6 ↦ true ]

within : (n : ℕ) → ltb (max_hosts + 2) n ≡ false → n ≤ 65538
within n h = ground arith

-- Where the library enumerates no more hosts than a network has addresses, every text is expanded
-- to at most 65538 targets, or refused with ValueError.
pub expand_targets-bounded :
    (addressing : Addressing) (raw : Text)
    → ((spec : Text) (net : Network)
        → addressing.ip_network spec ≡ some net
        → length net.hosts ≤ net.num_addresses)
    → (expand_targets addressing raw ≡ err value_error)
      ⊎ ((targets : List Text) × (expand_targets addressing raw ≡ ok targets)
          × (length targets ≤ 65538))
unfolding expand_targets hosts_of
expand_targets-bounded addressing raw few =
    elim (Option-cases (addressing.ip_network (strip raw))) [
      | inl name ↦ rw name (inr (_, refl, omega arith))
      | inr (net, read) ↦ rw read (elim (Bool-cases (net.num_addresses == 1)) [
        | inl one ↦ rw one (inr (_, refl, omega arith))
        | inr many ↦ rw many (elim (Bool-cases (ltb (max_hosts + 2) net.num_addresses)) [
          | inl h ↦ rw h (inl refl)
          | inr h ↦ rw h (
              inr (
                net.hosts,
                refl,
                omega (arith, few (strip raw) net read, within net.num_addresses h),
              ))
        ])
      ])
    ]
