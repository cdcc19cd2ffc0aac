-- ===== src/Scan/Hosts/Resolve.antt =====
-- Which of the addresses of a host is probed.
use pyscan.Prelude.{
  ◌≡◌, refl, ap, ◌∙◌, ◌≢◌, Bool, true, false, not, Option, none, some, List, [], ◌∷◌, Text,
  if◌then◌else◌,
}
use pyscan.Scan.Targets.{Family, inet6, inet}
use pyscan.Scan.Hosts.{
  get_address, resolve, first_address, set_addresses, inet6, set_address, same_family, inet,
  HostAddress, wanted_family, either_text,
}
use pyscan.Scan.Service.{either_text}

abbrev pub preferred : {A : Type 0} → Option A → Option A → Option A
preferred (some a) fallback = some a
preferred none fallback = fallback

-- The last address of a family that `getaddrinfo` answers.
abbrev pub latest : List HostAddress → Family → Option Text
latest [] family = none
latest ((other, text) ∷ rest) family =
    preferred (latest rest family) (if same_family other family then some text else none)

other_family : Family → Family
other_family inet = inet6
other_family inet6 = inet

get_address-set_address :
    (so_far : List HostAddress) (family : Family) (text : Text) (wanted : Family)
    → get_address (set_address so_far family text) wanted
      ≡ (if same_family family wanted then some text else get_address so_far wanted)
unfolding get_address set_address same_family
get_address-set_address [] family text wanted = refl
get_address-set_address ((inet, old) ∷ rest) inet text inet = refl
get_address-set_address ((inet, old) ∷ rest) inet text inet6 = refl
get_address-set_address ((inet, old) ∷ rest) inet6 text inet = refl
get_address-set_address ((inet, old) ∷ rest) inet6 text inet6 =
    get_address-set_address rest inet6 text inet6
get_address-set_address ((inet6, old) ∷ rest) inet text inet =
    get_address-set_address rest inet text inet
get_address-set_address ((inet6, old) ∷ rest) inet text inet6 = refl
get_address-set_address ((inet6, old) ∷ rest) inet6 text inet = refl
get_address-set_address ((inet6, old) ∷ rest) inet6 text inet6 = refl

preferred-none : (a : Option Text) → preferred a none ≡ a
preferred-none none = refl
preferred-none (some a) = refl

preferred_test :
    (a : Option Text) (t : Bool) (text : Text) (fallback : Option Text)
    → preferred a (if t then some text else fallback)
      ≡ preferred (preferred a (if t then some text else none)) fallback
preferred_test (some u) t text fallback = refl
preferred_test none true text fallback = refl
preferred_test none false text fallback = refl

get_address-set_addresses :
    (so_far infos : List HostAddress) (wanted : Family)
    → get_address (set_addresses so_far infos) wanted
      ≡ preferred (latest infos wanted) (get_address so_far wanted)
unfolding set_addresses
get_address-set_addresses so_far [] wanted = refl
get_address-set_addresses so_far ((family, text) ∷ infos) wanted =
    get_address-set_addresses (set_address so_far family text) infos wanted
    ∙ ap (preferred (latest infos wanted)) (get_address-set_address so_far family text wanted)
    ∙ preferred_test (latest infos wanted) (same_family family wanted) text
        (get_address so_far wanted)

-- Where no address is of the wanted family, the first is of the other.
first_address_lem :
    (addresses : List HostAddress) (wanted : Family)
    → get_address addresses wanted ≡ none
    → first_address addresses ≡ get_address addresses (other_family wanted)
unfolding first_address get_address same_family other_family
first_address_lem [] wanted h = refl
first_address_lem ((inet, text) ∷ rest) inet h = cc
first_address_lem ((inet, text) ∷ rest) inet6 h = refl
first_address_lem ((inet6, text) ∷ rest) inet h = refl
first_address_lem ((inet6, text) ∷ rest) inet6 h = cc

get_address-latest :
    (infos : List HostAddress) (wanted : Family)
    → get_address (set_addresses [] infos) wanted ≡ latest infos wanted
unfolding get_address
get_address-latest infos wanted =
    get_address-set_addresses [] infos wanted ∙ preferred-none (latest infos wanted)

other-wanted_family :
    (prefer_ipv6 : Bool)
    → other_family (wanted_family prefer_ipv6) ≡ wanted_family (not prefer_ipv6)
unfolding other_family wanted_family
other-wanted_family true = refl
other-wanted_family false = refl

chosen_lem :
    (addresses : List HostAddress) (wanted : Family) (found other : Option Text)
    → get_address addresses wanted ≡ found
    → get_address addresses (other_family wanted) ≡ other
    → found ≢ some []
    → either_text (get_address addresses wanted) (first_address addresses) ≡ preferred found other
unfolding either_text
chosen_lem addresses wanted none other h k named = rw h (first_address_lem addresses wanted h ∙ k)
chosen_lem addresses wanted (some []) other h k named = absurd (named refl)
chosen_lem addresses wanted (some (c ∷ t)) other h k named = rw h refl

-- The address that is probed is the last one that the resolver answers of the family asked for, and
-- where it answers none of that family, the last one of the other; where it
-- answers none at all, there is no address. The last one of the family is not the empty text.
pub resolve_lem :
    (infos : List HostAddress) (prefer_ipv6 : Bool)
    → latest infos (wanted_family prefer_ipv6) ≢ some []
    → resolve (some infos) prefer_ipv6
      ≡ preferred
          (latest infos (wanted_family prefer_ipv6))
          (latest infos (wanted_family (not prefer_ipv6)))
unfolding resolve
resolve_lem infos prefer_ipv6 named =
    chosen_lem (set_addresses [] infos) (wanted_family prefer_ipv6) _ _
      (get_address-latest infos (wanted_family prefer_ipv6))
      (ap (get_address (set_addresses [] infos)) (other-wanted_family prefer_ipv6)
        ∙ get_address-latest infos (wanted_family (not prefer_ipv6)))
      named
