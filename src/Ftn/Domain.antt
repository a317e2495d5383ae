-- ===== src/Ftn/Domain.antt =====
-- ftndom.c, ftnaddr.c: the domains of the configuration, and the completion of an address.
use binkd.Base.{
  Bool, true, false, ◌&&◌, List, [], ◌∷◌, Option, none, some, Bytes, bytes_eq, if◌then◌else◌,
}
use binkd.Base.Int.{ℤ, eqb_ℤ}
use binkd.Text.{same_letters}
use binkd.Ftn.{FtnAddr, is_unknown}

-- `FTN_DOMAIN`; `z` is the default zone, and `alias4` the name and the default zone of the domain
-- that this one is an alias for.
pub record FtnDomain : Type 0 where
  pub name : Bytes
  pub path : Bytes
  pub dir : Bytes
  pub z : ℤ
  pub idomain : Option Bytes
  pub alias4 : Option (Bytes × ℤ)

unfoldable pub get_domain_info : Bytes → List FtnDomain → Option FtnDomain
unfolding same_letters
get_domain_info domain_name [] = none
get_domain_info domain_name (curr ∷ domains) =
    let rest = get_domain_info domain_name domains in
    if same_letters curr.name domain_name then some curr else rest

-- The name of the domain, or of the one that it is an alias for.
abbrev pub real_name : FtnDomain → Bytes
real_name d = elim d.alias4 [ none ↦ d.name | some (name, z) ↦ name ]

abbrev pub real_zone : FtnDomain → ℤ
real_zone d = elim d.alias4 [ none ↦ d.z | some (name, z) ↦ z ]

abbrev is_real : FtnDomain → Bool
is_real d = elim d.alias4 [ none ↦ true | some a ↦ false ]

unfoldable pub zone_domain : ℤ → List FtnDomain → Option Bytes
unfolding eqb_ℤ
zone_domain zone [] = none
zone_domain zone (curr ∷ domains) =
    let rest = zone_domain zone domains in
    if is_real curr && eqb_ℤ curr.z zone then some curr.name else rest

unfoldable pub zone_aka : ℤ → List FtnAddr → Option Bytes
unfolding eqb_ℤ
zone_aka zone [] = none
zone_aka zone (aka ∷ akas) =
    let rest = zone_aka zone akas in if eqb_ℤ zone aka.z then some aka.domain else rest

-- At least one domain is defined; without one there is no answer here.
unfoldable pub get_matched_domain : ℤ → List FtnAddr → List FtnDomain → Bytes
unfolding zone_domain zone_aka
get_matched_domain zone akas domains = elim (zone_domain zone domains) [
  | some name ↦ name
  | none ↦ elim (zone_aka zone akas) [
    | some name ↦ name
    | none ↦ elim akas [
      | aka ∷ rest ↦ aka.domain
      | [] ↦ elim domains [ [] ↦ [] | d ∷ rest ↦ d.name ]
    ]
  ]
]

abbrev known_or : ℤ → ℤ → ℤ
known_or n d = if is_unknown n then d else n

-- `main` is `pAddr[0]` and `akas` the addresses after it.
unfoldable pub exp_ftnaddress : FtnAddr → FtnAddr → List FtnAddr → List FtnDomain → FtnAddr
unfolding get_domain_info get_matched_domain eqb_ℤ
exp_ftnaddress fa main akas domains =
    let zone : ℤ = elim (get_domain_info fa.domain domains) [
      | none ↦ main.z
      | some d ↦ real_zone d
    ] in
    let z = known_or fa.z zone in
    let domain =
      if bytes_eq fa.domain [] then get_matched_domain z (main ∷ akas) domains else fa.domain in
    record fa {
      z = z;
      net = known_or fa.net main.net;
      node = known_or fa.node main.node;
      domain = domain;
    }
