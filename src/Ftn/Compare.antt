-- ===== src/Ftn/Compare.antt =====
-- ftnaddr.c, tools.c: the order of addresses. The bytes of a domain are compared as unsigned ones;
-- the program asks for no more than whether the result is 0.
use binkd.Base.{◌<◌, Bool, [], ◌∷◌, Bytes, map, All, ◌==◌, if◌then◌else◌, ◌≡◌, ◌↔◌, refl, arith}
use binkd.Base.Int.{ℤ, pos, negsuc, sub_ℕ, ◌-ℤ◌, eqb_ℤ, eqb_ℤ_iff}
use binkd.Text.{tolower}
use binkd.Ftn.{FtnAddr}

-- The bytes before the terminator of each string.
unfoldable pub o_stricmp : Bytes → Bytes → ℤ
unfolding tolower
o_stricmp [] [] = pos 0
o_stricmp [] (d ∷ t) = sub_ℕ 0 (tolower d)
o_stricmp (c ∷ s) [] = sub_ℕ (tolower c) 0
o_stricmp (c ∷ s) (d ∷ t) =
    let rest = o_stricmp s t in
    if tolower c == tolower d then rest else sub_ℕ (tolower c) (tolower d)

abbrev unless_zero : ℤ → ℤ → ℤ
unless_zero i rest = if eqb_ℤ i (pos 0) then rest else i

abbrev differ : ℤ → ℤ → ℤ → ℤ
differ a b rest = if eqb_ℤ a b then rest else a -ℤ b

-- Neither pointer is null.
unfoldable pub ftnaddress_cmp : FtnAddr → FtnAddr → ℤ
unfolding o_stricmp eqb_ℤ ◌-ℤ◌
ftnaddress_cmp a b =
    unless_zero (o_stricmp a.domain b.domain)
      (differ a.z b.z (differ a.net b.net (differ a.node b.node (differ a.p b.p (pos 0)))))

-- `!ftnaddress_cmp (a, b)`
unfoldable pub same_address : FtnAddr → FtnAddr → Bool
unfolding ftnaddress_cmp
same_address a b = eqb_ℤ (ftnaddress_cmp a b) (pos 0)

-- The content of a C string has no terminator in it.
abbrev pub IsCString : Bytes → Type 0
IsCString s = All (λ c. 0 < c) s

o_stricmp_zero :
    (s t : Bytes)
    → IsCString s
    → IsCString t
    → (o_stricmp s t ≡ pos 0) ↔ (map tolower s ≡ map tolower t)
unfolding o_stricmp tolower
o_stricmp_zero [] [] h k = ((λ e. refl), (λ e. refl))
o_stricmp_zero [] (d ∷ t) h k = ground arith
o_stricmp_zero (c ∷ s) [] h k = ground arith
o_stricmp_zero (c ∷ s) (d ∷ t) h k = ground (arith, o_stricmp_zero s t h.1 k.1)

-- The same numbers, and the same domain whatever the case of its letters.
abbrev pub SameAddress : FtnAddr → FtnAddr → Type 0
SameAddress a b =
    (map tolower a.domain ≡ map tolower b.domain)
    × (a.z ≡ b.z)
    × (a.net ≡ b.net)
    × (a.node ≡ b.node)
    × (a.p ≡ b.p)

differ_zero : (a b rest : ℤ) → (differ a b rest ≡ pos 0) ↔ ((a ≡ b) × (rest ≡ pos 0))
unfolding eqb_ℤ ◌-ℤ◌
differ_zero (pos a) (pos b) rest = ground arith
differ_zero (negsuc a) (negsuc b) rest = ground arith
differ_zero (pos a) (negsuc b) rest = ground arith
differ_zero (negsuc a) (pos b) rest = ground arith

unless_zero_zero : (i rest : ℤ) → (unless_zero i rest ≡ pos 0) ↔ ((i ≡ pos 0) × (rest ≡ pos 0))
unfolding eqb_ℤ
unless_zero_zero i rest = ground (arith, eqb_ℤ_iff i (pos 0))

-- ftnaddress_cmp is 0 exactly for two addresses with the same numbers, and with the same domain
-- but for the case of its letters, where both domains are C strings.
pub ftnaddress_cmp_zero :
    (a b : FtnAddr)
    → IsCString a.domain
    → IsCString b.domain
    → (ftnaddress_cmp a b ≡ pos 0) ↔ SameAddress a b
unfolding ftnaddress_cmp
ftnaddress_cmp_zero a b h k =
    let points = differ a.p b.p (pos 0) in
    let nodes = differ a.node b.node points in
    let nets = differ a.net b.net nodes in
    let zones = differ a.z b.z nets in
    let name_iff = o_stricmp_zero a.domain b.domain h k in
    let first = unless_zero_zero (o_stricmp a.domain b.domain) zones in
    let zone_iff = differ_zero a.z b.z nets in
    let net_iff = differ_zero a.net b.net nodes in
    let node_iff = differ_zero a.node b.node points in
    let point_iff = differ_zero a.p b.p (pos 0) in
    (
      λ e.
          let (d, zone_zero) = first.0 e in
          let (z, net_zero) = zone_iff.0 zone_zero in
          let (net, node_zero) = net_iff.0 net_zero in
          let (node, point_zero) = node_iff.0 node_zero in
          (name_iff.0 d, z, net, node, (point_iff.0 point_zero).0),
      λ e. first.1 (
        name_iff.1 e.0,
        zone_iff.1 (e.1, net_iff.1 (e.2, node_iff.1 (e.3, point_iff.1 (e.4, refl)))),
      ),
    )
