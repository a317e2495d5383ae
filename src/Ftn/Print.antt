-- ===== src/Ftn/Print.antt =====
-- ftnaddr.c: the text of an address, its name in the DNS, and its file name in the outbound.
use binkd.Base.{
  ℕ, zero, suc, ◌+◌, ◌-◌, ◌/◌, ◌%◌, ◌^◌, Bool, not, ◌||◌, List, [], ◌∷◌, ◌++◌, Option, none, some,
  Bytes, codes, bytes_eq, ltb, leb, length, length-append, false, ◌&&◌, ◌≤◌, ◌<◌, ◌↔◌, ◌≢◌, ◌≡◌,
  arith, if◌then◌else◌,
}
use binkd.Base.Int.{ℤ, pos, negsuc, eqb_ℤ, eqb_ℤ_iff}
use binkd.Text.{hex_digit}
use binkd.Ftn.{FtnAddr, is_unknown}
use binkd.Ftn.Domain.{FtnDomain, get_domain_info}

-- The decimal digits of a number below 10 ^ rounds.
unfoldable pub print_dec : ℕ → ℕ → Bytes
print_dec zero n = []
print_dec (suc rounds) n =
    let more = print_dec rounds (n / 10) in (if ltb n 10 then [] else more) ++ (n % 10 + b'0') ∷ []

-- `%i` of a number from -(2 ^ 31) to 2 ^ 31 - 1: ten digits hold it.
unfoldable pub print_int : ℤ → Bytes
unfolding print_dec
print_int (pos n) = print_dec 10 n
print_int (negsuc n) = b'-' ∷ print_dec 10 (suc n)

abbrev unless : Bool → Bytes → Bytes
unless c s = if c then [] else s

unfoldable pub xftnaddress_to_str : FtnAddr → Bool → Bytes
unfolding print_int eqb_ℤ
xftnaddress_to_str fa force_point =
    unless (is_unknown fa.z) (print_int fa.z ++ b':' ∷ [])
    ++ unless (is_unknown fa.net) (print_int fa.net)
    ++ unless (is_unknown fa.node) (b'/' ∷ print_int fa.node)
    ++ (if not (eqb_ℤ fa.p (pos 0)) || is_unknown fa.node || force_point
        then b'.' ∷ print_int fa.p
        else [])
    ++ unless (bytes_eq fa.domain []) (b'@' ∷ fa.domain)

abbrev root_domain : Option FtnDomain → Bytes → Bytes
root_domain none domain = domain
root_domain (some d) domain = elim d.idomain [ none ↦ domain | some root ↦ root ]

-- The whole name, which fits into the buffer.
unfoldable pub ftnaddress_to_domain : FtnAddr → List FtnDomain → Bytes → Bytes
unfolding print_int get_domain_info eqb_ℤ
ftnaddress_to_domain fa domains domain =
    unless (eqb_ℤ fa.p (pos 0)) (b'p' ∷ print_int fa.p ++ b'.' ∷ [])
    ++ b'f' ∷ print_int fa.node
    ++ b'.' ∷ b'n' ∷ print_int fa.net
    ++ b'.' ∷ b'z' ∷ print_int fa.z
    ++ b'.' ∷ root_domain (get_domain_info fa.domain domains) domain

-- `%0*x` of a number below 16 ^ rounds, with the least width.
unfoldable pub print_hex : ℕ → ℕ → ℕ → Bytes
unfolding hex_digit
print_hex zero width n = []
print_hex (suc rounds) width n =
    let more = print_hex rounds (width - 1) (n / 16) in
    (if ltb n 16 && leb width 1 then [] else more) ++ hex_digit (n % 16) ∷ []

-- An `int` that is printed as an unsigned one.
unfoldable pub as_unsigned : ℤ → ℕ
as_unsigned (pos n) = n
as_unsigned (negsuc n) = 2 ^ 32 - 1 - n

-- The content of `ext`, which has room for 4 bytes and the terminator.
unfoldable pub zone_ext : ℤ → ℤ → Bytes
unfolding print_hex as_unsigned eqb_ℤ
zone_ext z default_zone = unless (eqb_ℤ z default_zone) (b'.' ∷ print_hex 8 3 (as_unsigned z))

-- The content of `pnt`.
unfoldable pub point_dir : ℤ → Bytes
unfolding print_hex as_unsigned eqb_ℤ
point_dir p = unless (eqb_ℤ p (pos 0)) (codes ".pnt/" ++ print_hex 8 8 (as_unsigned p))

unfoldable pub base_name : ℤ → ℤ → Bytes
unfolding print_hex as_unsigned
base_name net node = print_hex 8 4 (as_unsigned net) ++ print_hex 8 4 (as_unsigned node)

-- The name without its extension, in fewer than MAXPATHLEN bytes; empty for an unknown domain.
unfoldable pub ftnaddress_to_filename : FtnAddr → List FtnDomain → Bytes
unfolding get_domain_info zone_ext point_dir base_name
ftnaddress_to_filename fa domains = elim (get_domain_info fa.domain domains) [
  | none ↦ []
  | some d ↦
      d.path
      ++ b'/' ∷ d.dir
      ++ zone_ext fa.z d.z
      ++ b'/' ∷ base_name fa.net fa.node
      ++ point_dir fa.p
]

length-print_hex :
    (rounds width n : ℕ)
    → length (print_hex (suc rounds) width n)
      ≡ suc (if ltb n 16 && leb width 1 then 0 else length (print_hex rounds (width - 1) (n / 16)))
unfolding print_hex
length-print_hex rounds width n =
    ground (arith, length-append (print_hex rounds (width - 1) (n / 16)) (hex_digit (n % 16) ∷ []))

eqb_ℤ_other : (a b : ℤ) → a ≢ b → eqb_ℤ a b ≡ false
eqb_ℤ_other a b h = ground (arith, eqb_ℤ_iff a b)

-- The zone of an address other than the default one fits into `ext` exactly where it is less than
-- 4096.
pub zone_ext_fits :
    (n : ℕ) (default_zone : ℤ)
    → pos n ≢ default_zone
    → n < 2 ^ 31
    → (length (zone_ext (pos n) default_zone) ≤ 4) ↔ (n < 4096)
unfolding zone_ext as_unsigned
zone_ext_fits n default_zone h k = rw (eqb_ℤ_other (pos n) default_zone h) (
    ground (
      arith,
      length-print_hex 7 3 n,
      length-print_hex 6 2 (n / 16),
      length-print_hex 5 1 (n / 16 / 16),
      length-print_hex 4 0 (n / 16 / 16 / 16),
    ))
