-- ===== src/Tests/Addresses.antt =====
-- ftnaddr.c: the theorems on addresses at concrete ones.
use binkd.Base.{bytes_eq, false, [], some, codes, arith, ◌≡◌, ◌≤◌, ◌<◌, ◌↔◌, refl, length}
use binkd.Base.Int.{pos}
use binkd.Text.{isalpha, isdigit}
use binkd.Ftn.{FtnAddr}
use binkd.Ftn.Compare.{ftnaddress_cmp, ftnaddress_cmp_zero, SameAddress}
use binkd.Ftn.Parse.{parse_ftnaddress, domain_name}
use binkd.Ftn.Print.{xftnaddress_to_str, zone_ext, zone_ext_fits}
use binkd.Ftn.RoundTrip.{whole, parse_ftnaddress-xftnaddress_to_str}

abbrev aka : FtnAddr
aka = whole 2 5047 13 1 (codes "net")

abbrev loud : FtnAddr
loud = whole 2 5047 13 1 (codes "Net")

aka_is_cmp : ftnaddress_cmp aka loud ≡ pos 0
unfolding ftnaddress_cmp
aka_is_cmp = refl

ftnaddress_cmp_zero_example : (ftnaddress_cmp aka loud ≡ pos 0) ↔ SameAddress aka loud
ftnaddress_cmp_zero_example =
    ftnaddress_cmp_zero aka loud (omega arith, (omega arith, (omega arith, tt)))
      (omega arith, (omega arith, (omega arith, tt)))

net_name : domain_name (codes "net") [] ≡ codes "net"
unfolding domain_name
net_name = refl

parse_ftnaddress-xftnaddress_to_str_example :
    parse_ftnaddress (xftnaddress_to_str (whole 2 5047 13 1 (codes "net")) false) []
    ≡ some (whole 2 5047 13 1 (codes "net"))
unfolding isalpha isdigit
parse_ftnaddress-xftnaddress_to_str_example =
    parse_ftnaddress-xftnaddress_to_str [] 2 5047 13 1 (codes "net") false (omega arith)
      (omega arith) (omega arith) (omega arith)
      (refl, (refl, (refl, (refl, tt))), omega arith, net_name)

xftnaddress_to_str_run : xftnaddress_to_str aka false ≡ codes "2:5047/13.1@net"
unfolding xftnaddress_to_str bytes_eq
xftnaddress_to_str_run = refl

zone_ext_fits_example : (length (zone_ext (pos 4096) (pos 2)) ≤ 4) ↔ (4096 < 4096)
zone_ext_fits_example = zone_ext_fits 4096 (pos 2) (λ e. cc (e)) (omega arith)
