-- ===== src/Busy/Paths.antt =====
-- bsy.c: addresses that compare as equal have one flag file.
use binkd.Base.{
  true, List, [], ◌∷◌, ◌++◌, Option, none, some, Bytes, bytes_eq, ◌≡◌, refl, ap, sym, ◌∙◌, map,
}
use binkd.Base.Int.{pos, eqb_ℤ_iff}
use binkd.Text.{tolower, same_letters}
use binkd.Ftn.{FtnAddr, fa_isnull}
use binkd.Ftn.Compare.{same_address, SameAddress, IsCString, ftnaddress_cmp, ftnaddress_cmp_zero}
use binkd.Ftn.Domain.{FtnDomain, get_domain_info}
use binkd.Ftn.Print.{ftnaddress_to_filename, zone_ext, base_name, point_dir}
use binkd.Busy.{BsyFlag, BusyConfig, with_flag, flag_path}

-- A domain is found whatever the case of the letters.
domain_same :
    (a b : Bytes) (domains : List FtnDomain)
    → map tolower a ≡ map tolower b
    → get_domain_info a domains ≡ get_domain_info b domains
unfolding get_domain_info same_letters
domain_same a b [] e = refl
domain_same a b (d ∷ domains) e = rw (e, domain_same a b domains e) refl

numbers_same : (a b : FtnAddr) → SameAddress a b → record b { domain = a.domain } ≡ a
numbers_same a b (d, z, net, node, p) = cc (z, net, node, p)

filename_same :
    (a b : FtnAddr) (domains : List FtnDomain)
    → SameAddress a b
    → ftnaddress_to_filename a domains ≡ ftnaddress_to_filename b domains
unfolding ftnaddress_to_filename
filename_same a b domains e =
    let c : FtnAddr = record b { domain = a.domain } in
    let at : Option FtnDomain → Bytes = λ o. elim o as (λ x. Bytes) [
      | none ↦ []
      | some d ↦
          d.path
          ++ b'/' ∷ d.dir
          ++ zone_ext b.z d.z
          ++ b'/' ∷ base_name b.net b.node
          ++ point_dir b.p
    ] in
    sym (ap (λ (f : FtnAddr). ftnaddress_to_filename f domains) (numbers_same a b e))
    ∙ ap at (domain_same a.domain b.domain domains e.0)

pub path_same :
    (config : BusyConfig) (a b : FtnAddr) (bt : BsyFlag)
    → SameAddress a b
    → flag_path config a bt ≡ flag_path config b bt
unfolding flag_path
path_same config a b bt e = ap (with_flag bt) (filename_same a b config.domains e)

empty_same : (a b : Bytes) → map tolower a ≡ map tolower b → bytes_eq a [] ≡ bytes_eq b []
unfolding bytes_eq
empty_same [] [] e = refl
empty_same [] (c ∷ b) e = absurd (cc (e))
empty_same (c ∷ a) [] e = absurd (cc (e))
empty_same (c ∷ a) (d ∷ b) e = refl

pub isnull_same : (a b : FtnAddr) → SameAddress a b → fa_isnull a ≡ fa_isnull b
unfolding fa_isnull
isnull_same a b (d, z, net, node, p) = rw (empty_same a.domain b.domain d, z, net, node, p) refl

pub same_address-SameAddress :
    (a b : FtnAddr)
    → IsCString a.domain
    → IsCString b.domain
    → same_address a b ≡ true
    → SameAddress a b
unfolding same_address
same_address-SameAddress a b h k e =
    (ftnaddress_cmp_zero a b h k).0 ((eqb_ℤ_iff (ftnaddress_cmp a b) (pos 0)).0 e)
