-- ===== src/Ftn.antt =====
-- ftnaddr.h, btypes.h: FidoNet addresses.
pub mod Compare
pub mod Domain
pub mod Parse
pub mod Print
pub mod Tokens
pub mod RoundTrip
use binkd.Base.{Bytes, [], Bool, not, ◌&&◌, bytes_eq}
use binkd.Base.Int.{ℤ, minus_one, eqb_ℤ}

-- `FTN_ADDR`; -1 is an unknown number.
pub record FtnAddr : Type 0 where
  pub domain : Bytes
  pub z : ℤ
  pub net : ℤ
  pub node : ℤ
  pub p : ℤ

-- `FA_ZERO (fa)`
abbrev pub fa_zero : FtnAddr
fa_zero = record { domain = []; z = minus_one; net = minus_one; node = minus_one; p = minus_one }

-- `n == -1`
abbrev pub is_unknown : ℤ → Bool
is_unknown n = eqb_ℤ n minus_one

-- `is4D (fa)`
unfoldable pub is_4d : FtnAddr → Bool
is_4d fa =
    not (is_unknown fa.z)
    && not (is_unknown fa.node)
    && not (is_unknown fa.net)
    && not (is_unknown fa.p)

-- `is5D (fa)`
unfoldable pub is_5d : FtnAddr → Bool
unfolding is_4d
is_5d fa = is_4d fa && not (bytes_eq fa.domain [])

-- `FA_ISNULL (fa)`
unfoldable pub fa_isnull : FtnAddr → Bool
fa_isnull fa =
    bytes_eq fa.domain []
    && is_unknown fa.z
    && is_unknown fa.net
    && is_unknown fa.node
    && is_unknown fa.p
