-- ===== src/Ftn/Parse.antt =====
-- ftnaddr.c: the parser of addresses. A number is below 2 ^ 31.
use binkd.Base.{
  ℕ, zero, suc, ◌+◌, ◌-◌, ◌*◌, Bool, true, false, ◌&&◌, ◌||◌, not, ◌>>=◌, List, [], ◌∷◌, Option,
  none, some, Bytes, bytes_eq, ◌==◌, if◌then◌else◌,
}
use binkd.Base.Int.{pos, eqb_ℤ}
use binkd.Text.{isdigit, isalpha}
use binkd.Ftn.{FtnAddr, fa_zero, is_unknown}
use binkd.Ftn.Domain.{FtnDomain, get_domain_info, real_name}

-- `TOKEN`, with its `token_type`.
pub data Token : Type 0 where
  t_null : Token
  t_sep t_num : ℕ → Token
  t_word : Bytes → Token

-- `strchr (":/.@", c)`
abbrev pub is_sep : ℕ → Bool
is_sep c = c == b':' || c == b'/' || c == b'.' || c == b'@'

abbrev pub is_word : ℕ → Bool
is_word c = c == b'.' || c == b'-' || c == b'_' || isalpha c || isdigit c

unfoldable pub read_num : ℕ → Bytes → ℕ × Bytes
read_num n [] = (n, [])
read_num n (c ∷ s) =
    let next = read_num (n * 10 + (c - b'0')) s in if isdigit c then next else (n, c ∷ s)

-- At most `room` bytes.
unfoldable pub read_word : ℕ → Bytes → Bytes × Bytes
read_word zero s = ([], s)
read_word (suc room) [] = ([], [])
read_word (suc room) (c ∷ s) =
    let next = read_word room s in if is_word c then (c ∷ next.0, next.1) else ([], c ∷ s)

abbrev pub max_domain : ℕ
max_domain = 32

abbrev num_token : ℕ × Bytes → Option (Token × Bytes)
num_token r = some (t_num r.0, r.1)

abbrev word_token : Bytes × Bytes → Option (Token × Bytes)
word_token r = some (t_word r.0, r.1)

-- The next token with the text behind it; none for a byte that starts no token.
unfoldable pub gettoken : Bytes → Option (Token × Bytes)
unfolding read_num read_word isdigit isalpha
gettoken [] = some (t_null, [])
gettoken (c ∷ s) =
    if is_sep c
    then some (t_sep c, s)
    else if isdigit c
    then num_token (read_num 0 (c ∷ s))
    else if isalpha c
    then word_token (read_word max_domain (c ∷ s))
    else none

abbrev pub add_token : Token → Option (List Token) → Option (List Token)
add_token t none = none
add_token t (some ts) = some (t ∷ ts)

-- `token[0]` up to `token[n - 1]`
unfoldable pub gettokens : ℕ → Bytes → Option (List Token)
unfolding gettoken
gettokens zero s = some []
gettokens (suc n) s = elim (gettoken s) [
  | none ↦ none
  | some (t, rest) ↦ add_token t (gettokens n rest)
]

-- What is parsed so far, and the tokens from `i`.
abbrev Parsed : Type 0
Parsed = FtnAddr × List Token

unfoldable pub parse_zone : Parsed → Parsed
parse_zone (fa, t_num n ∷ t_sep c ∷ ts) =
    if c == b':' then (record fa { z = pos n }, ts) else (fa, t_num n ∷ t_sep c ∷ ts)
parse_zone (fa, ts) = (fa, ts)

unfoldable pub parse_net : Parsed → Parsed
parse_net (fa, t_num n ∷ t_sep c ∷ ts) =
    if c == b'/' then (record fa { net = pos n }, t_sep c ∷ ts) else (fa, t_num n ∷ t_sep c ∷ ts)
parse_net (fa, ts) = (fa, ts)

unfoldable pub skip_slash : Parsed → Parsed
skip_slash (fa, t_sep c ∷ ts) = if c == b'/' then (fa, ts) else (fa, t_sep c ∷ ts)
skip_slash (fa, ts) = (fa, ts)

unfoldable pub parse_node : Parsed → Option Parsed
parse_node (fa, t_num n ∷ ts) = some (record fa { node = pos n }, ts)
parse_node (fa, t_sep c ∷ ts) = if c == b'.' then some (fa, t_sep c ∷ ts) else none
parse_node _ = none

unfoldable pub parse_point : Parsed → Option Parsed
parse_point (fa, t_sep c ∷ t_num n ∷ ts) =
    if c == b'.' then some (record fa { p = pos n }, ts) else some (fa, t_sep c ∷ t_num n ∷ ts)
parse_point (fa, t_sep c ∷ ts) = if c == b'.' then none else some (fa, t_sep c ∷ ts)
parse_point (fa, ts) = some (fa, ts)

unfoldable pub domain_name : Bytes → List FtnDomain → Bytes
unfolding get_domain_info
domain_name word domains = elim (get_domain_info word domains) [
  | none ↦ word
  | some d ↦ real_name d
]

unfoldable pub parse_domain : List FtnDomain → Parsed → Option Parsed
unfolding domain_name
parse_domain domains (fa, t_sep c ∷ t_word w ∷ ts) =
    if c == b'@'
    then some (record fa { domain = domain_name w domains }, ts)
    else some (fa, t_sep c ∷ t_word w ∷ ts)
parse_domain domains (fa, t_sep c ∷ ts) = if c == b'@' then none else some (fa, t_sep c ∷ ts)
parse_domain domains (fa, ts) = some (fa, ts)

abbrev is_end : List Token → Bool
is_end (t_null ∷ ts) = true
is_end _ = false

-- The numbers in front of a known one are known.
abbrev is_complete : FtnAddr → Bool
is_complete fa =
    not (is_unknown fa.node && is_unknown fa.p)
    && not (not (bytes_eq fa.domain []) && is_unknown fa.z)
    && not (not (is_unknown fa.z) && is_unknown fa.net)
    && not (not (is_unknown fa.net) && is_unknown fa.node)

unfoldable pub parse_end : Parsed → Option FtnAddr
unfolding eqb_ℤ
parse_end (fa, ts) =
    if is_end ts && is_complete fa
    then some (if is_unknown fa.p then record fa { p = pos 0 } else fa)
    else none

unfoldable pub parse_tokens : List FtnDomain → List Token → Option FtnAddr
unfolding parse_zone parse_net skip_slash parse_node parse_point parse_domain parse_end
parse_tokens domains ts = do
  named ← parse_node (skip_slash (parse_net (parse_zone (fa_zero, ts))))
  pointed ← parse_point named
  whole ← parse_domain domains pointed
  parse_end whole

-- The address, where the result of the function is 1.
unfoldable pub parse_ftnaddress : Bytes → List FtnDomain → Option FtnAddr
unfolding gettokens parse_tokens
parse_ftnaddress s domains = do ts ← gettokens 10 s; parse_tokens domains ts
