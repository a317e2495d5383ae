-- ===== src/Protocol/Nul.antt =====
-- protocol.c: the handler of M_NUL.
pub mod Options
use binkd.Base.{
  ℕ, suc, ◌+◌, Bool, true, false, not, ◌&&◌, ◌||◌, List, [], ◌∷◌, Option, none, some, Bytes, codes,
  bytes_eq, ◌==◌, if◌then◌else◌,
}
use binkd.Text.{strquote, isalpha}
use binkd.Protocol.State.{State, NrFlag, NdFlag}

-- What the handler takes from outside: `getwordx`, `atoi`, `MD_getChallenge`, and whether the digest
-- is allowed for the node that is called.
pub record Greetings : Type 0 where
  pub words : Bytes → List Bytes
  pub atoi : Bytes → ℕ
  pub md_get_challenge : Bytes → Option Bytes
  pub may_md5 : Bool

-- `!memcmp (s, prefix, strlen (prefix))`, with the text behind the prefix.
unfoldable pub after_prefix : Bytes → Bytes → Option Bytes
after_prefix [] s = some s
after_prefix (c ∷ prefix) [] = none
after_prefix (c ∷ prefix) (d ∷ s) = if c == d then after_prefix prefix s else none

abbrev pub has_prefix : Bytes → Bytes → Bool
has_prefix prefix s = elim (after_prefix prefix s) as (λ x. Bool) [
  | none ↦ false
  | some rest ↦ true
]

-- `strstr`, with the text behind the first occurrence.
unfoldable pub strstr : Bytes → Bytes → Option Bytes
unfolding after_prefix
strstr word [] = none
strstr word (c ∷ s) =
    let later = strstr word s in
    elim (after_prefix word (c ∷ s)) as (λ x. Option Bytes) [ none ↦ later | some rest ↦ some rest ]

-- A letter and '/' follow "binkd/0.9.3".
abbrev letter_version : Option Bytes → Bool
letter_version (some (c ∷ d ∷ s)) = isalpha c && d == b'/'
letter_version _ = false

-- The versions with the NR bug.
unfoldable pub has_nr_bug : Bytes → Bool
unfolding after_prefix isalpha
has_nr_bug s =
    has_prefix (codes "binkd/0.9/") s
    || has_prefix (codes "binkd/0.9.1/") s
    || has_prefix (codes "binkd/0.9.2/") s
    || has_prefix (codes "binkd/0.9.3/") s
    || letter_version (after_prefix (codes "binkd/0.9.3") s)
    || has_prefix (codes "binkd/0.9.4/") s

-- The protocol's name with its version is in the text; else the text is not one of M_NUL VER.
unfoldable pub nul_ver : Greetings → Bytes → State → State
unfolding strstr has_nr_bug
nul_ver io text s = elim (strstr (codes "binkp/") text) as (λ x. State) [
  | none ↦ s
  | some a ↦ elim (strstr (codes ".") a) as (λ x. State) [
    | none ↦ s
    | some b ↦
        let t = record s { major = io.atoi a; minor = io.atoi b } in
        if has_nr_bug text then record t { buggy_nr = true } else t
  ]
]

-- One option: every test of the loop's body.
unfoldable pub opt_nr : Bytes → State → State
unfolding bytes_eq
opt_nr w s =
    if bytes_eq w (codes "NR") then record s { nr_flag = record s.nr_flag { we_nr = true } } else s

unfoldable pub opt_nd : Bytes → State → State
unfolding bytes_eq
opt_nd w s =
    if bytes_eq w (codes "ND") then record s { nd_flag = record s.nd_flag { we_nd = true } } else s

unfoldable pub opt_nda : Bytes → State → State
unfolding bytes_eq
opt_nda w s =
    if bytes_eq w (codes "NDA")
    then record s { nd_flag = record s.nd_flag { can_nda = true } }
    else s

unfoldable pub opt_crypt : Bytes → State → State
unfolding bytes_eq
opt_crypt w s =
    if bytes_eq w (codes "CRYPT")
    then record s { crypt_flag = record s.crypt_flag { they_crypt = true } }
    else s

unfoldable pub opt_cram : Greetings → Bytes → State → State
unfolding after_prefix
opt_cram io w s =
    if has_prefix (codes "CRAM-") w && io.may_md5
    then record s { md_challenge = io.md_get_challenge w }
    else s

unfoldable pub opt_word : Greetings → Bytes → State → State
unfolding opt_nr opt_nd opt_nda opt_crypt opt_cram
opt_word io w s = opt_cram io w (opt_crypt w (opt_nda w (opt_nd w (opt_nr w s))))

unfoldable pub opt_words : Greetings → List Bytes → State → State
unfolding opt_word
opt_words io [] s = s
opt_words io (w ∷ ws) s = opt_words io ws (opt_word io w s)

-- The texts other than those of VER; only OPT and FREQ change what is modelled.
unfoldable pub nul_other : Greetings → Bytes → State → State
unfolding after_prefix opt_words
nul_other io text s = elim (after_prefix (codes "OPT ") text) as (λ x. State) [
  | some options ↦ opt_words io (io.words options) s
  | none ↦ if has_prefix (codes "FREQ") text then record s { delay_eob = s.delay_eob + 1 } else s
]

unfoldable pub nul_text : Greetings → Bytes → State → State
unfolding nul_ver nul_other
nul_text io text s = elim (after_prefix (codes "VER ") text) as (λ x. State) [
  | some version ↦ nul_ver io version s
  | none ↦ nul_other io text s
]

unfoldable pub nul : Greetings → Bytes → State → State × Bool
unfolding strquote nul_text
nul io buf s = (nul_text io (strquote true false buf) s, true)
