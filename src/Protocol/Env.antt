-- ===== src/Protocol/Env.antt =====
-- What a session takes from outside the modelled code: the C library's number formats, the answers
-- of the file system, and the parts of the program that stand in other files. Where a theorem needs
-- more of a record than its type says, a hypothesis names it.
use binkd.Base.{ℕ, Bool, Option, Bytes, List}
use binkd.Ftn.{FtnAddr}
use binkd.Ftnq.{Ftnq}
use binkd.Protocol.State.{File, Tfile, State}

pub record Env : Type 0 where
  pub wrap : ℕ  -- the modulus of `unsigned long`
  pub strtoumax : Bytes → ℕ
  pub safe_atol : Bytes → ℕ
  pub print_umax : ℕ → Bytes  -- `%ju`
  pub status_ok : Bytes → FtnAddr → Bool  -- the result of `ND_set_status`
  pub fopen_rb : Bytes → Option Bytes  -- the content of a file that opens
  pub fseek_ok : Tfile → ℕ → Bool
  pub fwrite_ok : Tfile → Bytes → Bool  -- `fwrite` and `fflush` of a block
  pub fclose_ok : Tfile → Bool
  pub inb_done_ok : Tfile → State → Bool
  pub ispkt : Bytes → Bool
  pub pmatch_ncase : Bytes → Bytes → Bool
  pub inb_test : Tfile → Bytes → Bool  -- the file is in the inbound directory already
  pub inb_fopen : State → Option File
  pub share_pkt : State → Bytes → Bytes  -- the pkt header of a shared address
  pub words : Bytes → List Bytes  -- `getwordx (s, 1, 0)`, `getwordx (s, 2, 0)`, ...
  pub ibox : FtnAddr → Option Bytes  -- the inbound directory of a node
  pub inb_has_partials : Bytes → Bool
  pub q_scan_addrs : State → List Ftnq
  pub trf_text : List Ftnq → Bytes  -- the sizes of the queue, in a message
  pub md_build_digest : Bytes → Bytes → Bytes  -- of a password and a challenge
  pub stale : ℕ → Bytes  -- what the output buffer holds behind the bytes in use
  pub exiting : Bool  -- `binkd_exit`

-- `struct skipchain`: the bits of `atype`, the mask, the least size (none if negative), and whether
-- the remote is told that the file is here.
pub record SkipRule : Type 0 where
  pub for_listed : Bool
  pub for_unlisted : Bool
  pub for_protected : Bool
  pub for_unprotected : Bool
  pub mask : Bytes
  pub size : Option ℕ
  pub destr : Bool

-- The settings of `BINKD_CONFIG` that a session reads.
pub record Config : Type 0 where
  pub oblksize : ℕ
  pub send_if_pwd : Bool
  pub prescan : Bool
  pub skipmask : List SkipRule
  pub inbound : Bytes
  pub inbound_nonsecure : Bytes
