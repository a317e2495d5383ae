-- ===== src/Protocol/State.antt =====
-- protoco2.h, btypes.h and protocol.h: the state of a session. A flag word is a record of its bits,
-- a pointer that may be null is an `Option`, and an open stream is its content with the offset.
-- File sizes and offsets are numbers below 2 ^ 63, so that the casts to `boff_t` keep them; a time
-- is the pattern of a `time_t`.
use binkd.Base.{
  ℕ, ◌+◌, Bool, true, false, List, [], ◌∷◌, ◌++◌, Option, none, Bytes, take, drop, length,
}
use binkd.Base.Int.{ℤ, pos}
use binkd.Crypt.{Keys}
use binkd.Ftn.{FtnAddr}
use binkd.Ftnq.{Ftnq}

abbrev pub max_blksize : ℕ
max_blksize = 0x7fff

-- `t_msg`
abbrev pub m_nul : ℕ
m_nul = 0

abbrev pub m_adr : ℕ
m_adr = 1

abbrev pub m_pwd : ℕ
m_pwd = 2

abbrev pub m_file : ℕ
m_file = 3

abbrev pub m_ok : ℕ
m_ok = 4

abbrev pub m_eob : ℕ
m_eob = 5

abbrev pub m_got : ℕ
m_got = 6

abbrev pub m_err : ℕ
m_err = 7

abbrev pub m_bsy : ℕ
m_bsy = 8

abbrev pub m_get : ℕ
m_get = 9

abbrev pub m_skip : ℕ
m_skip = 10

abbrev pub m_max : ℕ
m_max = 10

-- An open `FILE *`.
pub record File : Type 0 where
  pub content : Bytes
  pub offset : ℕ

-- `fwrite` at the offset.
abbrev pub write_at : File → Bytes → File
write_at f block = record {
  content = take f.offset f.content ++ (block ++ drop (f.offset + length block) f.content);
  offset = f.offset + length block;
}

-- `TFILE`; `action` is a letter, 0 for none.
pub record Tfile : Type 0 where
  pub path : Bytes
  pub flo : Bytes
  pub netname : Bytes
  pub action : ℕ
  pub size : ℕ
  pub time : ℕ
  pub f : Option File
  pub fa : FtnAddr

-- `TF_ZERO`: all bytes 0, so the address is 0:0/0.0 with no domain.
abbrev pub tf_zero : Tfile
tf_zero = record {
  path = [];
  flo = [];
  netname = [];
  action = 0;
  size = 0;
  time = 0;
  f = none;
  fa = record { domain = []; z = pos 0; net = pos 0; node = pos 0; p = pos 0 };
}

-- `BMSG`: the frame in `s`, none once it is copied to the output buffer.
pub record Bmsg : Type 0 where
  pub t : ℕ
  pub sz : ℕ
  pub s : Option Bytes

-- The bits of `NR_flag`, `ND_flag` and `crypt_flag`.
pub record NrFlag : Type 0 where
  pub want_nr : Bool
  pub we_nr : Bool
  pub they_nr : Bool

pub record NdFlag : Type 0 where
  pub we_nd : Bool
  pub they_nd : Bool
  pub can_nda : Bool

pub record CryptFlag : Type 0 where
  pub we_crypt : Bool
  pub they_crypt : Bool
  pub yes_crypt : Bool

abbrev pub no_crypt : CryptFlag
no_crypt = record { we_crypt = false; they_crypt = false; yes_crypt = false }

abbrev pub yes_crypt : CryptFlag
yes_crypt = record { we_crypt = false; they_crypt = false; yes_crypt = true }

-- `P_NULL`, `P_NONSECURE`, `P_SECURE`
pub data Security : Type 0 where
  p_null p_nonsecure p_secure : Security

abbrev pub is_secure : Security → Bool
is_secure p_secure = true
is_secure _ = false

-- `state_ext`
pub data SecurityExt : Type 0 where
  p_na p_we_nonsecure p_remote_nonsecure : SecurityExt

-- What a session asks of the rest of the program and of the file system, in order.
pub data Effect : Type 0 where
  set_status : Bytes → FtnAddr → Effect
  remove_from_spool : Bytes → Bytes → ℕ → Effect
  inb_reject : Bytes → Effect
  inb_done : Tfile → Effect
  bad_try : FtnAddr → Bytes → Effect
  touch : Bytes → Effect

-- The fields of `FTN_NODE` that a session reads.
pub record Node : Type 0 where
  pub fa : FtnAddr
  pub out_pwd : Option Bytes

-- `MD_flag`, with the values 0, 1 and -1: MD_USE_OLD, MD_ON and MD_OFF.
pub data MdFlag : Type 0 where
  md_old md_on md_off : MdFlag

-- `MD_flag == 1`
abbrev pub is_md_on : MdFlag → Bool
is_md_on md_on = true
is_md_on _ = false

-- MD_flag as a condition
abbrev pub is_md_set : MdFlag → Bool
is_md_set md_old = false
is_md_set _ = true

-- `|=` of two of the values
unfoldable pub or_md : MdFlag → MdFlag → MdFlag
or_md md_off m = md_off
or_md md_old m = m
or_md md_on md_old = md_on
or_md md_on m = m

pub record State : Type 0 where
  pub to : Option Node
  pub expected_pwd : Bytes
  pub pending : Bytes  -- the `oleft` bytes at `optr`
  pub ibuf : Bytes  -- the `iread` bytes read of the current block
  pub isize : Option ℕ  -- none while a header is read
  pub imsg : Bool
  pub msgs : List Bmsg
  pub in_file : Tfile  -- `in`
  pub out_file : Tfile  -- `out`
  pub sent_fls : List Tfile
  pub q : List Ftnq
  pub fa : List FtnAddr
  pub skip_all_flag : Bool
  pub r_skipped_flag : Bool
  pub listed_flag : Bool
  pub inbound : Bytes
  pub io_error : Bool
  pub msgs_in_batch : ℕ
  pub minor : ℕ
  pub major : ℕ
  pub files_sent : ℕ
  pub bytes_sent : ℕ
  pub local_eob : Bool
  pub remote_eob : Bool
  pub get_file_balance : ℤ
  pub off_req_sent : Bool
  pub security : Security  -- `state`
  pub state_ext : SecurityExt
  pub nr_flag : NrFlag
  pub nd_flag : NdFlag
  pub md_flag : MdFlag
  pub md_challenge : Option Bytes
  pub waiting_for_got : Bool
  pub send_eof : Bool
  pub in_complete : Tfile
  pub nd_addr : FtnAddr
  pub crypt_flag : CryptFlag
  pub keys_out : Keys
  pub keys_in : Keys
  pub delay_eob : ℕ
  pub buggy_nr : Bool
  pub effects : List Effect

-- The last effect stands at the end.
abbrev pub emit : Effect → State → State
emit e s = record s { effects = s.effects ++ e ∷ [] }
