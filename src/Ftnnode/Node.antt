-- ===== src/Ftnnode/Node.antt =====
-- btypes.h, ftnnode.c: a node of the configuration, and the arguments that define one.
use binkd.Base.{ℕ, Option, none, Bytes, codes}
use binkd.Base.Int.{ℤ, pos, negsuc}
use binkd.Ftn.{FtnAddr}

-- `pkt_pwd` and `out_pwd`: null, the address of `pwd`, or a text of their own.
pub data PwdPtr : Type 0 where
  no_pwd own_pwd : PwdPtr
  pwd_text : Bytes → PwdPtr

pub data NodeListed : Type 0 where
  nl_unlisted nl_node nl_passwords : NodeListed

pub record NodeInfo : Type 0 where
  pub listed : NodeListed
  pub hosts : Option Bytes
  pub fa : FtnAddr
  pub pwd : Bytes
  pub pkt_pwd : PwdPtr
  pub out_pwd : PwdPtr
  pub obox_flvr : ℕ
  pub obox : Option Bytes
  pub ibox : Option Bytes
  pub pipe : Option Bytes
  pub nr_flag : ℤ
  pub nd_flag : ℤ
  pub md_flag : ℤ
  pub hc_flag : ℤ
  pub restrict_ip : ℤ
  pub np_flag : ℤ
  pub nc_flag : ℤ
  pub ip_afamily : ℤ
  pub recheck : ℕ

-- The arguments of add_node; none is a null pointer.
pub record NodeArgs : Type 0 where
  pub fa : FtnAddr
  pub hosts : Option Bytes
  pub pwd : Option Bytes
  pub pkt_pwd : Option Bytes
  pub out_pwd : Option Bytes
  pub obox_flvr : ℕ
  pub obox : Option Bytes
  pub ibox : Option Bytes
  pub nr_flag : ℤ
  pub nd_flag : ℤ
  pub md_flag : ℤ
  pub restrict_ip : ℤ
  pub hc_flag : ℤ
  pub np_flag : ℤ
  pub nc_flag : ℤ
  pub pipe : Option Bytes
  pub ip_afamily : ℤ

abbrev pub use_old : ℤ
use_old = negsuc 0

abbrev pub resolve_ttl : ℕ
resolve_ttl = 3600

abbrev pub max_pwd_len : ℕ
max_pwd_len = 40

abbrev pub dash : Bytes
dash = codes "-"

-- A node with its address and the default settings.
abbrev pub new_node : FtnAddr → NodeInfo
new_node fa = record {
  listed = nl_unlisted;
  hosts = none;
  fa = fa;
  pwd = dash;
  pkt_pwd = no_pwd;
  out_pwd = no_pwd;
  obox_flvr = b'f';
  obox = none;
  ibox = none;
  pipe = none;
  nr_flag = pos 0;
  nd_flag = pos 0;
  md_flag = pos 0;
  hc_flag = pos 0;
  restrict_ip = pos 0;
  np_flag = pos 0;
  nc_flag = pos 0;
  ip_afamily = pos 0;
  recheck = 0;
}
