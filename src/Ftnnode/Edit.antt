-- ===== src/Ftnnode/Edit.antt =====
-- ftnnode.c: what add_node_nolock does to the settings of a node.
use binkd.Base.{
  ℕ, ◌+◌, Bool, true, not, ◌&&◌, [], ◌∷◌, Option, none, some, Bytes, bytes_eq, take, ◌==◌,
  if◌then◌else◌,
}
use binkd.Base.Int.{ℤ, pos, eqb_ℤ}
use binkd.Ftnnode.Node.{
  PwdPtr, no_pwd, own_pwd, pwd_text, NodeInfo, NodeArgs, use_old, resolve_ttl, max_pwd_len, dash,
}

-- The old value where the new one stands for it.
unfoldable pub or_old : ℤ → ℤ → ℤ → ℤ
unfolding eqb_ℤ
or_old keep old new = if eqb_ℤ new keep then old else new

unfoldable pub edit_flags : NodeArgs → NodeInfo → NodeInfo
unfolding or_old
edit_flags a n = record n {
  md_flag = or_old (pos 0) n.md_flag a.md_flag;
  restrict_ip = or_old use_old n.restrict_ip a.restrict_ip;
  nr_flag = or_old use_old n.nr_flag a.nr_flag;
  nd_flag = or_old use_old n.nd_flag a.nd_flag;
  np_flag = or_old use_old n.np_flag a.np_flag;
  nc_flag = or_old use_old n.nc_flag a.nc_flag;
  hc_flag = or_old (pos 0) n.hc_flag a.hc_flag;
  ip_afamily = or_old use_old n.ip_afamily a.ip_afamily;
}

abbrev pub or_kept : Option Bytes → Option Bytes → Option Bytes
or_kept old none = old
or_kept old (some t) = some t

abbrev pub or_kept_hosts : Option Bytes → Option Bytes → Option Bytes
or_kept_hosts old none = old
or_kept_hosts old (some []) = old
or_kept_hosts old (some (c ∷ t)) = some (c ∷ t)

unfoldable pub is_dash : Bytes → Bool
unfolding bytes_eq
is_dash t = bytes_eq t dash

-- The password that a pointer of the node gives is none.
unfoldable pub points_to_none : Bytes → PwdPtr → Bool
unfolding is_dash
points_to_none pwd no_pwd = true
points_to_none pwd own_pwd = is_dash pwd
points_to_none pwd (pwd_text t) = is_dash t

-- No password of the node is set.
unfoldable pub has_no_pwd : NodeInfo → Bool
unfolding is_dash points_to_none
has_no_pwd n = is_dash n.pwd && points_to_none n.pwd n.pkt_pwd && points_to_none n.pwd n.out_pwd

unfoldable pub pwd_ptr : Option Bytes → PwdPtr
unfolding is_dash
pwd_ptr none = own_pwd
pwd_ptr (some t) = if is_dash t then no_pwd else pwd_text t

unfoldable pub edit_pwd : NodeArgs → Option Bytes → NodeInfo → NodeInfo
unfolding has_no_pwd pwd_ptr
edit_pwd a none n = n
edit_pwd a (some pwd) n =
    if not (is_dash pwd) && has_no_pwd n
    then record n {
      pwd = take max_pwd_len pwd;
      pkt_pwd = pwd_ptr a.pkt_pwd;
      out_pwd = pwd_ptr a.out_pwd;
    }
    else n

unfoldable pub edit_boxes : NodeArgs → NodeInfo → NodeInfo
edit_boxes a n = record n {
  obox_flvr = if a.obox_flvr == b'-' then n.obox_flvr else a.obox_flvr;
  obox = or_kept n.obox a.obox;
  ibox = or_kept n.ibox a.ibox;
}

unfoldable pub edit_node : ℕ → NodeArgs → NodeInfo → NodeInfo
unfolding edit_flags edit_pwd edit_boxes
edit_node now a n = edit_boxes a (
    edit_pwd a a.pwd (record (edit_flags a n) {
      recheck = now + resolve_ttl;
      pipe = or_kept n.pipe a.pipe;
      hosts = or_kept_hosts n.hosts a.hosts;
    }))
