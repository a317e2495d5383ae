-- ===== src/Ftnnode.antt =====
-- ftnnode.c: the nodes of the configuration. The array is shared by all threads of a process, which take
-- it in turn by a semaphore. qsort, bsearch and the clock are parameters.
pub mod Node
pub mod Edit
pub mod Passwords
pub mod Lookup
use binkd.Base.{
  ℕ, zero, suc, ◌+◌, Bool, true, false, not, ◌&&◌, ◌||◌, List, [], ◌∷◌, Option, none, some, Bytes,
  codes, bytes_eq, take, ltb, get_elem?, ◌==◌, if◌then◌else◌,
}
use binkd.Base.Int.{ℤ, pos, negsuc, eqb_ℤ}
use binkd.Ftn.{FtnAddr}
use binkd.Ftn.Compare.{same_address}
use binkd.Ftnnode.Node.{
  PwdPtr, no_pwd, own_pwd, pwd_text, NodeListed, nl_unlisted, nl_node, nl_passwords, NodeInfo,
  NodeArgs, use_old, resolve_ttl, max_pwd_len, dash, new_node,
}
use binkd.Ftnnode.Edit.{edit_node}

pub record NodeTable : Type 0 where
  pub nodes : List NodeInfo
  pub sorted : Bool  -- `nNodSorted`

pub record NodeLib : Type 0 where
  pub qsort : List NodeInfo → List NodeInfo
  pub bsearch : FtnAddr → List NodeInfo → Option ℕ
  pub safe_time : ℕ
  pub have_defnode : Bool

-- The node of the address is edited, or a new one is put behind the others; false breaks the order.
unfoldable pub edit_nodes : ℕ → NodeArgs → List NodeInfo → List NodeInfo × Bool
unfolding same_address edit_node
edit_nodes now a [] = (edit_node now a (new_node a.fa) ∷ [], false)
edit_nodes now a (n ∷ nodes) =
    let rest = edit_nodes now a nodes in
    if same_address n.fa a.fa then (edit_node now a n ∷ nodes, true) else (n ∷ rest.0, rest.1)

unfoldable pub add_node : NodeLib → NodeArgs → NodeTable → NodeTable
unfolding edit_nodes
add_node lib a t =
    let r = edit_nodes lib.safe_time a t.nodes in record { nodes = r.0; sorted = t.sorted && r.1 }

abbrev pub sort_nodes : NodeLib → NodeTable → NodeTable
sort_nodes lib t = record { nodes = lib.qsort t.nodes; sorted = true }

-- A node with the settings of `defnode` but for its passwords.
abbrev pub copy_defnode : NodeInfo → NodeInfo → NodeInfo
copy_defnode np on = record on {
  hosts = np.hosts;
  nr_flag = np.nr_flag;
  nd_flag = np.nd_flag;
  md_flag = np.md_flag;
  np_flag = np.np_flag;
  nc_flag = np.nc_flag;
  hc_flag = np.hc_flag;
  restrict_ip = np.restrict_ip;
  pipe = np.pipe;
  ip_afamily = np.ip_afamily;
}

-- The arguments for a node of `defnode`.
abbrev pub defnode_args : FtnAddr → NodeInfo → NodeArgs
defnode_args fa np = record {
  fa = fa;
  hosts = np.hosts;
  pwd = none;
  pkt_pwd = none;
  out_pwd = none;
  obox_flvr = np.obox_flvr;
  obox = np.obox;
  ibox = np.ibox;
  nr_flag = np.nr_flag;
  nd_flag = np.nd_flag;
  md_flag = np.md_flag;
  restrict_ip = np.restrict_ip;
  hc_flag = np.hc_flag;
  np_flag = np.np_flag;
  nc_flag = np.nc_flag;
  pipe = np.pipe;
  ip_afamily = np.ip_afamily;
}

abbrev pub defnode : FtnAddr
defnode = record { domain = codes "defnode"; z = pos 0; net = pos 0; node = pos 0; p = pos 0 }

-- What a pointer to a node of the array gives.
unfoldable pub update_node : (NodeInfo → NodeInfo) → ℕ → List NodeInfo → List NodeInfo
update_node f i [] = []
update_node f zero (n ∷ nodes) = f n ∷ nodes
update_node f (suc i) (n ∷ nodes) = n ∷ update_node f i nodes

abbrev pub node_at : Option ℕ → List NodeInfo → Option NodeInfo
node_at none nodes = none
node_at (some i) nodes = get_elem? nodes i

unfoldable pub from_defnode :
    NodeLib → FtnAddr → Option ℕ → Option NodeInfo → NodeTable → Option ℕ × NodeTable
unfolding update_node add_node
from_defnode lib fa on none t = (on, t)
from_defnode lib fa (some i) (some np) t =
    (some i, record t { nodes = update_node (copy_defnode np) i t.nodes })
from_defnode lib fa none (some np) t =
    let now = sort_nodes lib (add_node lib (defnode_args fa np) t) in
    (lib.bsearch fa now.nodes, now)

unfoldable pub get_defnode_info : NodeLib → FtnAddr → Option ℕ → NodeTable → Option ℕ × NodeTable
unfolding from_defnode
get_defnode_info lib fa on t =
    from_defnode lib fa on (node_at (lib.bsearch defnode t.nodes) t.nodes) t

abbrev pub is_listed : NodeListed → Bool
is_listed nl_node = true
is_listed _ = false

-- The node is asked for at `defnode`.
unfoldable pub wants_defnode : NodeLib → Option NodeInfo → Bool
wants_defnode lib none = lib.have_defnode
wants_defnode lib (some n) =
    not (is_listed n.listed) && ltb n.recheck lib.safe_time && lib.have_defnode

abbrev pub with_hosts : NodeInfo → NodeInfo
with_hosts n = record n {
  hosts = elim n.hosts as (λ x. Option Bytes) [ none ↦ some dash | some t ↦ some t ];
}

unfoldable pub give_hosts : Option ℕ × NodeTable → Option ℕ × NodeTable
unfolding update_node
give_hosts (none, t) = (none, t)
give_hosts (some i, t) = (some i, record t { nodes = update_node with_hosts i t.nodes })

unfoldable pub find_node : NodeLib → FtnAddr → NodeTable → Option ℕ × NodeTable
unfolding get_defnode_info wants_defnode
find_node lib fa t =
    let np = lib.bsearch fa t.nodes in
    if wants_defnode lib (node_at np t.nodes) then get_defnode_info lib fa np t else (np, t)

-- The place of the node, none where it is not found.
unfoldable pub get_node_info : NodeLib → FtnAddr → NodeTable → Option ℕ × NodeTable
unfolding find_node give_hosts
get_node_info lib fa t = give_hosts (find_node lib fa (if t.sorted then t else sort_nodes lib t))
