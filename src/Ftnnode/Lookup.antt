-- ===== src/Ftnnode/Lookup.antt =====
-- ftnnode.c: what the search for a node does to the nodes.
use binkd.Base.{
  ℕ, zero, suc, Bool, List, [], ◌∷◌, Option, none, some, Bytes, All, get_elem?, if◌then◌else◌, ◌≢◌,
  if_ind,
}
use binkd.Ftn.{FtnAddr}
use binkd.Ftn.Compare.{same_address}
use binkd.Ftnnode.Node.{PwdPtr, no_pwd, NodeInfo, dash}
use binkd.Ftnnode.Edit.{edit_flags, edit_pwd, edit_boxes, edit_node}
use binkd.Ftnnode.{
  NodeTable, NodeLib, edit_nodes, add_node, sort_nodes, copy_defnode, defnode_args, defnode,
  update_node, node_at, from_defnode, get_defnode_info, wants_defnode, with_hosts, give_hosts,
  find_node, get_node_info,
}

-- What holds of the address and the passwords of a node.
abbrev pub OfPasswords {κ} : (FtnAddr → Bytes → PwdPtr → PwdPtr → Type κ) → NodeInfo → Type κ
OfPasswords Q n = Q n.fa n.pwd n.pkt_pwd n.out_pwd

module _ {κ} (Q : FtnAddr → Bytes → PwdPtr → PwdPtr → Type κ) where
  update_node-All :
      (f : NodeInfo → NodeInfo) (i : ℕ) (nodes : List NodeInfo)
      → ((n : NodeInfo) → OfPasswords Q n → OfPasswords Q (f n))
      → All (OfPasswords Q) nodes
      → All (OfPasswords Q) (update_node f i nodes)
  unfolding update_node
  update_node-All f i [] h k = tt
  update_node-All f zero (n ∷ nodes) h k = (h n k.0, k.1)
  update_node-All f (suc i) (n ∷ nodes) h k = (k.0, update_node-All f i nodes h k.1)

  edit_nodes-All :
      (now : ℕ) (fa : FtnAddr) (np : NodeInfo) (nodes : List NodeInfo)
      → Q fa dash no_pwd no_pwd
      → All (OfPasswords Q) nodes
      → All (OfPasswords Q) (edit_nodes now (defnode_args fa np) nodes).0
  unfolding edit_nodes edit_node edit_boxes edit_flags edit_pwd
  edit_nodes-All now fa np [] h k = (h, tt)
  edit_nodes-All now fa np (n ∷ nodes) h k =
      if_ind (λ (r : List NodeInfo × Bool). All (OfPasswords Q) r.0) (same_address n.fa fa) (λ e. k)
        (λ e. (k.0, edit_nodes-All now fa np nodes h k.1))

  module _ (lib : NodeLib)
      (reorders : (nodes : List NodeInfo)
        → All (OfPasswords Q) nodes
        → All (OfPasswords Q) (lib.qsort nodes)) where
    from_defnode-All :
        (fa : FtnAddr) (on : Option ℕ) (np : Option NodeInfo) (t : NodeTable)
        → Q fa dash no_pwd no_pwd
        → All (OfPasswords Q) t.nodes
        → All (OfPasswords Q) (from_defnode lib fa on np t).1.nodes
    unfolding from_defnode add_node
    from_defnode-All fa on none t h k = k
    from_defnode-All fa (some i) (some np) t h k =
        update_node-All (copy_defnode np) i t.nodes (λ n q. q) k
    from_defnode-All fa none (some np) t h k =
        reorders (edit_nodes lib.safe_time (defnode_args fa np) t.nodes).0
          (edit_nodes-All lib.safe_time fa np t.nodes h k)

    find_node-All :
        (fa : FtnAddr) (t : NodeTable)
        → Q fa dash no_pwd no_pwd
        → All (OfPasswords Q) t.nodes
        → All (OfPasswords Q) (find_node lib fa t).1.nodes
    unfolding find_node get_defnode_info
    find_node-All fa t h k =
        if_ind (λ (r : Option ℕ × NodeTable). All (OfPasswords Q) r.1.nodes)
          (wants_defnode lib (node_at (lib.bsearch fa t.nodes) t.nodes))
          (λ e.
            from_defnode-All fa (lib.bsearch fa t.nodes)
              (node_at (lib.bsearch defnode t.nodes) t.nodes) t h k)
          (λ e. k)

    give_hosts-All :
        (r : Option ℕ × NodeTable)
        → All (OfPasswords Q) r.1.nodes
        → All (OfPasswords Q) (give_hosts r).1.nodes
    unfolding give_hosts
    give_hosts-All (none, t) k = k
    give_hosts-All (some i, t) k = update_node-All with_hosts i t.nodes (λ n q. q) k

-- What holds of the address and the passwords of every node, and of the address that is looked for
-- without a password, holds of every node behind get_node_info: it gives no node a password, also not
-- one that it makes by `defnode`. qsort only reorders the nodes.
pub get_node_info-OfPasswords {κ} :
    (Q : FtnAddr → Bytes → PwdPtr → PwdPtr → Type κ) (lib : NodeLib) (fa : FtnAddr) (t : NodeTable)
    → ((nodes : List NodeInfo) → All (OfPasswords Q) nodes → All (OfPasswords Q) (lib.qsort nodes))
    → Q fa dash no_pwd no_pwd
    → All (OfPasswords Q) t.nodes
    → All (OfPasswords Q) (get_node_info lib fa t).1.nodes
unfolding get_node_info
get_node_info-OfPasswords Q lib fa t reorders h k =
    let start : All (OfPasswords Q) (if t.sorted then t else sort_nodes lib t).nodes =
      if_ind (λ (u : NodeTable). All (OfPasswords Q) u.nodes) t.sorted (λ e. k)
        (λ e. reorders t.nodes k) in
    give_hosts-All Q lib reorders (find_node lib fa (if t.sorted then t else sort_nodes lib t))
      (find_node-All Q lib reorders fa (if t.sorted then t else sort_nodes lib t) h start)

abbrev Hosted : Option NodeInfo → Type 0
Hosted none = Unit
Hosted (some n) = n.hosts ≢ none

-- The node that was found has hosts.
abbrev pub HasHosts : Option ℕ × NodeTable → Type 0
HasHosts (i, t) = Hosted (node_at i t.nodes)

with_hosts-Hosted : (n : NodeInfo) → Hosted (some (with_hosts n))
with_hosts-Hosted n = some_hosts n.hosts
  where
    some_hosts :
        (h : Option Bytes)
        → elim h as (λ x. Option Bytes) [ none ↦ some dash | some t ↦ some t ] ≢ none
    some_hosts none = λ e. cc (e)
    some_hosts (some t) = λ e. cc (e)

update_node-Hosted :
    (i : ℕ) (nodes : List NodeInfo) → Hosted (get_elem? (update_node with_hosts i nodes) i)
unfolding update_node
update_node-Hosted i [] = tt
update_node-Hosted zero (n ∷ nodes) = with_hosts-Hosted n
update_node-Hosted (suc i) (n ∷ nodes) = update_node-Hosted i nodes

give_hosts-HasHosts : (r : Option ℕ × NodeTable) → HasHosts (give_hosts r)
unfolding give_hosts
give_hosts-HasHosts (none, t) = tt
give_hosts-HasHosts (some i, t) = update_node-Hosted i t.nodes

-- A node that get_node_info finds has hosts, whichever nodes are there.
pub get_node_info-HasHosts :
    (lib : NodeLib) (fa : FtnAddr) (t : NodeTable) → HasHosts (get_node_info lib fa t)
unfolding get_node_info
get_node_info-HasHosts lib fa t =
    give_hosts-HasHosts (find_node lib fa (if t.sorted then t else sort_nodes lib t))
