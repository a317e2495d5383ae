-- ===== src/Ftnnode/Passwords.antt =====
-- ftnnode.c: the passwords of the nodes.
use binkd.Base.{
  ℕ, Bool, true, false, not, ◌&&◌, List, [], ◌∷◌, Option, none, some, Bytes, ◌≡◌, refl, if_ind, ap,
  sym, ◌∙◌, All, ◌⊎◌, inl, inr, arith,
}
use mathlib.Core.Path.{subst}
use binkd.Ftn.{FtnAddr}
use binkd.Ftn.Compare.{same_address}
use binkd.Ftnnode.Node.{NodeInfo, NodeArgs, new_node}
use binkd.Ftnnode.Edit.{has_no_pwd, is_dash, edit_flags, edit_pwd, edit_boxes, edit_node}
use binkd.Ftnnode.{NodeTable, NodeLib, edit_nodes, add_node}

-- The address, and the passwords if one is set.
abbrev pub Kept : NodeInfo → NodeInfo → Type 0
Kept n m =
    (m.fa ≡ n.fa)
    × (m.listed ≡ n.listed)
    × ((has_no_pwd n ≡ true)
        ⊎ ((m.pwd ≡ n.pwd) × (m.pkt_pwd ≡ n.pkt_pwd) × (m.out_pwd ≡ n.out_pwd)))

-- Each node is kept at its place.
abbrev pub AllKept : List NodeInfo → List NodeInfo → Type 0
AllKept [] left = Unit
AllKept (n ∷ nodes) [] = ⊥
AllKept (n ∷ nodes) (m ∷ left) = Kept n m × AllKept nodes left

abbrev IsApart : FtnAddr → NodeInfo → Type 0
IsApart fa n = same_address fa n.fa ≡ false

-- No node has the address of one in front of it.
abbrev pub Distinct : List NodeInfo → Type 0
Distinct [] = Unit
Distinct (n ∷ nodes) = All (IsApart n.fa) nodes × Distinct nodes

Kept-self : (n : NodeInfo) → Kept n n
Kept-self n = (refl, refl, inr (refl, refl, refl))

AllKept-self : (nodes : List NodeInfo) → AllKept nodes nodes
AllKept-self [] = tt
AllKept-self (n ∷ nodes) = (Kept-self n, AllKept-self nodes)

edit_pwd-Kept : (a : NodeArgs) (pwd : Option Bytes) (n : NodeInfo) → Kept n (edit_pwd a pwd n)
unfolding edit_pwd
edit_pwd-Kept a none n = Kept-self n
edit_pwd-Kept a (some pwd) n =
    if_ind (Kept n) (not (is_dash pwd) && has_no_pwd n) (λ e. (refl, refl, inl (ground (arith, e))))
      (λ e. Kept-self n)

edit_node-Kept : (now : ℕ) (a : NodeArgs) (n : NodeInfo) → Kept n (edit_node now a n)
unfolding edit_node edit_boxes edit_flags has_no_pwd
edit_node-Kept now a n = edit_pwd-Kept a a.pwd _

edit_nodes-AllKept :
    (now : ℕ) (a : NodeArgs) (nodes : List NodeInfo) → AllKept nodes (edit_nodes now a nodes).0
unfolding edit_nodes
edit_nodes-AllKept now a [] = tt
edit_nodes-AllKept now a (n ∷ nodes) =
    if_ind (λ (r : List NodeInfo × Bool). AllKept (n ∷ nodes) r.0) (same_address n.fa a.fa)
      (λ e. (edit_node-Kept now a n, AllKept-self nodes))
      (λ e. (Kept-self n, edit_nodes-AllKept now a nodes))

-- A later definition of a node, or a new node, moves no node and changes no address, and it changes no
-- password of a node that has one.
pub add_node-AllKept :
    (lib : NodeLib) (a : NodeArgs) (t : NodeTable) → AllKept t.nodes (add_node lib a t).nodes
unfolding add_node
add_node-AllKept lib a t = edit_nodes-AllKept lib.safe_time a t.nodes

IsApart-edit_node :
    (now : ℕ) (a : NodeArgs) (fa : FtnAddr) (n : NodeInfo)
    → IsApart fa n
    → IsApart fa (edit_node now a n)
IsApart-edit_node now a fa n h = ap (same_address fa) (edit_node-Kept now a n).0 ∙ h

IsApart-edit_nodes :
    (now : ℕ) (a : NodeArgs) (fa : FtnAddr) (nodes : List NodeInfo)
    → same_address fa a.fa ≡ false
    → All (IsApart fa) nodes
    → All (IsApart fa) (edit_nodes now a nodes).0
unfolding edit_nodes
IsApart-edit_nodes now a fa [] h k = (IsApart-edit_node now a fa (new_node a.fa) h, tt)
IsApart-edit_nodes now a fa (n ∷ nodes) h k =
    if_ind (λ (r : List NodeInfo × Bool). All (IsApart fa) r.0) (same_address n.fa a.fa)
      (λ e. (IsApart-edit_node now a fa n k.0, k.1))
      (λ e. (k.0, IsApart-edit_nodes now a fa nodes h k.1))

edit_nodes-Distinct :
    (now : ℕ) (a : NodeArgs) (nodes : List NodeInfo)
    → Distinct nodes
    → Distinct (edit_nodes now a nodes).0
unfolding edit_nodes
edit_nodes-Distinct now a [] d = (tt, tt)
edit_nodes-Distinct now a (n ∷ nodes) d =
    if_ind (λ (r : List NodeInfo × Bool). Distinct r.0) (same_address n.fa a.fa)
      (λ e.
        let same = sym (edit_node-Kept now a n).0 in
        (subst (λ (fa : FtnAddr). All (IsApart fa) nodes) same d.0, d.1))
      (λ e. (IsApart-edit_nodes now a n.fa nodes e d.0, edit_nodes-Distinct now a nodes d.1))

-- The addresses of the nodes stay different from each other.
pub add_node-Distinct :
    (lib : NodeLib) (a : NodeArgs) (t : NodeTable)
    → Distinct t.nodes
    → Distinct (add_node lib a t).nodes
unfolding add_node
add_node-Distinct lib a t d = edit_nodes-Distinct lib.safe_time a t.nodes d
