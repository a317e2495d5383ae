-- ===== src/Tests/Ftnnode.antt =====
-- ftnnode.c: a node with a password, and its definition once more.
use binkd.Base.{true, [], ◌∷◌, none, some, Bytes, All, codes, bytes_eq, ◌≡◌, ◌⊎◌, refl, inl, inr}
use binkd.Base.Int.{eqb_ℤ}
use binkd.Ftn.{FtnAddr}
use binkd.Ftn.Compare.{same_address}
use binkd.Ftn.RoundTrip.{whole}
use binkd.Text.{tolower}
use binkd.Ftnnode.Node.{PwdPtr, own_pwd, nl_passwords, NodeInfo, NodeArgs, dash, new_node}
use binkd.Ftnnode.{NodeTable, NodeLib, defnode_args, add_node, get_node_info}
use binkd.Ftnnode.Passwords.{AllKept, Distinct, add_node-AllKept, add_node-Distinct}
use binkd.Ftnnode.Lookup.{OfPasswords, get_node_info-OfPasswords}

abbrev caller : FtnAddr
caller = whole 2 5047 13 1 (codes "net")

abbrev known : NodeInfo
known = record (new_node caller) {
  listed = nl_passwords;
  pwd = codes "pw";
  pkt_pwd = own_pwd;
  out_pwd = own_pwd;
}

-- Another password for the node.
abbrev again : NodeArgs
again = record (defnode_args caller known) { pwd = some (codes "other") }

abbrev lib : NodeLib
lib = record {
  qsort = λ nodes. nodes;
  bsearch = λ fa nodes. none;
  safe_time = 5;
  have_defnode = true;
}

abbrev table : NodeTable
table = record { nodes = known ∷ []; sorted = true }

add_node-AllKept_example : AllKept (known ∷ []) (add_node lib again table).nodes
add_node-AllKept_example = add_node-AllKept lib again table

add_node-Distinct_example : Distinct (add_node lib again table).nodes
add_node-Distinct_example = add_node-Distinct lib again table (tt, tt)

-- The node keeps its password.
add_run : (add_node lib again table).nodes ≡ record known { recheck = 3605 } ∷ []
unfolding add_node bytes_eq eqb_ℤ same_address tolower
add_run = refl

-- No password, or that of the node that is known.
abbrev PassesWord : FtnAddr → Bytes → PwdPtr → PwdPtr → Type 0
PassesWord fa w pkt out = (w ≡ dash) ⊎ (w ≡ codes "pw")

get_node_info-OfPasswords_example :
    All (OfPasswords PassesWord) (get_node_info lib (whole 2 5047 14 0 (codes "net")) table).1.nodes
get_node_info-OfPasswords_example =
    get_node_info-OfPasswords PassesWord lib (whole 2 5047 14 0 (codes "net")) table (λ nodes h. h)
      (inl refl) (inr refl, tt)
