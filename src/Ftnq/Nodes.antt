-- ===== src/Ftnq/Nodes.antt =====
-- ftnq.c: the choice of the node for the next call. The nodes stand in the order in which
-- `foreach_node` visits them.
pub mod Choice
pub mod Calls
use binkd.Base.{
  ℕ, zero, suc, ◌+◌, Bool, true, false, not, ◌&&◌, List, [], ◌∷◌, Option, none, some, Bytes, codes,
  bytes_eq, ltb, ◌==◌, if◌then◌else◌, get_elem?,
}
use binkd.Ftn.{FtnAddr}
use binkd.Ftn.Compare.{same_address}
use binkd.Ftnq.Flavour.{max_flvr}
use binkd.Text.{tolower}

-- The fields of `FTN_NODE` that the queue uses; 0 is the flavour of no mail and of no files, and
-- the mark of a node that is free.
pub record FtnNode : Type 0 where
  pub fa : FtnAddr
  pub hosts : Bytes
  pub hold_until : ℕ
  pub busy : ℕ
  pub mail_flvr : ℕ
  pub files_flvr : ℕ

-- `qn_not_empty_arg`; the node by its place.
pub record QnNotEmptyArg : Type 0 where
  pub maxflvr : ℕ
  pub fn : Option ℕ

-- The node is not busy, has a host and is not on hold.
unfoldable pub may_call : ℕ → FtnNode → Bool
may_call now fn = fn.busy == 0 && not (bytes_eq fn.hosts (codes "-")) && ltb fn.hold_until now

abbrev pub flvr_of : FtnNode → ℕ
flvr_of fn = max_flvr fn.mail_flvr fn.files_flvr

unfoldable pub qn_not_empty : ℕ → ℕ → FtnNode → QnNotEmptyArg → QnNotEmptyArg
unfolding may_call max_flvr
qn_not_empty now place fn a =
    if may_call now fn
      && not (a.maxflvr == max_flvr fn.mail_flvr (max_flvr fn.files_flvr a.maxflvr))
    then record { maxflvr = flvr_of fn; fn = some place }
    else a

unfoldable pub foreach_not_empty : ℕ → ℕ → List FtnNode → QnNotEmptyArg → QnNotEmptyArg
unfolding qn_not_empty
foreach_not_empty now place [] a = a
foreach_not_empty now place (fn ∷ nodes) a =
    foreach_not_empty now (suc place) nodes (qn_not_empty now place fn a)

abbrev pub no_choice : QnNotEmptyArg
no_choice = record { maxflvr = 0; fn = none }

-- `now` is `safe_time ()` of every test.
unfoldable pub q_not_empty : ℕ → List FtnNode → Option ℕ
unfolding foreach_not_empty tolower
q_not_empty now nodes =
    let arg : QnNotEmptyArg = foreach_not_empty now 0 nodes no_choice in
    if not (arg.maxflvr == 0) && not (tolower arg.maxflvr == b'h') then arg.fn else none

-- The node at a place is marked as being called.
unfoldable pub mark_call : ℕ → List FtnNode → List FtnNode
mark_call place [] = []
mark_call zero (fn ∷ nodes) = record fn { mail_flvr = 0; files_flvr = 0; busy = b'c' } ∷ nodes
mark_call (suc place) (fn ∷ nodes) = fn ∷ mark_call place nodes

-- The place of the node to call, and the nodes with its mark.
unfoldable pub q_next_node : ℕ → List FtnNode → Option (ℕ × List FtnNode)
unfolding q_not_empty mark_call
q_next_node now nodes = elim (q_not_empty now nodes) [
  | none ↦ none
  | some place ↦ some (place, mark_call place nodes)
]
