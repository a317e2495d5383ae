-- ===== src/Ftnq/Nodes/Calls.antt =====
-- ftnq.c: repeated calls of q_next_node come to an end.
use binkd.Base.{
  ℕ, zero, suc, ◌+◌, ◌≤◌, true, false, List, [], ◌∷◌, none, some, if◌then◌else◌, get_elem?, ◌≡◌,
  refl, ap, ◌∙◌, Option-cases, inl, inr, arith,
}
use mathlib.Core.Path.{subst}
use binkd.Ftnq.Nodes.{FtnNode, may_call, mark_call, q_not_empty, q_next_node}
use binkd.Ftnq.Nodes.Choice.{CallsFirst, q_not_empty-CallsFirst}

-- How many nodes may be called.
unfoldable pub count_free : ℕ → List FtnNode → ℕ
count_free now [] = 0
count_free now (fn ∷ nodes) = (if may_call now fn then 1 else 0) + count_free now nodes

-- At most `calls` calls in a row, as long as they choose a node; the nodes that are left.
unfoldable pub call_nodes : ℕ → ℕ → List FtnNode → List FtnNode
unfolding q_next_node
call_nodes zero now nodes = nodes
call_nodes (suc calls) now nodes = elim (q_next_node now nodes) [
  | none ↦ nodes
  | some (place, marked) ↦ call_nodes calls now marked
]

marked_busy :
    (now : ℕ) (fn : FtnNode)
    → may_call now (record fn { mail_flvr = 0; files_flvr = 0; busy = b'c' }) ≡ false
unfolding may_call
marked_busy now fn = refl

count_free-mark_call :
    (now place : ℕ) (nodes : List FtnNode) (fn : FtnNode)
    → get_elem? nodes place ≡ some fn
    → may_call now fn ≡ true
    → suc (count_free now (mark_call place nodes)) ≡ count_free now nodes
unfolding count_free mark_call
count_free-mark_call now place [] fn at may = absurd (cc (at))
count_free-mark_call now zero (g ∷ nodes) fn at may =
    let own : may_call now g ≡ true = grind (arith, at) in rw (own, marked_busy now g) (omega arith)
count_free-mark_call now (suc place) (g ∷ nodes) fn at may =
    omega (arith, count_free-mark_call now place nodes fn at may)

-- Every call of q_next_node that chooses a node leaves one node less that may be called.
next_counts :
    (now place : ℕ) (nodes : List FtnNode)
    → q_not_empty now nodes ≡ some place
    → suc (count_free now (mark_call place nodes)) ≡ count_free now nodes
next_counts now place nodes e =
    let (fn, at, may, first, rest) =
      subst (CallsFirst now nodes) e (q_not_empty-CallsFirst now nodes) in
    count_free-mark_call now place nodes fn at may

next_none :
    (now : ℕ) (nodes : List FtnNode) → q_not_empty now nodes ≡ none → q_next_node now nodes ≡ none
unfolding q_next_node
next_none now nodes e =
    ap (λ o. elim o [ none ↦ none | some place ↦ some (place, mark_call place nodes) ]) e

next_some :
    (now place : ℕ) (nodes : List FtnNode)
    → q_not_empty now nodes ≡ some place
    → q_next_node now nodes ≡ some (place, mark_call place nodes)
unfolding q_next_node
next_some now place nodes e =
    ap (λ o. elim o [ none ↦ none | some place ↦ some (place, mark_call place nodes) ]) e

call_none :
    (calls now : ℕ) (nodes : List FtnNode)
    → q_next_node now nodes ≡ none
    → call_nodes (suc calls) now nodes ≡ nodes
unfolding call_nodes
call_none calls now nodes e =
    ap (λ o. elim o [ none ↦ nodes | some (place, marked) ↦ call_nodes calls now marked ]) e

call_some :
    (calls now place : ℕ) (nodes marked : List FtnNode)
    → q_next_node now nodes ≡ some (place, marked)
    → call_nodes (suc calls) now nodes ≡ call_nodes calls now marked
unfolding call_nodes
call_some calls now place nodes marked e =
    ap (λ o. elim o [ none ↦ nodes | some (place, marked) ↦ call_nodes calls now marked ]) e

-- Calls of q_next_node in a row, as many as there are nodes that may be called, leave a list of
-- nodes in which q_next_node finds none: no node is called twice.
pub call_nodes_end :
    (calls now : ℕ) (nodes : List FtnNode)
    → count_free now nodes ≤ calls
    → q_next_node now (call_nodes calls now nodes) ≡ none
unfolding call_nodes
call_nodes_end zero now nodes h = elim (Option-cases (q_not_empty now nodes)) [
  | inl e ↦ next_none now nodes e
  | inr (place, e) ↦ absurd (omega (arith, h, next_counts now place nodes e))
]
call_nodes_end (suc calls) now nodes h = elim (Option-cases (q_not_empty now nodes)) [
  | inl e ↦
      let ends = next_none now nodes e in
      ap (q_next_node now) (call_none calls now nodes ends) ∙ ends
  | inr (place, e) ↦
      let marked = mark_call place nodes in
      ap (q_next_node now) (call_some calls now place nodes marked (next_some now place nodes e))
      ∙ call_nodes_end calls now marked (omega (arith, h, next_counts now place nodes e))
]
