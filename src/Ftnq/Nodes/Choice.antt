-- ===== src/Ftnq/Nodes/Choice.antt =====
-- ftnq.c: the node that is chosen has the first flavour of all that may be called.
use binkd.Base.{
  ℕ, suc, ◌+◌, ◌≤◌, ◌<◌, true, false, not, ◌&&◌, List, [], ◌∷◌, Option, none, some, All, ltb, ◌==◌,
  if◌then◌else◌, get_elem?, ==_iff, ◌≡◌, ◌≢◌, ◌⊎◌, refl, sym, ap, ◌∙◌, Bool-cases, inl, inr, arith,
}
use mathlib.Core.Path.{subst}
use binkd.Text.{tolower}
use binkd.Ftnq.Flavour.{rank, max_flvr}
use binkd.Ftnq.Nodes.{
  FtnNode, QnNotEmptyArg, may_call, flvr_of, qn_not_empty, foreach_not_empty, no_choice,
  q_not_empty,
}

-- The flavour comes no later than the node's own, if the node may be called.
abbrev pub Bounds : ℕ → ℕ → FtnNode → Type 0
Bounds now best fn = (may_call now fn ≡ false) ⊎ (rank best ≤ rank (flvr_of fn))

-- The flavour is that of the node at the place, which may be called.
abbrev pub Chosen : ℕ → List FtnNode → ℕ → Option ℕ → Type 0
Chosen now nodes best none = best ≡ 0
Chosen now nodes best (some place) =
    (fn : FtnNode) × (get_elem? nodes place ≡ some fn)
    × (may_call now fn ≡ true)
    × (best ≡ flvr_of fn)

-- `MAXFLVR` for any order of the flavours.
least : (ℕ → ℕ) → ℕ → ℕ → ℕ
least r a b = if ltb (r a) (r b) then a else b

least_better :
    (r : ℕ → ℕ) (mail files best : ℕ)
    → (best == least r mail (least r files best)) ≡ false
    → r (least r mail files) < r best
unfolding least
least_better r mail files best h = ground arith

least_not_better :
    (r : ℕ → ℕ) (mail files best : ℕ)
    → (best == least r mail (least r files best)) ≡ true
    → r best ≤ r (least r mail files)
unfolding least
least_not_better r mail files best h = ground arith

better :
    (mail files best : ℕ)
    → (best == max_flvr mail (max_flvr files best)) ≡ false
    → rank (max_flvr mail files) < rank best
unfolding max_flvr least
better mail files best h = least_better rank mail files best h

not_better :
    (mail files best : ℕ)
    → (best == max_flvr mail (max_flvr files best)) ≡ true
    → rank best ≤ rank (max_flvr mail files)
unfolding max_flvr least
not_better mail files best h = least_not_better rank mail files best h

-- A node does not come before the choice that is made behind it.
qn_not_empty-Bounds :
    (now place : ℕ) (fn : FtnNode) (a : QnNotEmptyArg)
    → Bounds now (qn_not_empty now place fn a).maxflvr fn
unfolding qn_not_empty
qn_not_empty-Bounds now place fn a = elim (Bool-cases (may_call now fn)) [
  | inr e ↦ inl e
  | inl may ↦
      elim (Bool-cases (a.maxflvr == max_flvr fn.mail_flvr (max_flvr fn.files_flvr a.maxflvr))) [
        | inl same ↦ rw (may, same) (inr (not_better fn.mail_flvr fn.files_flvr a.maxflvr same))
        | inr other ↦ rw (may, other) (inr (omega arith))
      ]
]

-- A bound holds for every flavour that comes earlier.
Bounds-earlier :
    (now best f : ℕ) (fn : FtnNode) → Bounds now best fn → rank f ≤ rank best → Bounds now f fn
Bounds-earlier now best f fn (inl e) h = inl e
Bounds-earlier now best f fn (inr k) h = inr (omega (arith, k, h))

rank-qn_not_empty :
    (now place : ℕ) (fn : FtnNode) (a : QnNotEmptyArg)
    → rank (qn_not_empty now place fn a).maxflvr ≤ rank a.maxflvr
unfolding qn_not_empty
rank-qn_not_empty now place fn a = elim (Bool-cases (may_call now fn)) [
  | inr e ↦ rw e (omega arith)
  | inl e ↦
      elim (Bool-cases (a.maxflvr == max_flvr fn.mail_flvr (max_flvr fn.files_flvr a.maxflvr))) [
        | inl same ↦ rw (e, same) (omega arith)
        | inr other ↦
            rw (e, other) (omega (arith, better fn.mail_flvr fn.files_flvr a.maxflvr other))
      ]
]

rank-foreach :
    (now place : ℕ) (nodes : List FtnNode) (a : QnNotEmptyArg)
    → rank (foreach_not_empty now place nodes a).maxflvr ≤ rank a.maxflvr
unfolding foreach_not_empty
rank-foreach now place [] a = omega arith
rank-foreach now place (fn ∷ nodes) a =
    let b = qn_not_empty now place fn a in
    omega (arith, rank-foreach now (suc place) nodes b, rank-qn_not_empty now place fn a)

foreach-Bounds :
    (now place : ℕ) (nodes : List FtnNode) (a : QnNotEmptyArg)
    → All (Bounds now (foreach_not_empty now place nodes a).maxflvr) nodes
unfolding foreach_not_empty
foreach-Bounds now place [] a = tt
foreach-Bounds now place (fn ∷ nodes) a =
    let b = qn_not_empty now place fn a in
    (
      Bounds-earlier now b.maxflvr (foreach_not_empty now (suc place) nodes b).maxflvr fn
          (qn_not_empty-Bounds now place fn a) (rank-foreach now (suc place) nodes b),
      foreach-Bounds now (suc place) nodes b,
    )

qn_not_empty-Chosen :
    (now place : ℕ) (all : List FtnNode) (fn : FtnNode) (a : QnNotEmptyArg)
    → get_elem? all place ≡ some fn
    → Chosen now all a.maxflvr a.fn
    → Chosen now all (qn_not_empty now place fn a).maxflvr (qn_not_empty now place fn a).fn
unfolding qn_not_empty
qn_not_empty-Chosen now place all fn a at h = elim (Bool-cases (may_call now fn)) [
  | inr e ↦ rw e h
  | inl e ↦
      elim (Bool-cases (a.maxflvr == max_flvr fn.mail_flvr (max_flvr fn.files_flvr a.maxflvr))) [
        | inl same ↦ rw (e, same) h
        | inr other ↦ rw (e, other) (fn, at, e, refl)
      ]
]

foreach-Chosen :
    (now place : ℕ) (all nodes : List FtnNode) (a : QnNotEmptyArg)
    → ((i : ℕ) → get_elem? nodes i ≡ get_elem? all (i + place))
    → Chosen now all a.maxflvr a.fn
    → Chosen now all
        (foreach_not_empty now place nodes a).maxflvr
        (foreach_not_empty now place nodes a).fn
unfolding foreach_not_empty
foreach-Chosen now place all [] a at h = h
foreach-Chosen now place all (fn ∷ nodes) a at h =
    foreach-Chosen now (suc place) all nodes (qn_not_empty now place fn a)
      (λ i. at (suc i) ∙ ap (get_elem? all) (omega arith))
      (qn_not_empty-Chosen now place all fn a (ap (get_elem? all) (omega arith) ∙ sym (at 0)) h)

rank_zero : rank 0 ≡ 13
unfolding rank
rank_zero = refl

rank_hold : (f : ℕ) → tolower f ≡ b'h' → 10 < rank f
unfolding rank tolower
rank_hold f h =
    let letters : (f ≡ b'h') ⊎ (f ≡ b'H') = ground arith in
    elim letters [ inl e ↦ rw e (omega arith) | inr e ↦ rw e (omega arith) ]

rank_call : (f : ℕ) → f ≢ 0 → tolower f ≢ b'h' → rank f < 11
unfolding rank tolower
rank_call f h k =
    let small : f ≢ b'h' = λ e. k (rw e refl) in
    let capital : f ≢ b'H' = λ e. k (rw e refl) in ground (arith, h, small, capital)

-- The node may not be called, or has a flavour on hold, or none.
abbrev pub IsHeld : ℕ → FtnNode → Type 0
IsHeld now fn = (may_call now fn ≡ false) ⊎ (10 < rank (flvr_of fn))

-- A chosen node may be called, is not on hold, and has the first flavour of all that may be called;
-- none is chosen where every node that may be called has a flavour on hold, or none.
abbrev pub CallsFirst : ℕ → List FtnNode → Option ℕ → Type 0
CallsFirst now nodes none = All (IsHeld now) nodes
CallsFirst now nodes (some place) =
    (fn : FtnNode) × (get_elem? nodes place ≡ some fn)
    × (may_call now fn ≡ true)
    × (rank (flvr_of fn) < 11)
    × All (Bounds now (flvr_of fn)) nodes

All-map {ℓ κ} :
    {A : Type ℓ} (P : A → Type κ) (Q : A → Type κ) (xs : List A)
    → ((a : A) → P a → Q a)
    → All P xs
    → All Q xs
All-map P Q [] f h = tt
All-map P Q (x ∷ xs) f h = (f x h.0, All-map P Q xs f h.1)

held : (now best : ℕ) (fn : FtnNode) → 10 < rank best → Bounds now best fn → IsHeld now fn
held now best fn h (inl e) = inl e
held now best fn h (inr k) = inr (omega (arith, h, k))

weaken :
    (now best : ℕ) (nodes : List FtnNode)
    → 10 < rank best
    → All (Bounds now best) nodes
    → All (IsHeld now) nodes
weaken now best nodes h =
    All-map (Bounds now best) (IsHeld now) nodes (λ fn b. held now best fn h b)

choose :
    (now best : ℕ) (place : Option ℕ) (nodes : List FtnNode)
    → rank best < 11
    → All (Bounds now best) nodes
    → Chosen now nodes best place
    → CallsFirst now nodes place
choose now best none nodes h b e = absurd (omega (arith, h, rank_zero, ap rank e))
choose now best (some place) nodes h b (fn, at, may, e) =
    (fn, at, may, rw (← e) h, subst (λ f. All (Bounds now f) nodes) e b)

choice_cases :
    (now best : ℕ) (place : Option ℕ) (nodes : List FtnNode)
    → All (Bounds now best) nodes
    → Chosen now nodes best place
    → CallsFirst now nodes (if not (best == 0) && not (tolower best == b'h') then place else none)
choice_cases now best place nodes bounds chosen =
    let zero_iff = ==_iff best 0 in
    let hold_iff = ==_iff (tolower best) b'h' in
    elim (Bool-cases (best == 0)) [
      | inl e ↦
          rw e (weaken now best nodes (omega (arith, rank_zero, ap rank (zero_iff.0 e))) bounds)
      | inr e ↦ elim (Bool-cases (tolower best == b'h')) [
        | inl k ↦ rw (e, k) (weaken now best nodes (rank_hold best (hold_iff.0 k)) bounds)
        | inr k ↦
            rw (e, k)
              (choose now best place nodes
                (rank_call best (λ z. absurd (cc (e, zero_iff.1 z)))
                  (λ z. absurd (cc (k, hold_iff.1 z))))
                bounds chosen)
      ]
    ]

-- The node that q_not_empty chooses may be called, has a flavour before hold, and no node that may
-- be called has an earlier one; where it chooses none, every node that may be called is on hold or
-- has no mail and no files.
pub q_not_empty-CallsFirst :
    (now : ℕ) (nodes : List FtnNode) → CallsFirst now nodes (q_not_empty now nodes)
unfolding q_not_empty
q_not_empty-CallsFirst now nodes =
    let a = foreach_not_empty now 0 nodes no_choice in
    choice_cases now a.maxflvr a.fn nodes (foreach-Bounds now 0 nodes no_choice)
      (foreach-Chosen now 0 nodes nodes no_choice (λ i. ap (get_elem? nodes) (omega arith)) refl)
