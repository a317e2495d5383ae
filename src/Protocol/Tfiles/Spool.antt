-- ===== src/Protocol/Tfiles/Spool.antt =====
-- protocol.c: which operations of a session ask for the removal of a file from the spool.
use mathlib.Core.List.{append-nil}
use binkd.Base.{List, [], ◌∷◌, ◌++◌, Bytes, Bool-cases, inl, inr, ◌≡◌, refl, ap, ◌∙◌}
use binkd.Base.Int.{minus_one, eqb_ℤ}
use binkd.Ftn.{FtnAddr}
use binkd.Protocol.Env.{Env}
use binkd.Protocol.Send.{msg_send2}
use binkd.Protocol.State.{
  Effect, set_status, remove_from_spool, inb_reject, inb_done, bad_try, touch, State,
}
use binkd.Protocol.Tfiles.{nd_set_status, cannot_parse}

-- The removals among the effects.
abbrev pub removed : List Effect → List Effect
removed [] = []
removed (remove_from_spool flo path action ∷ es) = remove_from_spool flo path action ∷ removed es
removed (set_status status fa ∷ es) = removed es
removed (inb_reject netname ∷ es) = removed es
removed (inb_done f ∷ es) = removed es
removed (bad_try fa error ∷ es) = removed es
removed (touch path ∷ es) = removed es

-- The removals that `s` leads to in `t` are none.
abbrev pub KeepsSpool : State → State → Type 0
KeepsSpool s t = removed t.effects ≡ removed s.effects

pub removed-append : (es fs : List Effect) → removed (es ++ fs) ≡ removed es ++ removed fs
removed-append [] fs = refl
removed-append (remove_from_spool flo path action ∷ es) fs =
    ap (◌∷◌ (remove_from_spool flo path action)) (removed-append es fs)
removed-append (set_status status fa ∷ es) fs = removed-append es fs
removed-append (inb_reject netname ∷ es) fs = removed-append es fs
removed-append (inb_done f ∷ es) fs = removed-append es fs
removed-append (bad_try fa error ∷ es) fs = removed-append es fs
removed-append (touch path ∷ es) fs = removed-append es fs

pub removed_other :
    (es : List Effect) (e : Effect) → removed (e ∷ []) ≡ [] → removed (es ++ e ∷ []) ≡ removed es
removed_other es e h =
    removed-append es (e ∷ [])
    ∙ ap (λ (l : List Effect). removed es ++ l) h
    ∙ append-nil (removed es)

-- `ND_set_status` changes nothing of the session but its effects, and removes nothing.
pub nd_set_status_effects :
    (env : Env) (status : Bytes) (fa : FtnAddr) (s : State)
    → (es : List Effect) × ((nd_set_status env status fa s).0 ≡ record s { effects = es })
      × (removed es ≡ removed s.effects)
unfolding nd_set_status
nd_set_status_effects env status fa s = elim (Bool-cases (eqb_ℤ fa.z minus_one)) [
  | inl unknown ↦ (s.effects, rw unknown refl, refl)
  | inr known ↦ (
    s.effects ++ set_status status fa ∷ [],
    rw known refl,
    removed_other s.effects (set_status status fa) refl,
  )
]

pub nd_set_status-KeepsSpool :
    (env : Env) (status : Bytes) (fa : FtnAddr) (s : State)
    → KeepsSpool s (nd_set_status env status fa s).0
nd_set_status-KeepsSpool env status fa s =
    let k = nd_set_status_effects env status fa s in ap (λ (t : State). removed t.effects) k.1 ∙ k.2

pub cannot_parse-KeepsSpool :
    (env : Env) (id : Bytes) (s : State) → KeepsSpool s (cannot_parse env id s)
unfolding cannot_parse msg_send2
cannot_parse-KeepsSpool env id s = refl
