-- ===== src/Protocol/Adr/Password.antt =====
-- protocol.c: what the checks of one address in M_ADR leave, the check of its password first.
use binkd.Base.{
  true, false, not, ◌&&◌, ◌||◌, List, [], ◌∷◌, Option, none, some, Bytes, All, bytes_eq,
  bytes_eq_iff, ◌==◌, ◌≡◌, ◌⊎◌, inl, inr, refl, sym, ◌∙◌, ap, if_ind, Bool-cases, arith,
}
use binkd.Ftn.{FtnAddr}
use binkd.Protocol.Start.{is_some}
use binkd.Protocol.State.{State}
use binkd.Protocol.Adr.{
  Peer, Peers, SourceIp, ip_match, ip_differs, ip_unresolved, ip_unknown, Seen, AddressCheck,
  goes_on, skips, ends, is_open, is_disabled, refuse_ip, compare_ip, check_ip, is_remote_fa, expect,
  match_pwd, then_check,
}

-- The node has no password, a disabled one, or the one that is expected; where nothing is left to
-- expect, every password is refused.
abbrev pub GuardedPeer : Bytes → Option Peer → Type 0
GuardedPeer expected none = Unit
GuardedPeer expected (some pn) =
    (is_open pn.pwd ≡ true) ⊎ (is_disabled pn.pwd ≡ true) ⊎ (expected ≡ []) ⊎ (expected ≡ pn.pwd)

abbrev pub Guarded : Peers → Bytes → FtnAddr → Type 0
Guarded peers expected fa = GuardedPeer expected (peers.get_node_info fa)

-- What holds of every session that answers a call.
abbrev pub IsGuarded : Peers → State → Type 0
IsGuarded peers s = (s.to ≡ none) × All (Guarded peers s.expected_pwd) s.fa

-- A new password is expected only after "-" or "!", or none is left to expect.
abbrev Moves : Bytes → Bytes → Type 0
Moves old new = (is_open old ≡ true) ⊎ (is_disabled old ≡ true) ⊎ (new ≡ []) ⊎ (new ≡ old)

open_nonempty : (pwd : Bytes) → pwd ≡ [] → is_open pwd ≡ false
unfolding bytes_eq
open_nonempty pwd e = rw e refl

disabled_nonempty : (pwd : Bytes) → pwd ≡ [] → is_disabled pwd ≡ false
unfolding bytes_eq
disabled_nonempty pwd e = rw e refl

Guarded-Moves :
    (old new : Bytes) (pn : Option Peer) → Moves old new → GuardedPeer old pn → GuardedPeer new pn
Guarded-Moves old new none m g = tt
Guarded-Moves old new (some pn) m (inl e) = inl e
Guarded-Moves old new (some pn) m (inr (inl e)) = inr (inl e)
Guarded-Moves old new (some pn) (inl o) (inr (inr (inl e))) = absurd (cc (o, open_nonempty old e))
Guarded-Moves old new (some pn) (inr (inl o)) (inr (inr (inl e))) =
    absurd (cc (o, disabled_nonempty old e))
Guarded-Moves old new (some pn) (inr (inr (inl n))) g = inr (inr (inl n))
Guarded-Moves old new (some pn) (inr (inr (inr n))) (inr (inr (inl e))) = inr (inr (inl (n ∙ e)))
Guarded-Moves old new (some pn) (inl o) (inr (inr (inr e))) = inl (ap is_open (sym e) ∙ o)
Guarded-Moves old new (some pn) (inr (inl o)) (inr (inr (inr e))) =
    inr (inl (ap is_disabled (sym e) ∙ o))
Guarded-Moves old new (some pn) (inr (inr (inr n))) (inr (inr (inr e))) = inr (inr (inr (n ∙ e)))

All-Moves :
    (peers : Peers) (old new : Bytes) (fas : List FtnAddr)
    → Moves old new
    → All (Guarded peers old) fas
    → All (Guarded peers new) fas
All-Moves peers old new [] m h = tt
All-Moves peers old new (fa ∷ fas) m h =
    (Guarded-Moves old new (peers.get_node_info fa) m h.0, All-Moves peers old new fas m h.1)

-- A property of the session behind a check that keeps it, where the check does not end it.
abbrev pub Leaves : (State → Type 0) → AddressCheck → Type 0
Leaves P (goes_on t) = P t.state
Leaves P (skips t) = P t.state
Leaves P (ends s) = Unit

refuse_ip-Leaves :
    (P : State → Type 0) (peers : Peers) (pn : Peer) (t : Seen)
    → P t.state
    → Leaves P (refuse_ip peers pn t)
unfolding refuse_ip
refuse_ip-Leaves P peers pn t h =
    if_ind (Leaves P) (not (is_open pn.pwd) && not (is_some t.state.to)) (λ e. tt) (λ e. h)

compare_ip-Leaves :
    (P : State → Type 0) (peers : Peers) (pn : Peer) (t : Seen) (ip : SourceIp)
    → P t.state
    → Leaves P (compare_ip peers pn t ip)
unfolding compare_ip
compare_ip-Leaves P peers pn t ip_match h = h
compare_ip-Leaves P peers pn t ip_differs h = refuse_ip-Leaves P peers pn t h
compare_ip-Leaves P peers pn t ip_unresolved h =
    if_ind (Leaves P) (pn.restrict_ip == 2) (λ e. refuse_ip-Leaves P peers pn t h) (λ e. h)
compare_ip-Leaves P peers pn t ip_unknown h =
    if_ind (Leaves P) (pn.restrict_ip == 2) (λ e. refuse_ip-Leaves P peers pn t h) (λ e. h)

pub check_ip-Leaves :
    (P : State → Type 0) (peers : Peers) (fa : FtnAddr) (pn : Option Peer) (t : Seen)
    → P t.state
    → Leaves P (check_ip peers fa pn t)
unfolding check_ip
check_ip-Leaves P peers fa none t h = h
check_ip-Leaves P peers fa (some pn) t h =
    if_ind (Leaves P)
      (not (pn.restrict_ip == 0)
        && (not (is_some t.state.to) || (not pn.has_pipe && not peers.uses_proxy)))
      (λ e. compare_ip-Leaves P peers pn t (peers.source_ip fa) h) (λ e. h)

password_or : (old new : Bytes) → is_open old || is_disabled old ≡ true → Moves old new
password_or old new h = elim (Bool-cases (is_open old)) [
  | inl e ↦ inl e
  | inr e ↦ inr (inl (ground arith))
]

password_guards :
    (expected : Bytes) (pn : Peer)
    → bytes_eq expected pn.pwd || is_disabled pn.pwd ≡ true
    → GuardedPeer expected (some pn)
password_guards expected pn h = elim (Bool-cases (is_disabled pn.pwd)) [
  | inl e ↦ inr (inl e)
  | inr e ↦ inr (inr (inr ((bytes_eq_iff expected pn.pwd).0 (ground arith))))
]

-- Behind the check of its password the address is guarded.
abbrev pub LeavesGuarded : Peers → Option Peer → AddressCheck → Type 0
LeavesGuarded peers pn (goes_on t) = IsGuarded peers t.state × GuardedPeer t.state.expected_pwd pn
LeavesGuarded peers pn (skips t) = IsGuarded peers t.state
LeavesGuarded peers pn (ends s) = Unit

module _ (peers : Peers) where
  expect-IsGuarded :
      (new : Bytes) (t : Seen)
      → Moves t.state.expected_pwd new
      → IsGuarded peers t.state
      → IsGuarded peers (expect new t).state
  expect-IsGuarded new t m h = (h.0, All-Moves peers t.state.expected_pwd new t.state.fa m h.1)

  pub match_pwd-LeavesGuarded :
      (fa : FtnAddr) (pn : Peer) (t : Seen)
      → IsGuarded peers t.state
      → LeavesGuarded peers (some pn) (match_pwd peers fa pn.md_flag pn.pwd t)
  unfolding match_pwd
  match_pwd-LeavesGuarded fa pn t h =
      let expected = t.state.expected_pwd in
      let closed = expect-IsGuarded [] t (inr (inr (inl refl))) h in
      let P = LeavesGuarded peers (some pn) in
      if_ind P (is_disabled pn.pwd && not (is_remote_fa peers fa)) (λ e. closed)
        (λ e.
          if_ind P (is_open expected || is_disabled expected)
            (λ k.
              (expect-IsGuarded pn.pwd t (password_or expected pn.pwd k) h, inr (inr (inr refl))))
            (λ k.
              if_ind P (bytes_eq expected pn.pwd || is_disabled pn.pwd)
                (λ l. (h, password_guards expected pn l))
                (λ l.
                  if_ind (λ (u : Seen). IsGuarded peers u.state) (is_some t.state.to) (λ m. h)
                    (λ m. closed))))

-- A check in a row of checks.
abbrev pub LeavesWith : (Seen → Type 0) → (State → Type 0) → AddressCheck → Type 0
LeavesWith Q P (goes_on t) = Q t
LeavesWith Q P (skips t) = P t.state
LeavesWith Q P (ends s) = Unit

pub then_check-Leaves :
    (Q : Seen → Type 0) (P : State → Type 0) (r : AddressCheck) (next : Seen → AddressCheck)
    → LeavesWith Q P r
    → ((t : Seen) → Q t → Leaves P (next t))
    → Leaves P (then_check r next)
then_check-Leaves Q P (goes_on t) next h k = k t h
then_check-Leaves Q P (skips t) next h k = h
then_check-Leaves Q P (ends s) next h k = tt

pub Leaves-LeavesWith :
    (P : State → Type 0) (r : AddressCheck) → Leaves P r → LeavesWith (λ t. P t.state) P r
Leaves-LeavesWith P (goes_on t) h = h
Leaves-LeavesWith P (skips t) h = h
Leaves-LeavesWith P (ends s) h = h
