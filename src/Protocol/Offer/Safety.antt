-- ===== src/Protocol/Offer/Safety.antt =====
-- protocol.c: what M_EOB leaves open, and where an offered file is accepted.
use binkd.Base.{
  ℕ, Bool, true, false, not, ◌&&◌, ◌||◌, none, if◌then◌else◌, ◌==◌, Bool-cases, inl, inr, ◌⊎◌, ◌≡◌,
  refl, sym, ap, ◌∙◌, arith,
}
use binkd.Protocol.Env.{Env}
use binkd.Protocol.Send.{msg_send2}
use binkd.Protocol.State.{File, Tfile, State}
use binkd.Protocol.Tfiles.{finish_file, close_partial, is_empty}
use binkd.Protocol.Offer.{finish_complete, eob_in, eob, ask_offset, accept_offset}

-- A file in transfer stays as it is while a complete one is renamed.
finish_complete-in_file :
    (env : Env) (s : State)
    → ((finish_complete env s).0.in_file ≡ s.in_file)
      × ((finish_complete env s).0.remote_eob ≡ s.remote_eob)
unfolding finish_complete finish_file msg_send2
finish_complete-in_file env s = ground arith

eob_in-closed :
    (env : Env) (s : State)
    → ((eob_in env s).in_file.f ≡ none) × ((eob_in env s).remote_eob ≡ s.remote_eob)
unfolding eob_in close_partial
eob_in-closed env s = ground arith

-- What waits in ND mode is renamed, or the session ends.
finish_complete-in_complete :
    (env : Env) (s : State)
    → (finish_complete env s).1 ≡ true
    → (s.nd_flag.they_nd && not (is_empty (finish_complete env s).0.in_complete.netname)) ≡ false
unfolding finish_complete finish_file msg_send2
finish_complete-in_complete env s h = ground arith

-- The end of a batch: nothing is open to receive, and where the session goes on nothing that was
-- received in ND mode waits for its rename, and the delay of our own M_EOB is over.
abbrev pub BatchEnds : Bool → State × Bool → Type 0
BatchEnds they_nd (t, rc) =
    (t.remote_eob ≡ true)
    × (t.in_file.f ≡ none)
    × (rc ≡ true → (t.delay_eob ≡ 0) × ((they_nd && not (is_empty t.in_complete.netname)) ≡ false))

finish_eob :
    (they_nd : Bool) (r : State × Bool)
    → r.0.remote_eob ≡ true
    → r.0.in_file.f ≡ none
    → (r.1 ≡ true → (they_nd && not (is_empty r.0.in_complete.netname)) ≡ false)
    → BatchEnds they_nd (if r.1 then (record r.0 { delay_eob = 0 }, true) else (r.0, false))
finish_eob they_nd (t, true) remote closed done = (remote, closed, λ _. (refl, done refl))
finish_eob they_nd (t, false) remote closed done = (remote, closed, λ e. absurd (cc (e)))

eob_in-they_nd : (env : Env) (s : State) → (eob_in env s).nd_flag.they_nd ≡ s.nd_flag.they_nd
unfolding eob_in close_partial
eob_in-they_nd env s = ground arith

-- M_EOB ends the batch of the remote as `BatchEnds` says, whatever was in transfer.
pub eob-BatchEnds : (env : Env) (s : State) → BatchEnds s.nd_flag.they_nd (eob env s)
unfolding eob
eob-BatchEnds env s =
    let t = record s { remote_eob = true } in
    let u = eob_in env t in
    let closed = eob_in-closed env t in
    let kept = finish_complete-in_file env u in
    finish_eob s.nd_flag.they_nd (finish_complete env u) (kept.1 ∙ closed.1)
      (ap (λ (f : Tfile). f.f) kept.0 ∙ closed.0)
      (λ h.
        ap (λ (b : Bool). b && not (is_empty (finish_complete env u).0.in_complete.netname))
          (sym (eob_in-they_nd env t))
        ∙ finish_complete-in_complete env u h)

-- For an offered file `f` that is open, either nothing is open to receive after the handler, or the
-- file in transfer is as before, the remote did not ask for an offset, and it sends from the very
-- offset up to which the file is here.
pub accept_offset-at_end :
    (env : Env) (off_req : Bool) (offset : ℕ) (f : File) (s : State)
    → (let (t, rc) = accept_offset env off_req offset f s in
        (t.in_file.f ≡ none) ⊎ ((t.in_file ≡ s.in_file) × (off_req ≡ false) × (offset ≡ f.offset)))
unfolding accept_offset ask_offset msg_send2
accept_offset-at_end env off_req offset f s =
    elim (Bool-cases (off_req || not (offset == f.offset))) [
      | inl ask ↦ rw ask (inl refl)
      | inr take ↦ rw take (inr (ground arith, ground arith, ground arith))
    ]
