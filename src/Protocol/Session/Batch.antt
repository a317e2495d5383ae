-- ===== src/Protocol/Session/Batch.antt =====
-- protocol.c: how a batch ends, and that the loop waits for the remote only where it has to.
use binkd.Base.{ℕ, Bool, true, false, List, [], Option, none, some, ◌≡◌, refl, ◌∙◌, if_ind, arith}
use binkd.Base.Int.{minus_one, pos, eqb_ℤ, eqb_ℤ_iff}
use binkd.Ftnq.{Ftnq}
use binkd.Protocol.Env.{Config}
use binkd.Protocol.Start.{is_some, ok_send_files}
use binkd.Protocol.State.{State}
use binkd.Protocol.Tfiles.{nd_set_status}
use binkd.Protocol.Outgoing.{Files, Session}
use binkd.Protocol.Session.{
  is_empty_list, send_eob, batch_is_over, Hooks, process_received, add_received, is_last_batch,
  search_round, close_session, next_batch, Round, closed, again, end_of_batch, finish_round,
  start_round, refill, Refilled, refilled, null_pointer, no_fuel, is_successful, may_refill,
}

-- Nothing is in transfer in either direction, and every file that was sent is acknowledged.
abbrev pub IsIdle : State → Type 0
IsIdle s =
    (is_empty_list s.sent_fls ≡ true)
    × (is_some s.in_file.f ≡ false)
    × (is_some s.out_file.f ≡ false)

-- How a round may end the batch.
abbrev pub BatchEnded : Round → Type 0
BatchEnded (closed t) =
    IsIdle t.state
    × (t.state.local_eob ≡ true)
    × (t.state.remote_eob ≡ true)
    × (t.state.get_file_balance ≡ pos 0)
    × (is_successful t.state ≡ true)
BatchEnded (again t) =
    IsIdle t.state
    × (t.state.local_eob ≡ false)
    × (t.state.remote_eob ≡ false)
    × (t.state.msgs_in_batch ≡ 0)
BatchEnded _ = Unit

over-IsIdle : (s : State) → batch_is_over s ≡ true → IsIdle s
unfolding batch_is_over
over-IsIdle s h = ground arith

over-BatchEnded : (t : Session) → batch_is_over t.state ≡ true → BatchEnded (closed t)
unfolding batch_is_over is_successful
over-BatchEnded t h =
    let balance : eqb_ℤ t.state.get_file_balance (pos 0) ≡ true = ground (arith, h) in
    let left : t.state.local_eob ≡ true = ground (arith, h) in
    let right : t.state.remote_eob ≡ true = ground (arith, h) in
    (
      over-IsIdle t.state h,
      left,
      right,
      (eqb_ℤ_iff t.state.get_file_balance (pos 0)).0 balance,
      ground (arith, h),
    )

nd_set_status_over :
    (files : Files) (s : State)
    → batch_is_over (nd_set_status files.env [] s.nd_addr s).0 ≡ batch_is_over s
unfolding batch_is_over nd_set_status
nd_set_status_over files s =
    if_ind (λ (r : State × Bool). batch_is_over r.0 ≡ batch_is_over s) (eqb_ℤ s.nd_addr.z minus_one)
      (λ e. refl) (λ e. refl)

close_session_over :
    (files : Files) (t : Session)
    → batch_is_over (close_session files t).state ≡ batch_is_over t.state
unfolding batch_is_over close_session
close_session_over files t = nd_set_status_over files t.state

add_received_over :
    (t : Session) (o : Option (List Ftnq))
    → batch_is_over (add_received t o).state ≡ batch_is_over t.state
unfolding batch_is_over add_received
add_received_over t none = refl
add_received_over t (some queue) = refl

next_batch-BatchEnded :
    (files : Files) (config : Config) (hooks : Hooks) (t : Session)
    → IsIdle t.state
    → BatchEnded (again (next_batch files config hooks t))
unfolding next_batch
next_batch-BatchEnded files config hooks t h =
    let s = record t.state { msgs_in_batch = 0; remote_eob = false; local_eob = false } in
    if_ind (λ (u : State). BatchEnded (again (record t { state = u }))) (ok_send_files s config)
      (λ e. (h, refl, refl, refl)) (λ e. (h, refl, refl, refl))

end_of_batch-BatchEnded :
    (files : Files) (config : Config) (hooks : Hooks) (t : Session)
    → batch_is_over t.state ≡ true
    → BatchEnded (end_of_batch files config hooks t)
unfolding end_of_batch process_received
end_of_batch-BatchEnded files config hooks t h =
    let u = process_received hooks t in
    let over : batch_is_over u.state ≡ true =
      add_received_over t (hooks.process_rcvdlist t.state) ∙ h in
    if_ind BatchEnded (is_last_batch u.state)
      (λ e. over-BatchEnded (close_session files u) (close_session_over files u ∙ over))
      (λ e. next_batch-BatchEnded files config hooks u (over-IsIdle u.state over))

finish_round-BatchEnded :
    (files : Files) (config : Config) (hooks : Hooks) (t : Session)
    → BatchEnded (finish_round files config hooks t)
unfolding finish_round
finish_round-BatchEnded files config hooks t =
    let u = record t { state = send_eob files t.state } in
    if_ind BatchEnded (batch_is_over u.state) (λ e. end_of_batch-BatchEnded files config hooks u e)
      (λ e. tt)

search_round-BatchEnded :
    (files : Files) (config : Config) (hooks : Hooks) (r : Refilled)
    → BatchEnded (search_round files config hooks r)
unfolding search_round
search_round-BatchEnded files config hooks (refilled u) =
    finish_round-BatchEnded files config hooks u
search_round-BatchEnded files config hooks null_pointer = tt
search_round-BatchEnded files config hooks no_fuel = tt

-- A round of the main loop that ends the session leaves one where both sides have sent M_EOB, nothing
-- is in transfer, every file sent is acknowledged, each M_GET is answered, and so the test behind the
-- loop finds it successful. A round that begins the next batch leaves nothing in transfer, every file
-- acknowledged, and no M_EOB and no message counted for the new batch.
pub start_round-BatchEnded :
    (fuel : ℕ) (files : Files) (config : Config) (hooks : Hooks) (t : Session)
    → BatchEnded (start_round fuel files config hooks t)
unfolding start_round
start_round-BatchEnded fuel files config hooks t =
    if_ind BatchEnded (may_refill t.state)
      (λ e. search_round-BatchEnded files config hooks (refill fuel files t))
      (λ e. finish_round-BatchEnded files config hooks t)
