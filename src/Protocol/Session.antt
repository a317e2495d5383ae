-- ===== src/Protocol/Session.antt =====
-- protocol.c: the main loop of a session, from the choice of the next file to the end of the batch.
pub mod Refill
pub mod Batch
pub mod Ready
use binkd.Base.{
  ℕ, zero, suc, ◌+◌, ◌*◌, Bool, true, false, not, ◌&&◌, ◌||◌, List, [], ◌∷◌, ◌++◌, Option, none,
  some, Bytes, leb, ltb, ◌==◌, if◌then◌else◌,
}
use binkd.Base.Int.{pos, minus_one, eqb_ℤ}
use binkd.Ftnq.{Ftnq, select_next_file, q_sort}
use binkd.Protocol.Env.{Config}
use binkd.Protocol.Send.{Sent, msg_send2, send_block}
use binkd.Protocol.Recv.{Received, Commands, recv_block}
use binkd.Protocol.Start.{is_some, ok_send_files}
use binkd.Protocol.State.{m_eob, Security, p_null, Tfile, State}
use binkd.Protocol.Tfiles.{nd_set_status}
use binkd.Protocol.Outgoing.{Flo, Files, Session, start_file_transfer}

abbrev pub is_empty_list {ℓ} : {A : Type ℓ} → List A → Bool
is_empty_list [] = true
is_empty_list (x ∷ xs) = false

abbrev pub is_null : Security → Bool
is_null p_null = true
is_null _ = false

-- The loop that looks for the next file ended with a session, met a null pointer, or ran out of the
-- model's fuel.
pub data Refilled : Type 0 where
  refilled : Session → Refilled
  null_pointer no_fuel : Refilled

abbrev pub with_queue : List Ftnq → Session → Session
with_queue q t = record t { state = record t.state { q = q } }

-- One round of that loop: a file was offered, one was passed over, no file is left, or a null
-- pointer was used.
pub data Tried : Type 0 where
  offered passed no_more : Session → Tried
  tried_null : Tried

unfoldable pub tried : Option (Session × Bool) → Tried
tried none = tried_null
tried (some (t, true)) = offered t
tried (some (t, false)) = passed t

unfoldable pub try_queue : Files → Session → Option (Ftnq × List Ftnq) → Tried
unfolding tried start_file_transfer
try_queue files t none = no_more (with_queue [] t)
try_queue files t (some (file, q)) = tried (start_file_transfer files (some file) (with_queue q t))

unfoldable pub try_from : Files → Session → Option Flo → Tried
unfolding tried try_queue start_file_transfer select_next_file
try_from files t none = try_queue files t (select_next_file t.state.q)
try_from files t (some flo) = tried (start_file_transfer files none t)

unfoldable pub try_next_file : Files → Session → Tried
unfolding try_from
try_next_file files t = try_from files t t.flo

-- What one round comes to, with the rounds behind it.
unfoldable pub go_on : (Session → Refilled) → Tried → Refilled
go_on more (offered t) = refilled t
go_on more (passed t) = more t
go_on more (no_more t) = refilled t
go_on more tried_null = null_pointer

-- "Next .pkt, .flo or a file"
unfoldable pub refill : ℕ → Files → Session → Refilled
unfolding try_next_file go_on
refill zero files t = no_fuel
refill (suc fuel) files t = go_on (λ u. refill fuel files u) (try_next_file files t)

-- "If the queue is not empty and there is no file in transfer"
unfoldable pub may_refill : State → Bool
may_refill s =
    not s.local_eob
    && not (is_empty_list s.q)
    && not (is_some s.out_file.f)
    && not s.waiting_for_got
    && not s.off_req_sent
    && not (is_null s.security)

-- "No more files to send in this batch, so send EOB"
unfoldable pub may_send_eob : State → Bool
may_send_eob s =
    not (is_some s.out_file.f)
    && is_empty_list s.q
    && not s.local_eob
    && not (is_null s.security)
    && is_empty_list s.sent_fls
    && (s.delay_eob == 0 || ltb 100 (s.major * 100 + s.minor))

unfoldable pub send_eob : Files → State → State
unfolding may_send_eob msg_send2
send_eob files s =
    if may_send_eob s then msg_send2 files.env m_eob [] [] (record s { local_eob = true }) else s

-- The socket is watched for writing.
unfoldable pub wants_write : State → Bool
wants_write s =
    not (is_empty_list s.msgs)
    || (is_some s.out_file.f && not s.off_req_sent && not s.waiting_for_got)
    || not (is_empty_list s.pending)
    || s.send_eof

-- Both sides have ended the batch, and nothing is in transfer or waits for an answer.
unfoldable pub batch_is_over : State → Bool
unfolding eqb_ℤ
batch_is_over s =
    s.remote_eob
    && is_empty_list s.sent_fls
    && s.local_eob
    && eqb_ℤ s.get_file_balance (pos 0)
    && not (is_some s.in_file.f)
    && not (is_some s.out_file.f)

-- The queue without the files to be deleted after any session, and their names.
unfoldable pub q_to_killlist : List Ftnq → List Ftnq × List Bytes
q_to_killlist [] = ([], [])
q_to_killlist (curr ∷ queue) =
    let (q, names) = q_to_killlist queue in
    if curr.action == b'a'
    then (record curr { action = 0 } ∷ q, curr.path ∷ names)
    else (curr ∷ q, names)

-- What the loop asks of the rest of the program: the files that the programs run for the received
-- ones add to the queue (none if no file was received in the batch), and the queue with the files
-- of the file boxes.
pub record Hooks : Type 0 where
  pub process_rcvdlist : State → Option (List Ftnq)
  pub q_scan_boxes : State → List Ftnq

unfoldable pub add_received : Session → Option (List Ftnq) → Session
unfolding q_to_killlist
add_received t none = t
add_received t (some queue) =
    let (q, names) = q_to_killlist queue in
    record (with_queue q t) { killlist = t.killlist ++ names }

unfoldable pub process_received : Hooks → Session → Session
unfolding add_received
process_received hooks t = add_received t (hooks.process_rcvdlist t.state)

-- Only the two M_EOB were sent in the batch, or the protocol is binkp 1.0 or lower.
unfoldable pub is_last_batch : State → Bool
is_last_batch s = leb s.msgs_in_batch 2 || leb (s.major * 100 + s.minor) 100

abbrev clear_nd_addr : State → State
clear_nd_addr s = record s { nd_addr = record s.nd_addr { z = minus_one } }

unfoldable pub close_session : Files → Session → Session
unfolding nd_set_status
close_session files t = record t {
  state = clear_nd_addr (nd_set_status files.env [] t.state.nd_addr t.state).0;
}

unfoldable pub next_batch : Files → Config → Hooks → Session → Session
unfolding ok_send_files q_sort
next_batch files config hooks t =
    let s = record t.state { msgs_in_batch = 0; remote_eob = false; local_eob = false } in
    let scanned = q_sort files.env.pmatch_ncase (hooks.q_scan_boxes s) s.fa in
    record t { state = if ok_send_files s config then record s { q = scanned } else s }

-- What the part of the loop in front of `select` comes to.
pub data Round : Type 0 where
  -- the session is over
  closed : Session → Round
  -- `continue`, for the next batch
  again : Session → Round
  -- `select`, with whether the socket is watched for writing
  waits : Session → Bool → Round
  -- a null pointer was used, or the fuel ran out
  crashed starved : Round

unfoldable pub end_of_batch : Files → Config → Hooks → Session → Round
unfolding process_received is_last_batch close_session next_batch
end_of_batch files config hooks t =
    let u = process_received hooks t in
    if is_last_batch u.state
    then closed (close_session files u)
    else again (next_batch files config hooks u)

unfoldable pub finish_round : Files → Config → Hooks → Session → Round
unfolding send_eob wants_write batch_is_over end_of_batch
finish_round files config hooks t =
    let u = record t { state = send_eob files t.state } in
    if batch_is_over u.state
    then end_of_batch files config hooks u
    else waits u (wants_write u.state)

-- The round, behind the search for the next file.
unfoldable pub search_round : Files → Config → Hooks → Refilled → Round
unfolding finish_round
search_round files config hooks (refilled t) = finish_round files config hooks t
search_round files config hooks null_pointer = crashed
search_round files config hooks no_fuel = starved

unfoldable pub start_round : ℕ → Files → Config → Hooks → Session → Round
unfolding may_refill refill finish_round search_round
start_round fuel files config hooks t =
    if may_refill t.state
    then search_round files config hooks (refill fuel files t)
    else finish_round files config hooks t

-- After `select`: a block is read if there is one, then a block is sent if the socket takes it.
-- False ends the session.
unfoldable pub finish_select :
    Files → Config → Commands → Option Received → Option Sent → Session → Session × Bool
unfolding recv_block send_block
finish_select files config commands received sent t =
    let (s, ok) : State × Bool = elim received [
      | none ↦ (t.state, true)
      | some r ↦ recv_block files.env commands r t.state
    ] in
    let (u, sent_no) : State × ℕ = elim sent [
      | none ↦ (s, 1)
      | some w ↦ send_block files.env config w s
    ] in
    if ok then (record t { state = u }, not (sent_no == 0)) else (record t { state = s }, false)

-- The test behind the loop: "Successful session".
unfoldable pub is_successful : State → Bool
unfolding eqb_ℤ
is_successful s =
    s.local_eob
    && s.remote_eob
    && is_empty_list s.sent_fls
    && eqb_ℤ s.get_file_balance (pos 0)
    && not (is_some s.in_file.f)
    && not (is_some s.out_file.f)
