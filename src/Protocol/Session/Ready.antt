-- ===== src/Protocol/Session/Ready.antt =====
-- protocol.c: the main loop waits for the remote without anything to write only where an answer of
-- the remote is due.
use binkd.Base.{
  ℕ, zero, suc, ◌+◌, ◌*◌, Bool, true, false, not, ◌&&◌, ◌||◌, List, [], ◌∷◌, ◌++◌, Option, none,
  some, Bytes, ltb, ◌==◌, ◌≡◌, refl, ap, if_ind, inl, inr, arith, ◌⊎◌,
}
use binkd.Ftnq.{Ftnq, select_next_file}
use mathlib.Core.Path.{subst}
use binkd.Ftnq.Flavour.{max_flvr}
use binkd.Protocol.Env.{Env, Config}
use binkd.Protocol.Send.{msg_send2}
use binkd.Protocol.Start.{is_some}
use binkd.Protocol.State.{State}
use binkd.Protocol.Outgoing.{
  Flo, Files, Session, FloSearch, flo_end, flo_file, flo_null, flo_from, from_flo, dont_send,
  offer_out, send_out, flo_found, send_flo_file, send_queue_file, open_queue_file, new_flo,
  open_flo, start_queue_file, clear_out, start_from, start_given_file, start_file_transfer,
  is_listed,
}
use binkd.Protocol.Session.{
  is_empty_list, is_null, may_send_eob, send_eob, wants_write, batch_is_over, Hooks, Tried, offered,
  passed, no_more, tried_null, tried, try_queue, try_from, try_next_file, go_on, Round, waits,
  end_of_batch, finish_round, search_round, start_round, refill, Refilled, refilled, null_pointer,
  no_fuel, with_queue, may_refill, is_last_batch, process_received,
}

abbrev HasMessage : State → Type 0
HasMessage s = is_empty_list s.msgs ≡ false

-- A file that is offered leaves a message in the queue.
abbrev Offers : Option (Session × Bool) → Type 0
Offers (some (t, true)) = HasMessage t.state
Offers _ = Unit

append_nonempty {ℓ} : {A : Type ℓ} (xs : List A) (x : A) → is_empty_list (xs ++ x ∷ []) ≡ false
append_nonempty [] x = refl
append_nonempty (y ∷ xs) x = refl

msg_send2-HasMessage :
    (env : Env) (m : ℕ) (a b : Bytes) (s : State) → HasMessage (msg_send2 env m a b s)
unfolding msg_send2
msg_send2-HasMessage env m a b s = append_nonempty s.msgs _

offer_out-HasMessage : (env : Env) (s : State) → HasMessage (offer_out env s)
unfolding offer_out msg_send2
offer_out-HasMessage env s =
    if_ind HasMessage s.nr_flag.we_nr (λ e. append_nonempty s.msgs _)
      (λ e. append_nonempty s.msgs _)

send_out-Offers : (files : Files) (type : ℕ) (t : Session) → Offers (some (send_out files type t))
unfolding send_out
send_out-Offers files type t =
    if_ind (λ (r : Session × Bool). Offers (some r)) (dont_send files type t.state.out_file)
      (λ e. tt) (λ e. offer_out-HasMessage files.env t.state)

flo_found-Offers :
    (files : Files) (flo : Flo) (t : Session) (r : FloSearch) → Offers (flo_found files flo t r)
unfolding flo_found
flo_found-Offers files flo t flo_null = tt
flo_found-Offers files flo t (flo_end s) = tt
flo_found-Offers files flo t (flo_file path action content lines s) = send_out-Offers files 0 _

send_flo_file-Offers :
    (files : Files) (file : Option Bytes) (flo : Flo) (t : Session)
    → Offers (send_flo_file files file flo t)
unfolding send_flo_file
send_flo_file-Offers files file flo t =
    flo_found-Offers files flo t
      (flo_from files t.nosendlist file flo.path flo.lines (from_flo flo t.state))

open_queue_file-Offers :
    (files : Files) (file : Ftnq) (t : Session) (o : Option Bytes)
    → Offers (open_queue_file files file t o)
unfolding open_queue_file send_queue_file
open_queue_file-Offers files file t none = tt
open_queue_file-Offers files file t (some content) =
    if_ind Offers (file.type == b'l')
      (λ e.
        send_flo_file-Offers files (some file.path) (new_flo file content)
          (open_flo file content t))
      (λ e. send_out-Offers files file.type _)

start_queue_file-Offers :
    (files : Files) (file : Ftnq) (t : Session) → Offers (start_queue_file files file t)
unfolding start_queue_file send_queue_file
start_queue_file-Offers files file t =
    let u = record t { maxflvr = max_flvr t.maxflvr file.flvr } in
    if_ind Offers (file.type == b's') (λ e. send_out-Offers files file.type _)
      (λ e.
        if_ind Offers (is_listed file.path t.nosendlist) (λ l. tt)
          (λ l. open_queue_file-Offers files file u (files.env.fopen_rb file.path)))

start_from-Offers :
    (files : Files) (file : Option Ftnq) (t : Session) (o : Option Flo)
    → Offers (start_from files file t o)
unfolding start_from start_given_file
start_from-Offers files none t none = tt
start_from-Offers files (some file) t none = start_queue_file-Offers files file t
start_from-Offers files none t (some flo) = send_flo_file-Offers files none flo t
start_from-Offers files (some file) t (some flo) = send_flo_file-Offers files (some file.path) flo t

start_file_transfer-Offers :
    (files : Files) (file : Option Ftnq) (t : Session) → Offers (start_file_transfer files file t)
unfolding start_file_transfer
start_file_transfer-Offers files file t = start_from-Offers files file (clear_out t) t.flo

-- After the search a message waits, or the queue is empty.
abbrev IsReady : Session → Type 0
IsReady t = HasMessage t.state ⊎ (t.state.q ≡ [])

abbrev TriedReady : Tried → Type 0
TriedReady (offered t) = IsReady t
TriedReady (no_more t) = IsReady t
TriedReady _ = Unit

tried-TriedReady : (r : Option (Session × Bool)) → Offers r → TriedReady (tried r)
unfolding tried
tried-TriedReady none h = tt
tried-TriedReady (some (t, true)) h = inl h
tried-TriedReady (some (t, false)) h = tt

try_queue-TriedReady :
    (files : Files) (t : Session) (r : Option (Ftnq × List Ftnq)) → TriedReady (try_queue files t r)
unfolding try_queue
try_queue-TriedReady files t none = inr refl
try_queue-TriedReady files t (some (file, q)) =
    tried-TriedReady (start_file_transfer files (some file) (with_queue q t))
      (start_file_transfer-Offers files (some file) (with_queue q t))

try_from-TriedReady :
    (files : Files) (t : Session) (o : Option Flo) → TriedReady (try_from files t o)
unfolding try_from
try_from-TriedReady files t none = try_queue-TriedReady files t (select_next_file t.state.q)
try_from-TriedReady files t (some flo) =
    tried-TriedReady (start_file_transfer files none t) (start_file_transfer-Offers files none t)

abbrev RefillReady : Refilled → Type 0
RefillReady (refilled t) = IsReady t
RefillReady _ = Unit

go_on-RefillReady :
    (more : Session → Refilled) (r : Tried)
    → TriedReady r
    → ((u : Session) → RefillReady (more u))
    → RefillReady (go_on more r)
unfolding go_on
go_on-RefillReady more (offered t) h k = h
go_on-RefillReady more (passed t) h k = k t
go_on-RefillReady more (no_more t) h k = h
go_on-RefillReady more tried_null h k = tt

refill-RefillReady : (fuel : ℕ) (files : Files) (t : Session) → RefillReady (refill fuel files t)
unfolding refill try_next_file
refill-RefillReady zero files t = tt
refill-RefillReady (suc fuel) files t =
    go_on-RefillReady (λ u. refill fuel files u) (try_next_file files t)
      (try_from-TriedReady files t t.flo) (λ u. refill-RefillReady fuel files u)

-- An answer of the remote is due: its M_GOT, its M_GET, or its M_EOB.
unfoldable pub awaits_remote : State → Bool
awaits_remote s =
    s.local_eob || s.waiting_for_got || s.off_req_sent || not (is_empty_list s.sent_fls)

-- M_EOB may be sent by this side, and the login is over.
abbrev pub can_end : State → Bool
can_end s = not (is_null s.security) && (s.delay_eob == 0 || ltb 100 (s.major * 100 + s.minor))

-- The same on the tests alone.
stuck_tests :
    (out queue local waiting request null acknowledged late msgs buffer eof : Bool)
    → ((not local && not queue && not out && not waiting && not request && not null) ≡ false)
      ⊎ (queue ≡ true)
    → (not out && queue && not local && not null && acknowledged && late) ≡ false
    → (not msgs || (out && not request && not waiting) || not buffer || eof) ≡ false
    → (not null && late) ≡ true
    → (local || waiting || request || not acknowledged) ≡ true
stuck_tests out queue local waiting request null acknowledged late msgs buffer eof h k l m =
    ground arith

stuck_awaits :
    (s : State)
    → (may_refill s ≡ false) ⊎ (is_empty_list s.q ≡ true)
    → may_send_eob s ≡ false
    → wants_write s ≡ false
    → can_end s ≡ true
    → awaits_remote s ≡ true
unfolding may_refill may_send_eob wants_write awaits_remote
stuck_awaits s h k l m =
    stuck_tests (is_some s.out_file.f) (is_empty_list s.q) s.local_eob s.waiting_for_got
      s.off_req_sent (is_null s.security) (is_empty_list s.sent_fls)
      (s.delay_eob == 0 || ltb 100 (s.major * 100 + s.minor)) (is_empty_list s.msgs)
      (is_empty_list s.pending) s.send_eof h k l m

-- Before M_EOB is considered: the search for a file is over, or a message waits already.
abbrev IsSearched : State → Type 0
IsSearched s = HasMessage s ⊎ ((may_refill s ≡ false) ⊎ (is_empty_list s.q ≡ true))

message_writes : (s : State) → HasMessage s → wants_write s ≡ true
unfolding wants_write
message_writes s h = rw h refl

searched_awaits :
    (s : State)
    → IsSearched s
    → may_send_eob s ≡ false
    → wants_write s ≡ false
    → can_end s ≡ true
    → awaits_remote s ≡ true
searched_awaits s (inl message) e k m = absurd (cc (message_writes s message, k))
searched_awaits s (inr searched) e k m = stuck_awaits s searched e k m

send_eob_awaits :
    (files : Files) (s : State)
    → IsSearched s
    → wants_write (send_eob files s) ≡ false
    → can_end (send_eob files s) ≡ true
    → awaits_remote (send_eob files s) ≡ true
unfolding send_eob msg_send2 awaits_remote
send_eob_awaits files s h =
    if_ind (λ (u : State). wants_write u ≡ false → can_end u ≡ true → awaits_remote u ≡ true)
      (may_send_eob s) (λ e k m. refl) (λ e k m. searched_awaits s h e k m)

-- A property of every session that a round leaves waiting.
abbrev WaitsWith {ℓ} : (Session → Bool → Type ℓ) → Round → Type ℓ
WaitsWith P (waits u w) = P u w
WaitsWith P _ = Unit

-- Where the socket is not watched for writing, an answer is due.
abbrev Awaits : Session → Bool → Type 0
Awaits u w = w ≡ false → can_end u.state ≡ true → awaits_remote u.state ≡ true

end_of_batch-Awaits :
    (files : Files) (config : Config) (hooks : Hooks) (t : Session)
    → WaitsWith Awaits (end_of_batch files config hooks t)
unfolding end_of_batch
end_of_batch-Awaits files config hooks t =
    if_ind (WaitsWith Awaits) (is_last_batch (process_received hooks t).state) (λ e. tt) (λ e. tt)

finish_round-Awaits :
    (files : Files) (config : Config) (hooks : Hooks) (t : Session)
    → IsSearched t.state
    → WaitsWith Awaits (finish_round files config hooks t)
unfolding finish_round
finish_round-Awaits files config hooks t h =
    let u = record t { state = send_eob files t.state } in
    if_ind (WaitsWith Awaits) (batch_is_over u.state)
      (λ e. end_of_batch-Awaits files config hooks u) (λ e k m. send_eob_awaits files t.state h k m)

ready-IsSearched : (t : Session) → IsReady t → IsSearched t.state
ready-IsSearched t (inl message) = inl message
ready-IsSearched t (inr e) = inr (inr (ap is_empty_list e))

search_round-Awaits :
    (files : Files) (config : Config) (hooks : Hooks) (r : Refilled)
    → RefillReady r
    → WaitsWith Awaits (search_round files config hooks r)
unfolding search_round
search_round-Awaits files config hooks (refilled u) h =
    finish_round-Awaits files config hooks u (ready-IsSearched u h)
search_round-Awaits files config hooks null_pointer h = tt
search_round-Awaits files config hooks no_fuel h = tt

round-Awaits :
    (fuel : ℕ) (files : Files) (config : Config) (hooks : Hooks) (t : Session)
    → WaitsWith Awaits (start_round fuel files config hooks t)
unfolding start_round
round-Awaits fuel files config hooks t =
    if_ind (WaitsWith Awaits) (may_refill t.state)
      (λ e.
        search_round-Awaits files config hooks (refill fuel files t)
          (refill-RefillReady fuel files t))
      (λ e. finish_round-Awaits files config hooks t (inr (inl e)))

-- When a round of the main loop leaves a session that waits without anything to write, after the
-- login and where M_EOB may be sent, this side has sent M_EOB, or waits for an M_GOT or for the
-- offset of a file: the session does not wait for a remote that owes it nothing.
pub start_round-awaits_remote :
    (fuel : ℕ) (files : Files) (config : Config) (hooks : Hooks) (t u : Session)
    → start_round fuel files config hooks t ≡ waits u false
    → can_end u.state ≡ true
    → awaits_remote u.state ≡ true
start_round-awaits_remote fuel files config hooks t u e =
    subst (WaitsWith Awaits) e (round-Awaits fuel files config hooks t) refl
