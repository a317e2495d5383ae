-- ===== src/Protocol/Get.antt =====
-- protocol.c: the handler of M_GET.
pub mod Safety
use binkd.Base.{
  ℕ, zero, suc, ◌+◌, Bool, true, false, not, ◌&&◌, ◌||◌, List, [], ◌∷◌, ◌++◌, Option, none, some,
  Bytes, codes, get_or, ltb, ◌==◌, if◌then◌else◌,
}
use binkd.Base.Int.{minus_one}
use binkd.Text.{parse_args}
use binkd.Protocol.Env.{Env}
use binkd.Protocol.Send.{msg_send2}
use binkd.Protocol.State.{m_err, m_file, File, Tfile, tf_zero, State, touch, emit}
use binkd.Protocol.Tfiles.{
  tfile_same, find_sent, set_place, remove_from_sent_files_queue, nd_set_status, cannot_parse,
}

-- `state->out.f = fopen (state->out.path, "rb")`; a file that does not open is forgotten.
unfoldable pub opened : Option Bytes → Tfile → State → State
opened none file s = record s { out_file = tf_zero }
opened (some content) file s = record s {
  out_file = record file { f = some (record { content = content; offset = 0 }) };
}

unfoldable pub reopen : Env → Tfile → State → State
unfolding opened
reopen env file s = opened (env.fopen_rb file.path) file s

-- A file that was sent already becomes the file in transfer; an open one takes its place.
unfoldable pub resend_at : Env → Option File → ℕ → Tfile → State → State
unfolding reopen remove_from_sent_files_queue
resend_at env (some f) n file s =
    reopen env file
      (record s { sent_fls = set_place s.sent_fls n (record s.out_file { f = none }) })
resend_at env none n file s = reopen env file (remove_from_sent_files_queue n s)

unfoldable pub resend_found : Env → Option (ℕ × Tfile) → State → State
unfolding resend_at
resend_found env none s = s
resend_found env (some (n, file)) s = resend_at env s.out_file.f n file s

unfoldable pub resend : Env → Bytes → ℕ → ℕ → State → State
unfolding resend_found
resend env netname size time s = resend_found env (find_sent netname size time s.sent_fls) s

-- `msg_sendf (state, M_FILE, "%s %ju %ju %ju", ...)`
unfoldable pub send_m_file : Env → Tfile → ℕ → State → State
unfolding msg_send2
send_m_file env file offset s =
    let print = env.print_umax in
    msg_send2 env m_file
      (file.netname ++ b' ' ∷ (print file.size ++ b' ' ∷ (print file.time ++ b' ' ∷ print offset)))
      [] s

-- The file in transfer is closed, with a message for the remote.
unfoldable pub get_error : Env → Bytes → State → State
unfolding msg_send2
get_error env text s = record (msg_send2 env m_err text [] s) {
  out_file = record s.out_file { f = none };
}

abbrev after_end : Env → Bytes → ℕ → State → Bytes
after_end env netname offset s =
    codes "Invalid M_GET violates binkp: offset "
    ++ (env.print_umax offset
        ++ (codes " after end of file, file "
            ++ (netname ++ (codes " size " ++ env.print_umax s.out_file.size))))

abbrev seek_error : Env → Bytes → ℕ → State → Bytes
seek_error env netname offset s =
    codes "Error seeking: "
    ++ (netname
        ++ (codes " size "
            ++ (env.print_umax s.out_file.size ++ (codes " to offset " ++ env.print_umax offset))))

-- The open file is sent from the offset.
unfoldable pub get_open : Env → Bytes → ℕ → File → State → State × Bool
unfolding send_m_file get_error
get_open env netname offset f s =
    if ltb s.out_file.size offset
    then (emit (touch s.out_file.path) (get_error env (after_end env netname offset s) s), false)
    else if not (env.fseek_ok s.out_file offset)
    then (get_error env (seek_error env netname offset s) s, false)
    else (
      send_m_file env s.out_file offset
          (record s { out_file = record s.out_file { f = some (record f { offset = offset }) } }),
      true,
    )

-- The end of the handler.
unfoldable pub get_done : Env → State × Bool → State × Bool
unfolding nd_set_status
get_done env (s, rc) =
    let t = (nd_set_status env [] s.nd_addr s).0 in
    (
      record t {
        nd_addr = record t.nd_addr { z = minus_one };
        waiting_for_got = if t.nd_flag.we_nd then false else t.waiting_for_got;
        off_req_sent = false;
      },
      rc,
    )

-- The answer to the offer of a status, for which no file is open.
unfoldable pub get_status : Env → ℕ → State → State × Bool
unfolding send_m_file nd_set_status get_done
get_status env offset s =
    let t = send_m_file env s.out_file offset s in
    if offset == s.out_file.size && s.nd_flag.we_nd
    then (record t { send_eof = true; waiting_for_got = true; off_req_sent = false }, true)
    else get_done env (record (nd_set_status env [] s.out_file.fa t).0 { out_file = tf_zero }, true)

-- No file is open; the flag is `off_req_sent`.
unfoldable pub get_closed : Env → ℕ → Bool → State → State × Bool
unfolding get_status get_done
get_closed env offset true s = get_status env offset s
get_closed env offset false s = get_done env (s, false)

unfoldable pub get_out : Env → Bytes → ℕ → Option File → State → State × Bool
unfolding get_open get_done get_closed
get_out env netname offset (some f) s = get_done env (get_open env netname offset f s)
get_out env netname offset none s = get_closed env offset s.off_req_sent s

unfoldable pub get_file : Env → Bytes → ℕ → ℕ → ℕ → State → State × Bool
unfolding resend get_out get_done
get_file env netname size time offset s =
    let t = resend env netname size time s in
    if tfile_same t.out_file netname size time
    then get_out env netname offset t.out_file.f t
    else get_done env (t, false)

unfoldable pub get_words : Env → Option (List Bytes × Bytes) → State → State × Bool
unfolding get_file
get_words env none s = (cannot_parse env (codes "M_GET") s, false)
get_words env (some (argv, rest)) s =
    get_file env (get_or argv 0 []) (env.strtoumax (get_or argv 1 []))
      (env.safe_atol (get_or argv 2 [])) (env.strtoumax (get_or argv 3 [])) s

unfoldable pub get : Env → Bytes → State → State × Bool
unfolding get_words
get env args s = get_words env (parse_args 4 args) s
