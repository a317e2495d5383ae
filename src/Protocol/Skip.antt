-- ===== src/Protocol/Skip.antt =====
-- protocol.c: the handler of M_SKIP.
pub mod Safety
use binkd.Base.{
  ℕ, zero, suc, ◌+◌, Bool, true, false, not, ◌&&◌, ◌||◌, List, [], ◌∷◌, Option, none, some, Bytes,
  codes, get_or, get_elem?, length, if◌then◌else◌,
}
use binkd.Base.Int.{minus_one}
use binkd.Text.{parse_args}
use binkd.Ftn.{FtnAddr}
use binkd.Protocol.Env.{Env}
use binkd.Protocol.Send.{msg_send2}
use binkd.Protocol.State.{m_err, File, Tfile, tf_zero, State}
use binkd.Protocol.Tfiles.{tfile_same, remove_from_sent_files_queue, nd_set_status, cannot_parse}

-- One round of the loop over the queue, at place `n`, with the file there.
unfoldable pub skip_tfile : Bytes → ℕ → ℕ → ℕ → Option Tfile → State → State
unfolding remove_from_sent_files_queue
skip_tfile netname size time n none s = s
skip_tfile netname size time n (some t) s =
    if tfile_same t netname size time
    then remove_from_sent_files_queue n (record s { r_skipped_flag = true; nd_addr = t.fa })
    else s

unfoldable pub skip_place : Bytes → ℕ → ℕ → ℕ → State → State
unfolding skip_tfile
skip_place netname size time n s = skip_tfile netname size time n (get_elem? s.sent_fls n) s

-- The loop, with the rounds that are left. The queue never grows, so its first length is enough.
unfoldable pub skip_sent : Bytes → ℕ → ℕ → ℕ → ℕ → State → State
unfolding skip_place
skip_sent netname size time zero n s = s
skip_sent netname size time (suc rounds) n s =
    skip_sent netname size time rounds (n + 1) (skip_place netname size time n s)

-- `ND_set_status` for the last address, and the flags of the answer that was waited for.
unfoldable pub skip_done : Env → State → State
unfolding nd_set_status
skip_done env s =
    let t = (nd_set_status env [] s.nd_addr s).0 in
    let u = record t { nd_addr = record t.nd_addr { z = minus_one } } in
    if u.nd_flag.we_nd || u.nr_flag.we_nr
    then record u { waiting_for_got = false; off_req_sent = false }
    else u

-- The file in transfer is given up; a status cannot be skipped.
unfoldable pub skip_open : Env → Option File → State → State × Bool
unfolding msg_send2 skip_done
skip_open env none s = (msg_send2 env m_err (codes "Cannot skip ND-status") [] s, false)
skip_open env (some f) s = (skip_done env (record s { out_file = tf_zero }), true)

unfoldable pub skip_file : Env → Bytes → ℕ → ℕ → State → State × Bool
unfolding skip_sent skip_open skip_done
skip_file env netname size time s =
    let t = skip_sent netname size time (length s.sent_fls) 0 s in
    if tfile_same t.out_file netname size time
    then skip_open env t.out_file.f (record t { r_skipped_flag = true })
    else (skip_done env t, true)

unfoldable pub skip_words : Env → Option (List Bytes × Bytes) → State → State × Bool
unfolding skip_file
skip_words env none s = (cannot_parse env (codes "M_SKIP") s, false)
skip_words env (some (argv, rest)) s =
    skip_file env (get_or argv 0 []) (env.strtoumax (get_or argv 1 []))
      (env.safe_atol (get_or argv 2 [])) s

unfoldable pub skip : Env → Bytes → State → State × Bool
unfolding skip_words
skip env args s = skip_words env (parse_args 3 args) s
