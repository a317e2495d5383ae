-- ===== src/Protocol/Skip/Safety.antt =====
-- protocol.c: M_SKIP removes nothing from the spool.
use binkd.Base.{
  ℕ, zero, suc, ◌+◌, true, ◌||◌, List, [], Bytes, codes, Option, none, some, Bool-cases, get_elem?,
  get_or, length, inl, inr, refl, ◌∙◌,
}
use binkd.Text.{parse_args}
use binkd.Protocol.Env.{Env}
use binkd.Protocol.State.{File, Tfile, State, tf_zero}
use binkd.Protocol.Send.{msg_send2}
use binkd.Protocol.Tfiles.{tfile_same, remove_from_sent_files_queue, nd_set_status}
use binkd.Protocol.Tfiles.Spool.{KeepsSpool, nd_set_status-KeepsSpool, cannot_parse-KeepsSpool}
use binkd.Protocol.Skip.{
  skip_tfile, skip_place, skip_sent, skip_done, skip_open, skip_file, skip_words, skip,
}

skip_tfile-KeepsSpool :
    (netname : Bytes) (size time n : ℕ) (o : Option Tfile) (s : State)
    → KeepsSpool s (skip_tfile netname size time n o s)
unfolding skip_tfile remove_from_sent_files_queue
skip_tfile-KeepsSpool netname size time n none s = refl
skip_tfile-KeepsSpool netname size time n (some t) s =
    elim (Bool-cases (tfile_same t netname size time)) [
      | inl same ↦ rw same refl
      | inr other ↦ rw other refl
    ]

skip_sent-KeepsSpool :
    (netname : Bytes) (size time rounds n : ℕ) (s : State)
    → KeepsSpool s (skip_sent netname size time rounds n s)
unfolding skip_sent skip_place
skip_sent-KeepsSpool netname size time zero n s = refl
skip_sent-KeepsSpool netname size time (suc rounds) n s =
    skip_sent-KeepsSpool netname size time rounds (n + 1) (skip_place netname size time n s)
    ∙ skip_tfile-KeepsSpool netname size time n (get_elem? s.sent_fls n) s

skip_done-KeepsSpool : (env : Env) (s : State) → KeepsSpool s (skip_done env s)
unfolding skip_done
skip_done-KeepsSpool env s =
    let t = (nd_set_status env [] s.nd_addr s).0 in
    elim (Bool-cases (t.nd_flag.we_nd || t.nr_flag.we_nr)) [
      | inl on ↦ rw on (nd_set_status-KeepsSpool env [] s.nd_addr s)
      | inr off ↦ rw off (nd_set_status-KeepsSpool env [] s.nd_addr s)
    ]

skip_open-KeepsSpool :
    (env : Env) (f : Option File) (s : State) → KeepsSpool s (skip_open env f s).0
unfolding skip_open msg_send2
skip_open-KeepsSpool env none s = refl
skip_open-KeepsSpool env (some f) s = skip_done-KeepsSpool env (record s { out_file = tf_zero })

skip_file-KeepsSpool :
    (env : Env) (netname : Bytes) (size time : ℕ) (s : State)
    → KeepsSpool s (skip_file env netname size time s).0
unfolding skip_file
skip_file-KeepsSpool env netname size time s =
    let t = skip_sent netname size time (length s.sent_fls) 0 s in
    let k = skip_sent-KeepsSpool netname size time (length s.sent_fls) 0 s in
    elim (Bool-cases (tfile_same t.out_file netname size time)) [
      | inl same ↦
          rw same (skip_open-KeepsSpool env t.out_file.f (record t { r_skipped_flag = true }) ∙ k)
      | inr other ↦ rw other (skip_done-KeepsSpool env t ∙ k)
    ]

skip_words-KeepsSpool :
    (env : Env) (words : Option (List Bytes × Bytes)) (s : State)
    → KeepsSpool s (skip_words env words s).0
unfolding skip_words
skip_words-KeepsSpool env none s = cannot_parse-KeepsSpool env (codes "M_SKIP") s
skip_words-KeepsSpool env (some (argv, rest)) s =
    skip_file-KeepsSpool env (get_or argv 0 []) (env.strtoumax (get_or argv 1 []))
      (env.safe_atol (get_or argv 2 [])) s

-- M_SKIP removes nothing from the spool, whatever its arguments are: a file that the remote skips
-- is kept for a later session.
pub skip-KeepsSpool : (env : Env) (args : Bytes) (s : State) → KeepsSpool s (skip env args s).0
unfolding skip
skip-KeepsSpool env args s = skip_words-KeepsSpool env (parse_args 3 args) s
