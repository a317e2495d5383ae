-- ===== src/Protocol/Get/Safety.antt =====
-- protocol.c: M_GET removes nothing from the spool, and an open file is sent from an offset within it.
use binkd.Base.{
  ℕ, Bool, true, false, ◌&&◌, List, [], Bytes, codes, Option, none, some, Bool-cases, get_or, ltb,
  ◌==◌, ◌≤◌, inl, inr, ◌↔◌, ◌≡◌, refl, ◌∙◌, arith,
}
use binkd.Text.{parse_args}
use binkd.Protocol.Env.{Env}
use binkd.Protocol.State.{File, Tfile, State, tf_zero, touch}
use binkd.Protocol.Send.{msg_send2}
use binkd.Protocol.Tfiles.{
  set_place, tfile_same, find_sent, remove_from_sent_files_queue, nd_set_status,
}
use binkd.Protocol.Tfiles.Spool.{
  KeepsSpool, removed_other, nd_set_status-KeepsSpool, cannot_parse-KeepsSpool,
}
use binkd.Protocol.Get.{
  opened, reopen, resend_at, resend_found, resend, send_m_file, get_error, get_open, get_done,
  get_status, get_closed, get_out, get_file, get_words, get,
}

opened-KeepsSpool :
    (content : Option Bytes) (file : Tfile) (s : State) → KeepsSpool s (opened content file s)
unfolding opened
opened-KeepsSpool none file s = refl
opened-KeepsSpool (some content) file s = refl

resend_at-KeepsSpool :
    (env : Env) (f : Option File) (n : ℕ) (file : Tfile) (s : State)
    → KeepsSpool s (resend_at env f n file s)
unfolding resend_at reopen remove_from_sent_files_queue
resend_at-KeepsSpool env none n file s =
    opened-KeepsSpool (env.fopen_rb file.path) file (remove_from_sent_files_queue n s)
resend_at-KeepsSpool env (some f) n file s =
    opened-KeepsSpool (env.fopen_rb file.path) file
      (record s { sent_fls = set_place s.sent_fls n (record s.out_file { f = none }) })

resend_found-KeepsSpool :
    (env : Env) (o : Option (ℕ × Tfile)) (s : State) → KeepsSpool s (resend_found env o s)
unfolding resend_found
resend_found-KeepsSpool env none s = refl
resend_found-KeepsSpool env (some (n, file)) s = resend_at-KeepsSpool env s.out_file.f n file s

get_done-KeepsSpool : (env : Env) (s : State) (rc : Bool) → KeepsSpool s (get_done env (s, rc)).0
unfolding get_done
get_done-KeepsSpool env s rc = nd_set_status-KeepsSpool env [] s.nd_addr s

get_open-KeepsSpool :
    (env : Env) (netname : Bytes) (offset : ℕ) (f : File) (s : State)
    → KeepsSpool s (get_open env netname offset f s).0
unfolding get_open get_error send_m_file msg_send2
get_open-KeepsSpool env netname offset f s = elim (Bool-cases (ltb s.out_file.size offset)) [
  | inl beyond ↦ rw beyond (removed_other s.effects (touch s.out_file.path) refl)
  | inr inside ↦ rw inside (elim (Bool-cases (env.fseek_ok s.out_file offset)) [
    | inl sought ↦ rw sought refl
    | inr unsought ↦ rw unsought refl
  ])
]

get_status-KeepsSpool :
    (env : Env) (offset : ℕ) (s : State) → KeepsSpool s (get_status env offset s).0
unfolding get_status send_m_file msg_send2
get_status-KeepsSpool env offset s =
    elim (Bool-cases (offset == s.out_file.size && s.nd_flag.we_nd)) [
      | inl at_end ↦ rw at_end refl
      | inr before ↦
          let t = send_m_file env s.out_file offset s in
          rw before (
            get_done-KeepsSpool env
              (record (nd_set_status env [] s.out_file.fa t).0 { out_file = tf_zero }) true
            ∙ nd_set_status-KeepsSpool env [] s.out_file.fa t)
    ]

get_closed-KeepsSpool :
    (env : Env) (offset : ℕ) (asked : Bool) (s : State)
    → KeepsSpool s (get_closed env offset asked s).0
unfolding get_closed
get_closed-KeepsSpool env offset true s = get_status-KeepsSpool env offset s
get_closed-KeepsSpool env offset false s = get_done-KeepsSpool env s false

get_out-KeepsSpool :
    (env : Env) (netname : Bytes) (offset : ℕ) (f : Option File) (s : State)
    → KeepsSpool s (get_out env netname offset f s).0
unfolding get_out
get_out-KeepsSpool env netname offset (some f) s =
    let r = get_open env netname offset f s in
    get_done-KeepsSpool env r.0 r.1 ∙ get_open-KeepsSpool env netname offset f s
get_out-KeepsSpool env netname offset none s = get_closed-KeepsSpool env offset s.off_req_sent s

get_file-KeepsSpool :
    (env : Env) (netname : Bytes) (size time offset : ℕ) (s : State)
    → KeepsSpool s (get_file env netname size time offset s).0
unfolding get_file resend
get_file-KeepsSpool env netname size time offset s =
    let t = resend_found env (find_sent netname size time s.sent_fls) s in
    let k = resend_found-KeepsSpool env (find_sent netname size time s.sent_fls) s in
    elim (Bool-cases (tfile_same t.out_file netname size time)) [
      | inl same ↦ rw same (get_out-KeepsSpool env netname offset t.out_file.f t ∙ k)
      | inr other ↦ rw other (get_done-KeepsSpool env t false ∙ k)
    ]

get_words-KeepsSpool :
    (env : Env) (words : Option (List Bytes × Bytes)) (s : State)
    → KeepsSpool s (get_words env words s).0
unfolding get_words
get_words-KeepsSpool env none s = cannot_parse-KeepsSpool env (codes "M_GET") s
get_words-KeepsSpool env (some (argv, rest)) s =
    get_file-KeepsSpool env (get_or argv 0 []) (env.strtoumax (get_or argv 1 []))
      (env.safe_atol (get_or argv 2 [])) (env.strtoumax (get_or argv 3 [])) s

-- M_GET removes nothing from the spool, whatever its arguments are and whatever fails: a file that
-- the remote asks for again is kept.
pub get-KeepsSpool : (env : Env) (args : Bytes) (s : State) → KeepsSpool s (get env args s).0
unfolding get
get-KeepsSpool env args s = get_words-KeepsSpool env (parse_args 4 args) s

-- The offset of the file in transfer lies within the size that was announced for it.
abbrev pub WithinFile : Tfile → Type 0
WithinFile t = elim t.f [ none ↦ Unit {0} | some f ↦ f.offset ≤ t.size ]

-- An open file that the remote asks for at an offset: afterwards it is closed or at an offset within
-- its size, and the handler reports no error exactly where the offset that was asked for is within
-- the size and the seek succeeds.
pub get_open-WithinFile :
    (env : Env) (netname : Bytes) (offset : ℕ) (f : File) (s : State)
    → (let (t, rc) = get_open env netname offset f s in
        WithinFile t.out_file
        × ((rc ≡ true) ↔ (offset ≤ s.out_file.size) × (env.fseek_ok s.out_file offset ≡ true)))
unfolding get_open get_error send_m_file msg_send2
get_open-WithinFile env netname offset f s = elim (Bool-cases (ltb s.out_file.size offset)) [
  | inl beyond ↦ rw beyond (tt, ground arith)
  | inr inside ↦
      let within : offset ≤ s.out_file.size = ground arith in
      rw inside (elim (Bool-cases (env.fseek_ok s.out_file offset)) [
        | inl sought ↦ rw sought (within, ground arith)
        | inr unsought ↦ rw unsought (tt, ground arith)
      ])
]
