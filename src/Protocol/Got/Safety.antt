-- ===== src/Protocol/Got/Safety.antt =====
-- protocol.c: what M_GOT removes from the spool.
use binkd.Base.{
  ℕ, ◌+◌, ◌^◌, ◌%◌, Bool, true, bytes_eq, bytes_eq_iff, arith, ◌&&◌, ◌||◌, not, List, [], ◌∷◌, ◌++◌,
  Bytes, codes, Option, none, some, if◌then◌else◌, Bool-cases, get_elem?, get_or, inl, inr, ◌⊎◌,
  ◌≡◌, refl, ap, ◌∙◌,
}
use binkd.Text.{parse_args, strdequote, c_string}
use binkd.Protocol.Env.{Env}
use binkd.Protocol.State.{Tfile, State, remove_from_spool, Effect}
use binkd.Protocol.Tfiles.{tfile_same, find_sent, remove_from_sent_files_queue, remove_tfile}
use binkd.Protocol.Tfiles.Find.{FoundAt, find_sent-FoundAt}
use binkd.Protocol.Tfiles.Spool.{
  removed, KeepsSpool, removed-append, nd_set_status-KeepsSpool, nd_set_status_effects,
  cannot_parse-KeepsSpool,
}
use binkd.Protocol.Got.{
  got_status, write_status, got_out, got_sent, got_place, got_file, got_words, got,
}

-- The file is the one in transfer, or it stands in the queue of the files that were sent.
abbrev pub IsOut : State → Tfile → Type 0
IsOut s t = (t ≡ s.out_file) ⊎ ((n : ℕ) × (get_elem? s.sent_fls n ≡ some t))

-- The name without quoting and the size are those of the file, and its time is that up to a multiple
-- of 2 ^ 32.
abbrev pub Names : Bytes → ℕ → ℕ → Tfile → Type 0
Names netname size time t =
    (c_string (strdequote t.netname) ≡ c_string (strdequote netname))
    × (t.size ≡ size)
    × (t.time % 2 ^ 32 ≡ time % 2 ^ 32)

tfile_same-Names :
    (t : Tfile) (netname : Bytes) (size time : ℕ)
    → tfile_same t netname size time ≡ true
    → Names netname size time t
unfolding tfile_same
tfile_same-Names t netname size time h =
    let name : bytes_eq (c_string (strdequote t.netname)) (c_string (strdequote netname)) ≡ true =
      ground (arith, h) in
    (
      (bytes_eq_iff (c_string (strdequote t.netname)) (c_string (strdequote netname))).0 name,
      ground (arith, h),
      ground (arith, h),
    )

-- `t` is the only new removal.
abbrev pub RemovesOnly : State → Tfile → State → Type 0
RemovesOnly s t r =
    removed r.effects ≡ removed s.effects ++ remove_from_spool t.flo t.path t.action ∷ []

-- Nothing is removed, or one file in transfer or sent, which the command names.
abbrev pub RemovesNamed : Bytes → ℕ → ℕ → State → State → Type 0
RemovesNamed netname size time s r =
    KeepsSpool s r ⊎ ((t : Tfile) × Names netname size time t × IsOut s t × RemovesOnly s t r)

remove_tfile-removed :
    (t : Tfile) (s : State)
    → removed (remove_tfile t s).effects
      ≡ removed s.effects ++ remove_from_spool t.flo t.path t.action ∷ []
remove_tfile-removed t s = removed-append s.effects (remove_from_spool t.flo t.path t.action ∷ [])

write_status-KeepsSpool :
    (env : Env) (status : Option Bytes) (clear : Bool) (s : State)
    → KeepsSpool s (write_status env status clear s).0
write_status-KeepsSpool env none clear s = refl
write_status-KeepsSpool env (some status) clear s =
    nd_set_status-KeepsSpool env (if clear then [] else status) s.nd_addr s

got_out-RemovesOnly :
    (env : Env) (status : Option Bytes) (s : State)
    → RemovesOnly s s.out_file (got_out env status s).0
unfolding got_out
got_out-RemovesOnly env status s =
    let t = record s { nd_addr = s.out_file.fa } in
    let u = (write_status env status s.off_req_sent t).0 in
    remove_tfile-removed s.out_file u
    ∙ ap
        (λ (l : List Effect).
          l ++ remove_from_spool s.out_file.flo s.out_file.path s.out_file.action ∷ [])
        (write_status-KeepsSpool env status s.off_req_sent t)

got_sent-RemovesOnly :
    (env : Env) (status : Option Bytes) (n : ℕ) (file : Tfile) (s : State)
    → RemovesOnly s file (got_sent env status n file s).0
unfolding got_sent remove_from_sent_files_queue
got_sent-RemovesOnly env status n file s =
    let t = record s {
      bytes_sent = s.bytes_sent + file.size;
      files_sent = s.files_sent + 1;
      nd_addr = file.fa;
    } in
    let clear = s.off_req_sent || not s.nd_flag.we_nd in
    let u = (write_status env status clear t).0 in
    remove_tfile-removed file u
    ∙ ap (λ (l : List Effect). l ++ remove_from_spool file.flo file.path file.action ∷ [])
        (write_status-KeepsSpool env status clear t)

got_found-RemovesNamed :
    (env : Env) (status : Option Bytes) (netname : Bytes) (size time : ℕ) (s : State)
    (o : Option (ℕ × Tfile))
    → FoundAt netname size time s.sent_fls o
    → RemovesNamed netname size time s (got_place env status o s).0
unfolding got_place
got_found-RemovesNamed env status netname size time s none h = inl refl
got_found-RemovesNamed env status netname size time s (some (n, file)) h = inr (
  file,
  tfile_same-Names file netname size time h.1,
  inr (n, h.0),
  got_sent-RemovesOnly env status n file s,
)

got_file-RemovesNamed :
    (env : Env) (status : Option Bytes) (netname : Bytes) (size time : ℕ) (s : State)
    → RemovesNamed netname size time s (got_file env status netname size time s).0
unfolding got_file
got_file-RemovesNamed env status netname size time s =
    elim (Bool-cases (tfile_same s.out_file netname size time)) [
      | inl same ↦ rw same (
          inr (
            s.out_file,
            tfile_same-Names s.out_file netname size time same,
            inl refl,
            got_out-RemovesOnly env status s,
          ))
      | inr other ↦ rw other (
          got_found-RemovesNamed env status netname size time s
            (find_sent netname size time s.sent_fls)
            (find_sent-FoundAt netname size time s.sent_fls))
    ]

RemovesNamed-from :
    (netname : Bytes) (size time : ℕ) (s r : State) (es : List Effect)
    → removed es ≡ removed s.effects
    → RemovesNamed netname size time (record s { effects = es }) r
    → RemovesNamed netname size time s r
RemovesNamed-from netname size time s r es e (inl same) = inl (same ∙ e)
RemovesNamed-from netname size time s r es e (inr (t, names, sent, only)) = inr (
  t,
  names,
  sent,
  only ∙ ap (λ (l : List Effect). l ++ remove_from_spool t.flo t.path t.action ∷ []) e,
)

got_status-got_file :
    (env : Env) (args netname : Bytes) (size time : ℕ) (s : State)
    → (let (t, status) = got_status env args s in
        RemovesNamed netname size time s (got_file env status netname size time t).0)
unfolding got_status
got_status-got_file env args netname size time s =
    elim (Bool-cases (s.nr_flag.we_nr && not s.nd_flag.we_nd)) [
      | inl clears ↦
          let k = nd_set_status_effects env [] s.nd_addr s in
          rw clears (
            rw k.1 (
              RemovesNamed-from netname size time s
                (got_file env none netname size time (record s { effects = k.0 })).0 k.0 k.2
                (got_file-RemovesNamed env none netname size time (record s { effects = k.0 }))))
      | inr keeps ↦ rw keeps (got_file-RemovesNamed env (some args) netname size time s)
    ]

-- The file that a command names by its words.
abbrev pub RemovesByWords : Env → Option (List Bytes × Bytes) → State → State → Type 0
RemovesByWords env none s r = KeepsSpool s r
RemovesByWords env (some (argv, rest)) s r =
    RemovesNamed (get_or argv 0 []) (env.strtoumax (get_or argv 1 []))
      (env.safe_atol (get_or argv 2 [])) s r

got_words-RemovesByWords :
    (env : Env) (args : Bytes) (words : Option (List Bytes × Bytes)) (s : State)
    → RemovesByWords env words s (got_words env args words s).0
unfolding got_words
got_words-RemovesByWords env args none s = cannot_parse-KeepsSpool env (codes "M_GOT") s
got_words-RemovesByWords env args (some (argv, rest)) s =
    got_status-got_file env args (get_or argv 0 []) (env.strtoumax (get_or argv 1 []))
      (env.safe_atol (get_or argv 2 [])) s

-- M_GOT removes no file from the spool but one: the file in transfer, which the remote may refuse or
-- have already, or one of the queue of sent files, whose name and size the command gives, and whose
-- time up to a multiple of 2 ^ 32. Where the command lacks a word, nothing is removed.
pub got-RemovesByWords :
    (env : Env) (args : Bytes) (s : State)
    → RemovesByWords env (parse_args 3 args) s (got env args s).0
unfolding got
got-RemovesByWords env args s = got_words-RemovesByWords env args (parse_args 3 args) s
