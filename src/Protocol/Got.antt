-- ===== src/Protocol/Got.antt =====
-- protocol.c: the handler of M_GOT.
pub mod Safety
use binkd.Base.{
  ℕ, suc, ◌+◌, Bool, true, false, not, ◌&&◌, ◌||◌, List, [], ◌∷◌, Option, none, some, Bytes, codes,
  get_or, if◌then◌else◌,
}
use binkd.Text.{parse_args}
use binkd.Protocol.Env.{Env}
use binkd.Protocol.State.{Tfile, tf_zero, State}
use binkd.Protocol.Tfiles.{
  tfile_same, find_sent, remove_from_sent_files_queue, nd_set_status, cannot_parse, remove_tfile,
}

-- `status` is 0 in NR mode without ND mode, else the arguments of the command.
unfoldable pub got_status : Env → Bytes → State → State × Option Bytes
unfolding nd_set_status
got_status env args s =
    if s.nr_flag.we_nr && not s.nd_flag.we_nd
    then ((nd_set_status env [] s.nd_addr s).0, none)
    else (s, some args)

-- The status file of the address, where there is a status: cleared or written.
abbrev write_status : Env → Option Bytes → Bool → State → State × Bool
write_status env none clear s = (s, true)
write_status env (some status) clear s =
    nd_set_status env (if clear then [] else status) s.nd_addr s

-- The remote already has the file in transfer.
unfoldable pub got_out : Env → Option Bytes → State → State × Bool
unfolding nd_set_status
got_out env status s =
    let t = record s { nd_addr = s.out_file.fa } in
    let (u, rc) = write_status env status s.off_req_sent t in
    let v = record u { waiting_for_got = false; off_req_sent = false } in
    (record (remove_tfile s.out_file v) { out_file = tf_zero }, rc)

-- The remote acknowledges the file at place `n` of the queue.
unfoldable pub got_sent : Env → Option Bytes → ℕ → Tfile → State → State × Bool
unfolding nd_set_status remove_from_sent_files_queue
got_sent env status n file s =
    let t = record s {
      bytes_sent = s.bytes_sent + file.size;
      files_sent = s.files_sent + 1;
      nd_addr = file.fa;
    } in
    let (u, rc) = write_status env status (s.off_req_sent || not s.nd_flag.we_nd) t in
    let v = record u { waiting_for_got = false } in
    (remove_from_sent_files_queue n (remove_tfile file v), rc)

-- What the search of the queue finds is acknowledged.
unfoldable pub got_place : Env → Option Bytes → Option (ℕ × Tfile) → State → State × Bool
unfolding got_sent
got_place env status none s = (s, true)
got_place env status (some (n, file)) s = got_sent env status n file s

-- The file with that name, size and time: the one in transfer, else the first of the queue.
unfoldable pub got_file : Env → Option Bytes → Bytes → ℕ → ℕ → State → State × Bool
unfolding got_out got_place
got_file env status netname size time s =
    if tfile_same s.out_file netname size time
    then got_out env status s
    else got_place env status (find_sent netname size time s.sent_fls) s

-- The command with its words read.
unfoldable pub got_words : Env → Bytes → Option (List Bytes × Bytes) → State → State × Bool
unfolding got_status got_file
got_words env args none s = (cannot_parse env (codes "M_GOT") s, false)
got_words env args (some (argv, rest)) s =
    let (t, status) = got_status env args s in
    got_file env status (get_or argv 0 []) (env.strtoumax (get_or argv 1 []))
      (env.safe_atol (get_or argv 2 [])) t

unfoldable pub got : Env → Bytes → State → State × Bool
unfolding got_words
got env args s = got_words env args (parse_args 3 args) s
