-- ===== src/Protocol/Tfiles.antt =====
-- protocol.c and prothlp.c: what the handlers of the file commands share.
pub mod Find
pub mod Spool
use binkd.Base.{
  ℕ, zero, suc, ◌+◌, Bool, true, false, not, ◌&&◌, ◌||◌, List, [], ◌∷◌, ◌++◌, Option, none, some,
  Bytes, codes, bytes_eq, get_elem?, ◌==◌, if◌then◌else◌, ◌%◌, ◌^◌,
}
use binkd.Base.Int.{minus_one, eqb_ℤ}
use binkd.Ftn.{FtnAddr}
use binkd.Text.{strdequote, c_string, parse_args}
use binkd.Protocol.Env.{Env}
use binkd.Protocol.Send.{msg_send2, bad_try_to}
use binkd.Protocol.State.{
  m_err, Tfile, tf_zero, State, set_status, inb_done, inb_reject, remove_from_spool, emit,
}

-- `msg_sendf (state, m, "%s %ju %ju", netname, size, time)`
unfoldable pub send_tfile : Env → ℕ → Tfile → State → State
unfolding msg_send2
send_tfile env m f s =
    msg_send2 env m (f.netname ++ b' ' ∷ (env.print_umax f.size ++ b' ' ∷ env.print_umax f.time)) []
      s

-- A complete file is renamed to its true form, or the session is dropped.
unfoldable pub finish_file : Env → Tfile → State → State × Bool
unfolding msg_send2
finish_file env f s =
    let t = emit (inb_done f) s in
    if env.inb_done_ok f s then (t, true) else (
      bad_try_to (codes "Local error saving file")
          (msg_send2 env m_err (codes "Local error saving file") [] t),
      false,
    )

-- `tfile_cmp` finds no difference: the names without quoting and the sizes are equal, and the
-- difference of the times is 0 as an `int`, whose width is 32 bits.
unfoldable pub tfile_same : Tfile → Bytes → ℕ → ℕ → Bool
tfile_same a netname size time =
    bytes_eq (c_string (strdequote a.netname)) (c_string (strdequote netname))
    && a.size == size
    && a.time % 2 ^ 32 == time % 2 ^ 32

abbrev pub is_empty : Bytes → Bool
is_empty [] = true
is_empty (c ∷ s) = false

-- The first zero byte of the name frees a place of the queue.
abbrev pub free_place : Tfile → Tfile
free_place t = record t { netname = [] }

abbrev pub set_place : List Tfile → ℕ → Tfile → List Tfile
set_place [] i t = []
set_place (x ∷ xs) zero t = t ∷ xs
set_place (x ∷ xs) (suc i) t = x ∷ set_place xs i t

unfoldable pub all_free : List Tfile → Bool
all_free [] = true
all_free (t ∷ ts) = is_empty t.netname && all_free ts

abbrev free_nth : List Tfile → ℕ → List Tfile
free_nth [] i = []
free_nth (x ∷ xs) zero = free_place x ∷ xs
free_nth (x ∷ xs) (suc i) = x ∷ free_nth xs i

-- The place `n` becomes free; a queue with no other file is given up.
unfoldable pub remove_from_sent_files_queue : ℕ → State → State
unfolding all_free
remove_from_sent_files_queue n s =
    let left = free_nth s.sent_fls n in record s { sent_fls = if all_free left then [] else left }

-- The first place that holds the file, and the file.
unfoldable pub find_sent : Bytes → ℕ → ℕ → List Tfile → Option (ℕ × Tfile)
find_sent netname size time [] = none
find_sent netname size time (t ∷ ts) =
    let later = find_sent netname size time ts in
    if tfile_same t netname size time
    then some (0, t)
    else elim later [ none ↦ none | some (n, u) ↦ some (suc n, u) ]

-- `ND_set_status`; its result is 0 for an unknown address.
unfoldable pub nd_set_status : Env → Bytes → FtnAddr → State → State × Bool
nd_set_status env status fa s =
    if eqb_ℤ fa.z minus_one
    then (s, false)
    else (emit (set_status status fa) s, env.status_ok status fa)

-- `parse_msg_args`: the words, or a message to the remote.
unfoldable pub cannot_parse : Env → Bytes → State → State
unfolding msg_send2
cannot_parse env id s = msg_send2 env m_err id (codes ": cannot parse args") s

-- `remove_from_spool (state, t.flo, t.path, t.action, config)`
abbrev pub remove_tfile : Tfile → State → State
remove_tfile t s = emit (remove_from_spool t.flo t.path t.action) s

-- `close_partial`: nothing is kept of an empty file or of a part of a packet.
unfoldable pub close_partial : Env → State → State
close_partial env s =
    let closed : State = elim s.in_file.f [
      | none ↦ s
      | some f ↦
          if env.ispkt s.in_file.netname || f.offset == 0
          then emit (inb_reject s.in_file.netname) s
          else s
    ] in
    record closed { in_file = tf_zero }
