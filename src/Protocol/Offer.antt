-- ===== src/Protocol/Offer.antt =====
-- protocol.c: the handlers of M_FILE (`start_file_recv`) and of M_EOB, and `skip_test`.
pub mod Safety
use binkd.Base.{
  ℕ, ◌+◌, ◌-◌, Bool, true, false, not, ◌&&◌, ◌||◌, List, [], ◌∷◌, ◌++◌, Option, none, some, Bytes,
  codes, bytes_eq, get_or, take, leb, ◌==◌, if◌then◌else◌,
}
use binkd.Base.Int.{pos, ◌+ℤ◌, ◌-ℤ◌}
use binkd.Text.{parse_args}
use binkd.Protocol.Env.{Env, SkipRule, Config}
use binkd.Protocol.Send.{msg_send2}
use binkd.Protocol.State.{
  m_got, m_get, m_skip, File, Tfile, tf_zero, is_secure, State, inb_reject, emit,
}
use binkd.Protocol.Tfiles.{send_tfile, finish_file, cannot_parse, close_partial, is_empty}

-- `ps->atype & amask`: the rule is for nodes of this kind.
abbrev rule_applies : SkipRule → State → Bool
rule_applies ps s =
    (if s.listed_flag then ps.for_listed else ps.for_unlisted)
    || (if is_secure s.security then ps.for_protected else ps.for_unprotected)

-- The first rule whose mask matches decides: `some destr` for a file to skip.
unfoldable pub skip_test : Env → List SkipRule → State → Option Bool
skip_test env [] s = none
skip_test env (ps ∷ rules) s =
    let later = skip_test env rules s in
    if rule_applies ps s && env.pmatch_ncase ps.mask s.in_file.netname
    then elim ps.size [
      | none ↦ none
      | some size ↦ if leb size s.in_file.size then some ps.destr else none
    ]
    else later

-- A file that was received whole before, in ND mode, is renamed now.
unfoldable pub finish_complete : Env → State → State × Bool
unfolding finish_file
finish_complete env s =
    let (t, done) = finish_file env s.in_complete s in
    if s.nd_flag.they_nd && not (is_empty s.in_complete.netname)
    then (if done then record t { in_complete = tf_zero } else t, done)
    else (s, true)

-- `strnzcpy (state->in.netname, argv[0], MAX_NETNAME)` and the numbers behind it.
abbrev describe_in : Bytes → ℕ → ℕ → State → State
describe_in netname size time s = record s {
  in_file = record s.in_file { netname = take 254 netname; size = size; time = time };
}

-- A file that is not open yet: skipped, acknowledged at once, opened, or put off. True means that
-- the file is open.
unfoldable pub open_in : Env → Config → State → State × Bool
unfolding skip_test send_tfile
open_in env config s =
    let put_off = record (send_tfile env m_skip s.in_file s) {
      skip_all_flag = true;
      in_file = tf_zero;
    } in
    elim (skip_test env config.skipmask s) [
      | some destr ↦ (send_tfile env (if destr then m_got else m_skip) s.in_file s, false)
      | none ↦
          if env.inb_test s.in_file s.inbound
          then (send_tfile env m_got s.in_file s, false)
          else if s.skip_all_flag
          then (put_off, false)
          else elim (env.inb_fopen s) [
            | none ↦ (put_off, false)
            | some f ↦ (record s { in_file = record s.in_file { f = some f } }, true)
          ]
    ]

-- `msg_sendf (state, M_GET, ...)`: the remote is asked to go on at what is here already.
unfoldable pub ask_offset : Env → File → State → State
unfolding msg_send2 ◌+ℤ◌
ask_offset env f s =
    let file = s.in_file in
    let print = env.print_umax in
    let t =
      msg_send2 env m_get
        (file.netname
          ++ b' ' ∷ (print file.size ++ b' ' ∷ (print file.time ++ b' ' ∷ print f.offset)))
        [] s in
    record t { get_file_balance = t.get_file_balance +ℤ pos 1; in_file = tf_zero }

-- The file is open at its end `f.offset`; the remote offers to send from `offset`.
unfoldable pub accept_offset : Env → Bool → ℕ → File → State → State × Bool
unfolding ask_offset ◌-ℤ◌
accept_offset env off_req offset f s =
    let t =
      if not (offset == 0) || s.nr_flag.they_nr
      then record s { get_file_balance = s.get_file_balance -ℤ pos 1 }
      else s in
    if off_req || not (offset == f.offset)
    then (ask_offset env f s, true)
    else (t, env.fseek_ok s.in_file offset)

unfoldable pub accept_in : Env → Bool → ℕ → State → State × Bool
unfolding accept_offset
accept_in env off_req offset s = elim s.in_file.f [
  | none ↦ (s, true)
  | some f ↦ accept_offset env off_req offset f s
]

-- The offer with its arguments read; `off_req` is an offset of "-1".
unfoldable pub offered : Env → Config → Bytes → ℕ → ℕ → Bool → ℕ → State → State × Bool
unfolding close_partial finish_complete open_in accept_in
offered env config netname size time off_req offset s =
    let other : Bool = elim s.in_file.f [
      | none ↦ false
      | some f ↦ not (bytes_eq netname s.in_file.netname)
    ] in
    let s1 = if other then close_partial env s else s in
    let (s2, saved) = finish_complete env s1 in
    let s3 : State = elim s2.in_file.f [ none ↦ describe_in netname size time s2 | some f ↦ s2 ] in
    let s4 = if off_req then record s3 { nr_flag = record s3.nr_flag { they_nr = true } } else s3 in
    let opened = open_in env config s4 in
    if not saved then (s2, false) else elim s4.in_file.f [
      | some f ↦ accept_in env off_req offset s4
      | none ↦ if opened.1 then accept_in env off_req offset opened.0 else (opened.0, true)
    ]

unfoldable pub start_file_recv : Env → Config → Bytes → State → State × Bool
unfolding offered
start_file_recv env config args s = elim (parse_args 4 args) [
  | none ↦ (cannot_parse env (codes "M_FILE") s, false)
  | some (argv, rest) ↦
      offered env config (get_or argv 0 []) (env.strtoumax (get_or argv 1 []))
        (env.safe_atol (get_or argv 2 [])) (bytes_eq (get_or argv 3 []) (codes "-1"))
        (env.strtoumax (get_or argv 3 [])) s
]

-- A file that is open at the end of a batch: given up, or closed for the next session.
unfoldable pub eob_in : Env → State → State
unfolding close_partial
eob_in env s = elim s.in_file.f [
  | none ↦ s
  | some f ↦
      if not s.nr_flag.they_nr && not (f.offset == 0)
      then record (emit (inb_reject s.in_file.netname) s) { in_file = tf_zero }
      else close_partial env s
]

unfoldable pub eob : Env → State → State × Bool
unfolding eob_in finish_complete
eob env s =
    let (t, saved) = finish_complete env (eob_in env (record s { remote_eob = true })) in
    if saved then (record t { delay_eob = 0 }, true) else (t, false)
