-- ===== src/Protocol/Start.antt =====
-- protocol.c: what the login comes to on both sides: `do_prescan`, `select_inbound` and
-- `complete_login`.
pub mod Encryption
use binkd.Base.{
  ℕ, zero, suc, ◌+◌, ◌-◌, Bool, true, false, not, ◌&&◌, ◌||◌, List, [], ◌∷◌, ◌++◌, Option, none,
  some, Bytes, codes, bytes_eq, take, map, leb, ◌*◌, ◌==◌, if◌then◌else◌,
}
use binkd.Crypt.{Keys, init_keys, update_keys_all}
use binkd.Ftnq.{Ftnq, q_sort, q_freq_num}
use binkd.Protocol.Env.{Env, Config}
use binkd.Protocol.Send.{is_yes_crypt, msg_send2}
use binkd.Protocol.State.{
  m_nul, m_ok, m_err, NdFlag, CryptFlag, no_crypt, yes_crypt, Security, p_null, p_nonsecure,
  p_secure, is_secure, SecurityExt, p_we_nonsecure, p_remote_nonsecure, Node, State, is_md_set,
}

abbrev pub is_some {ℓ} : {A : Type ℓ} → Option A → Bool
is_some none = false
is_some (some a) = true

-- `OK_SEND_FILES`
unfoldable pub ok_send_files : State → Config → Bool
ok_send_files s config =
    (not config.send_if_pwd || is_secure s.security || is_some s.to) && not s.r_skipped_flag

abbrev pub send_freqs : Env → ℕ → State → State
send_freqs env zero s = s
send_freqs env (suc n) s = send_freqs env n (msg_send2 env m_nul (codes "FREQ") [] s)

unfoldable pub do_prescan : Env → Config → State → State
unfolding ok_send_files msg_send2 q_freq_num
do_prescan env config s =
    let t = record s { q = env.q_scan_addrs s } in
    let u = msg_send2 env m_nul (codes "TRF ") (env.trf_text t.q) t in
    let v = if leb (s.major * 100 + s.minor) 100 then send_freqs env (q_freq_num t.q) u else u in
    if ok_send_files s config && config.prescan then v else s

unfoldable pub select_inbound : Env → Config → State → Bytes
select_inbound env config s =
    let common = if is_secure s.security then config.inbound else config.inbound_nonsecure in
    elim s.fa [
      | [] ↦ common
      | fa ∷ others ↦ elim (env.ibox fa) [ none ↦ common | some ibox ↦ ibox ]
    ]

-- `crypt_flag == (WE_CRYPT | THEY_CRYPT)`
abbrev pub both_crypt : CryptFlag → Bool
both_crypt c = c.we_crypt && c.they_crypt && not c.yes_crypt

abbrev pub is_bang : Bytes → Bool
is_bang pwd = bytes_eq pwd (codes "!")

-- The session may be encrypted: both sides want it, MD_flag is not 0, and "!" is not expected.
unfoldable pub may_crypt : State → Bool
may_crypt s =
    is_secure s.security
    && (both_crypt s.crypt_flag && is_md_set s.md_flag && not (is_bang s.expected_pwd))

abbrev pub out_pwd_of : Node → Bytes
out_pwd_of node = elim node.out_pwd [ none ↦ codes "-" | some pwd ↦ pwd ]

-- The caller's keys, from the password that it sent.
unfoldable pub caller_keys : Env → Bytes → State → State
caller_keys env pwd s = record s {
  crypt_flag = yes_crypt;
  keys_out = init_keys env.wrap pwd;
  keys_in = update_keys_all env.wrap (init_keys env.wrap (codes "-")) pwd;
}

-- The answering side's keys, from the password that it expects.
unfoldable pub answer_keys : Env → State → State
answer_keys env s = record s {
  crypt_flag = yes_crypt;
  keys_in = init_keys env.wrap s.expected_pwd;
  keys_out = update_keys_all env.wrap (init_keys env.wrap (codes "-")) s.expected_pwd;
}

unfoldable pub new_keys : Env → Option Node → State → State
unfolding caller_keys answer_keys
new_keys env none s = answer_keys env s
new_keys env (some node) s = caller_keys env (out_pwd_of node) s

unfoldable pub start_crypt : Env → State → State
unfolding may_crypt new_keys
start_crypt env s =
    if may_crypt s
    then new_keys env s.to s
    else if is_secure s.security && is_yes_crypt s.crypt_flag
    then s
    else record s { crypt_flag = no_crypt }

-- The inbound directory, the queue of files and NR mode of the session.
unfoldable pub start_session : Env → Config → State → State
unfolding select_inbound ok_send_files
start_session env config s =
    let t = record s { inbound = select_inbound env config s } in
    let scanned : List Ftnq = elim t.q [ [] ↦ env.q_scan_addrs t | f ∷ fs ↦ f ∷ fs ] in
    record t {
      q = if ok_send_files t config then q_sort env.pmatch_ncase scanned t.fa else t.q;
      msgs_in_batch = 0;
      nr_flag = record t.nr_flag { we_nr = t.nr_flag.we_nr || t.nd_flag.we_nd };
    }

unfoldable pub complete_login : Env → Config → State → State × Bool
unfolding start_session start_crypt
complete_login env config s = (start_crypt env (start_session env config s), true)
