-- ===== src/Protocol/Login.antt =====
-- protocol.c: the handlers of M_PWD and M_OK.
pub mod Check
pub mod Password
pub mod Digest
use binkd.Base.{
  ℕ, zero, suc, ◌+◌, ◌-◌, Bool, true, false, not, ◌&&◌, ◌||◌, List, [], ◌∷◌, ◌++◌, Option, none,
  some, Bytes, codes, bytes_eq, take, map, leb, ◌*◌, ◌==◌, if◌then◌else◌,
}
use binkd.Text.{tolower, same_letters}
use binkd.Crypt.{Keys, init_keys, update_keys_all}
use binkd.Protocol.Env.{Env, Config}
use binkd.Protocol.Send.{is_yes_crypt, msg_send2}
use binkd.Protocol.State.{
  m_nul, m_ok, m_err, NdFlag, CryptFlag, no_crypt, yes_crypt, md_on, is_md_on, is_md_set, Security,
  p_null, p_nonsecure, p_secure, is_secure, SecurityExt, p_we_nonsecure, p_remote_nonsecure, Node,
  State,
}
use binkd.Protocol.Start.{
  is_some, ok_send_files, send_freqs, do_prescan, select_inbound, both_crypt, is_bang, may_crypt,
  out_pwd_of, caller_keys, answer_keys, new_keys, start_crypt, start_session, complete_login,
}

-- `!STRNICMP (pwd, "CRAM-", 5)`
unfoldable pub is_cram : Bytes → Bool
unfolding same_letters
is_cram pwd = same_letters (take 5 pwd) (codes "CRAM-")

-- What the check of a password finds.
pub data Verdict : Type 0 where
  good bad need_md5 : Verdict

-- The digest of the expected password with the challenge is compared, if a challenge was sent.
unfoldable pub check_challenge : Env → Bytes → Bytes → Option Bytes → Verdict
unfolding same_letters
check_challenge env expected pwd none = bad
check_challenge env expected pwd (some challenge) =
    if same_letters (env.md_build_digest expected challenge) pwd then good else bad

-- The password is compared by its digest.
unfoldable pub check_digest : Env → State → Bytes → Verdict
unfolding check_challenge
check_digest env s pwd =
    if is_bang s.expected_pwd then good else check_challenge env s.expected_pwd pwd s.md_challenge

unfoldable pub check_plain : State → Bytes → Verdict
check_plain s pwd =
    if is_bang s.expected_pwd
    then good
    else if bytes_eq s.expected_pwd []
    then bad
    else if bytes_eq s.expected_pwd pwd
    then good
    else bad

-- Whether the digest is checked.
abbrev pub by_digest : State → Bytes → Bool
by_digest s pwd = is_md_on s.md_flag || (is_cram pwd && is_some s.md_challenge)

unfoldable pub check_pwd : Env → State → Bytes → Verdict
unfolding check_digest check_plain is_cram
check_pwd env s pwd =
    if by_digest s pwd
    then (if not (is_cram pwd) && is_md_set s.md_flag then need_md5 else check_digest env s pwd)
    else check_plain s pwd

-- The word list of the message "OPT".
unfoldable pub opt_text : State → Bytes
opt_text s =
    codes " EXTCMD"
    ++ ((if s.nr_flag.want_nr then codes " NR" else [])
        ++ ((if s.nd_flag.they_nd then codes " ND" else [])
            ++ ((if (if s.nd_flag.we_nd then not s.nd_flag.they_nd else s.nd_flag.they_nd)
                  then codes " NDA"
                  else [])
                ++ (if both_crypt s.crypt_flag then codes " CRYPT" else []))))

-- Without CAN_NDA the remote's ND mode follows ours.
unfoldable pub symmetric_nd : NdFlag → NdFlag
symmetric_nd f = if f.can_nda then f else record f { they_nd = f.we_nd }

-- NR mode against an old remote, or because files are incomplete.
unfoldable pub auto_nr : Env → Config → State → State
unfolding select_inbound
auto_nr env config s =
    let t =
      if s.buggy_nr && s.nr_flag.want_nr
      then record s { nr_flag = record s.nr_flag { we_nr = true } }
      else s in
    if not (t.nr_flag.want_nr || t.nr_flag.we_nr)
      && env.inb_has_partials (select_inbound env config t)
    then record t { nr_flag = record t.nr_flag { want_nr = true } }
    else t

-- The answer to a password: the options and M_OK.
unfoldable pub send_answer : Env → State → State
unfolding opt_text msg_send2
send_answer env s =
    let t = msg_send2 env m_nul (codes "OPT") (opt_text s) s in
    msg_send2 env m_ok (if is_secure t.security then codes "secure" else codes "non-secure") [] t

-- Whether the wish to encrypt is kept, for the answer and for the session.
unfoldable pub keeps_crypt : State → Bool
keeps_crypt s =
    is_secure s.security
    && not (both_crypt s.crypt_flag && (not (is_md_set s.md_flag) || is_bang s.expected_pwd))

unfoldable pub agree_flags : State → State
unfolding keeps_crypt symmetric_nd
agree_flags s = record s {
  crypt_flag = if keeps_crypt s then s.crypt_flag else no_crypt;
  nd_flag = symmetric_nd s.nd_flag;
}

-- The second half of `PWD`, once the session is known to be secure or not.
unfoldable pub accept_pwd : Env → Config → State → State × Bool
unfolding agree_flags auto_nr send_answer complete_login
accept_pwd env config s =
    complete_login env config (send_answer env (auto_nr env config (agree_flags s)))

abbrev pub no_password : State → Bool
no_password s = bytes_eq s.expected_pwd (codes "-")

-- A password where none is expected is not an error.
unfoldable pub nonsecure_state : Env → Config → Verdict → State → State
unfolding do_prescan
nonsecure_state env config verdict s =
    let t = do_prescan env config (record s { security = p_nonsecure }) in
    record t { state_ext = elim verdict [ good ↦ t.state_ext | _ ↦ p_we_nonsecure ] }

unfoldable pub nonsecure : Env → Config → Verdict → State → State × Bool
unfolding nonsecure_state accept_pwd
nonsecure env config verdict s = accept_pwd env config (nonsecure_state env config verdict s)

-- The flag tells that no password is expected.
unfoldable pub judge : Env → Config → Bool → Verdict → State → State × Bool
unfolding nonsecure do_prescan accept_pwd msg_send2
judge env config no_pwd need_md5 s =
    (msg_send2 env m_err (codes "You must support MD5") [] s, false)
judge env config true good s = nonsecure env config good s
judge env config true bad s = nonsecure env config bad s
judge env config false good s =
    accept_pwd env config (do_prescan env config (record s { security = p_secure }))
judge env config false bad s = (msg_send2 env m_err (codes "Bad password") [] s, false)

abbrev double_text : Bytes
double_text = codes "MSG Warning: double of password is received (M_PWD more one)!"

-- `MD_flag` is set where the digest is checked.
unfoldable pub mark_md : Bytes → State → State
unfolding is_cram
mark_md pwd s = record s {
  md_flag =
      if by_digest s pwd && not (not (is_cram pwd) && is_md_set s.md_flag)
      then md_on
      else s.md_flag;
}

-- The flags tell that no password is expected, and that a digest has come.
unfoldable pub enter_pwd : Env → Config → Bool → Bool → Bytes → State → State × Bool
unfolding judge check_pwd mark_md do_prescan accept_pwd
enter_pwd env config true false pwd s =
    accept_pwd env config (record (do_prescan env config s) { security = p_nonsecure })
enter_pwd env config no_pwd cram pwd s =
    judge env config no_pwd (check_pwd env s pwd) (mark_md pwd s)

-- The first password of an incoming call; another one is refused.
unfoldable pub pwd_from : Env → Config → Option Node → Security → Bytes → State → State × Bool
unfolding enter_pwd is_cram msg_send2
pwd_from env config (some node) security pwd s = (s, true)
pwd_from env config none p_null pwd s = enter_pwd env config (no_password s) (is_cram pwd) pwd s
pwd_from env config none p_nonsecure pwd s = (msg_send2 env m_nul double_text [] s, false)
pwd_from env config none p_secure pwd s = (msg_send2 env m_nul double_text [] s, false)

unfoldable pub pwd : Env → Config → Bytes → State → State × Bool
unfolding pwd_from
pwd env config arg s = pwd_from env config s.to s.security arg s

abbrev pub any_word : Bytes → List Bytes → Bool
any_word w [] = false
any_word w (v ∷ vs) = bytes_eq v w || any_word w vs

-- `ND_flag == WE_ND || ND_flag == THEY_ND` gives up ND mode.
unfoldable pub drop_asymmetric : NdFlag → NdFlag
drop_asymmetric f =
    if not f.can_nda && (if f.we_nd then not f.they_nd else f.they_nd)
    then record { we_nd = false; they_nd = false; can_nda = false }
    else f

-- The answer of the remote to an outgoing call.
unfoldable pub ok : Env → Config → Bytes → State → State × Bool
unfolding drop_asymmetric complete_login
ok env config buf s = elim s.to [
  | none ↦ (s, false)
  | some node ↦
      let sent = not (bytes_eq (out_pwd_of node) (codes "-")) in
      let t = record s { security = if sent then p_secure else p_nonsecure } in
      let u =
        if sent && any_word (codes "non-secure") (env.words buf)
        then record t { crypt_flag = no_crypt; state_ext = p_remote_nonsecure }
        else t in
      complete_login env config (record u { nd_flag = drop_asymmetric u.nd_flag })
]
