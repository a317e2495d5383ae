-- ===== src/Protocol/Login/Password.antt =====
-- protocol.c: an incoming session is secure only where the password was checked.
use mathlib.Core.Path.{subst}
use binkd.Base.{
  ℕ, zero, suc, ◌+◌, ◌*◌, Bool, true, false, ◌&&◌, [], ◌∷◌, ◌++◌, Bytes, codes, bytes_eq_iff, leb,
  none, if◌then◌else◌, ◌≡◌, ◌≢◌, refl, sym, ap, ◌∙◌, arith,
}
use binkd.Ftnq.{q_freq_num}
use binkd.Protocol.Env.{Env, Config}
use binkd.Protocol.Send.{msg_send2}
use binkd.Protocol.State.{m_nul, m_err, p_null, p_nonsecure, p_secure, State, Bmsg}
use binkd.Protocol.Start.{
  send_freqs, do_prescan, complete_login, start_crypt, new_keys, caller_keys, answer_keys,
  ok_send_files, start_session,
}
use binkd.Protocol.Login.{
  is_cram, auto_nr, send_answer, agree_flags, accept_pwd, Verdict, good, bad, need_md5, check_pwd,
  no_password, nonsecure_state, nonsecure, judge, mark_md, enter_pwd, pwd_from, pwd,
}
use binkd.Protocol.Login.Check.{Authentic, check_pwd_good}

send_freqs-security : (env : Env) (n : ℕ) (s : State) → (send_freqs env n s).security ≡ s.security
unfolding msg_send2
send_freqs-security env zero s = refl
send_freqs-security env (suc n) s =
    send_freqs-security env n (msg_send2 env m_nul (codes "FREQ") [] s)

if_same {ℓ} :
    {A : Type ℓ} (P : State → A) (b : Bool) (x y : State) (v : A)
    → P x ≡ v
    → P y ≡ v
    → P (if b then x else y) ≡ v
if_same P true x y v h k = h
if_same P false x y v h k = k

pub do_prescan-security :
    (env : Env) (config : Config) (s : State) → (do_prescan env config s).security ≡ s.security
unfolding do_prescan msg_send2
do_prescan-security env config s =
    let t = record s { q = env.q_scan_addrs s } in
    let u = msg_send2 env m_nul (codes "TRF ") (env.trf_text t.q) t in
    let old = leb (s.major * 100 + s.minor) 100 in
    let v = if old then send_freqs env (q_freq_num t.q) u else u in
    if_same (λ x. x.security) (ok_send_files s config && config.prescan) v s s.security
      (if_same (λ x. x.security) old (send_freqs env (q_freq_num t.q) u) u s.security
        (send_freqs-security env (q_freq_num t.q) u) refl)
      refl

auto_nr-security :
    (env : Env) (config : Config) (s : State) → (auto_nr env config s).security ≡ s.security
unfolding auto_nr
auto_nr-security env config s = ground arith

start_crypt-security : (env : Env) (s : State) → (start_crypt env s).security ≡ s.security
unfolding start_crypt new_keys caller_keys answer_keys
start_crypt-security env s = ground arith

pub accept_pwd-security :
    (env : Env) (config : Config) (s : State) → (accept_pwd env config s).0.security ≡ s.security
unfolding accept_pwd complete_login start_session send_answer msg_send2 agree_flags
accept_pwd-security env config s =
    start_crypt-security env
      (start_session env config (send_answer env (auto_nr env config (agree_flags s))))
    ∙ auto_nr-security env config (agree_flags s)

pub accept_pwd-true : (env : Env) (config : Config) (s : State) → (accept_pwd env config s).1 ≡ true
unfolding accept_pwd complete_login
accept_pwd-true env config s = refl

nonsecure-security :
    (env : Env) (config : Config) (v : Verdict) (s : State)
    → (nonsecure env config v s).0.security ≡ p_nonsecure
unfolding nonsecure nonsecure_state
nonsecure-security env config v s =
    accept_pwd-security env config (nonsecure_state env config v s)
    ∙ do_prescan-security env config (record s { security = p_nonsecure })

nonsecure_apart : p_nonsecure ≢ p_secure
nonsecure_apart e = cc (e)

judge-security :
    (env : Env) (config : Config) (no_pwd : Bool) (v : Verdict) (s : State)
    → s.security ≡ p_null
    → (judge env config no_pwd v s).0.security ≡ p_secure
    → (no_pwd ≡ false) × (v ≡ good) × ((judge env config no_pwd v s).1 ≡ true)
unfolding judge msg_send2
judge-security env config no_pwd need_md5 s null h = absurd (cc (null, h))
judge-security env config true good s null h =
    absurd (nonsecure_apart (sym (nonsecure-security env config good s) ∙ h))
judge-security env config true bad s null h =
    absurd (nonsecure_apart (sym (nonsecure-security env config bad s) ∙ h))
judge-security env config false good s null h = (
  refl,
  refl,
  accept_pwd-true env config (do_prescan env config (record s { security = p_secure })),
)
judge-security env config false bad s null h = absurd (cc (null, h))

enter_pwd-security :
    (env : Env) (config : Config) (no_pwd cram : Bool) (word : Bytes) (s : State)
    → s.security ≡ p_null
    → (enter_pwd env config no_pwd cram word s).0.security ≡ p_secure
    → (no_pwd ≡ false)
      × (check_pwd env s word ≡ good)
      × ((enter_pwd env config no_pwd cram word s).1 ≡ true)
unfolding enter_pwd mark_md
enter_pwd-security env config true false word s null h = absurd (
    nonsecure_apart (
      sym (
        accept_pwd-security env config
          (record (do_prescan env config s) { security = p_nonsecure }))
      ∙ h))
enter_pwd-security env config true true word s null h =
    judge-security env config true (check_pwd env s word) (mark_md word s) null h
enter_pwd-security env config false cram word s null h =
    judge-security env config false (check_pwd env s word) (mark_md word s) null h

pwd_from-security :
    (env : Env) (config : Config) (word : Bytes) (s : State)
    → s.security ≡ p_null
    → (pwd_from env config none p_null word s).0.security ≡ p_secure
    → Authentic env s word × ((pwd_from env config none p_null word s).1 ≡ true)
unfolding pwd_from
pwd_from-security env config word s null h =
    let k = enter_pwd-security env config (no_password s) (is_cram word) word s null h in
    ((no_dash k.0, check_pwd_good env s word k.1), k.2)
  where
    no_dash : no_password s ≡ false → s.expected_pwd ≢ codes "-"
    no_dash h e = cc ((bytes_eq_iff s.expected_pwd (codes "-")).1 e, h)

pub pwd_first :
    (env : Env) (config : Config) (word : Bytes) (s : State)
    → s.to ≡ none
    → s.security ≡ p_null
    → pwd env config word s ≡ pwd_from env config none p_null word s
unfolding pwd
pwd_first env config word s incoming null = λ i. pwd_from env config (incoming i) (null i) word s

-- The first M_PWD of an incoming call makes the session secure only if its password is authentic: a
-- password is expected of the remote, and the one that came is that password or, by digest, fits it.
pub pwd-Authentic :
    (env : Env) (config : Config) (word : Bytes) (s : State)
    → s.to ≡ none
    → s.security ≡ p_null
    → (pwd env config word s).0.security ≡ p_secure
    → Authentic env s word × ((pwd env config word s).1 ≡ true)
pwd-Authentic env config word s incoming null h =
    let first = pwd_first env config word s incoming null in
    let k =
      pwd_from-security env config word s null
        (sym (ap (λ (r : State × Bool). r.0.security) first) ∙ h) in
    (k.0, ap (λ (r : State × Bool). r.1) first ∙ k.1)

-- One message more waits, an M_ERR.
abbrev pub SendsError : State → State → Type 0
SendsError s t = (m : Bmsg) × (t.msgs ≡ s.msgs ++ m ∷ []) × (m.t ≡ m_err)

-- What a refused password leads to.
abbrev pub Refused : State → State × Bool → Type 0
Refused s (t, rc) = (rc ≡ false) × (t.security ≡ s.security) × SendsError s t

judge-Refused :
    (env : Env) (config : Config) (v : Verdict) (s : State)
    → v ≢ good
    → Refused s (judge env config false v s)
unfolding judge msg_send2
judge-Refused env config good s h = absurd (h refl)
judge-Refused env config bad s h = (refl, refl, (_, refl, refl))
judge-Refused env config need_md5 s h = (refl, refl, (_, refl, refl))

pwd_from-Refused :
    (env : Env) (config : Config) (no_pwd cram : Bool) (word : Bytes) (s : State)
    → no_pwd ≡ false
    → check_pwd env s word ≢ good
    → Refused s (enter_pwd env config no_pwd cram word s)
unfolding enter_pwd mark_md
pwd_from-Refused env config true cram word s e h = absurd (cc (e))
pwd_from-Refused env config false cram word s e h =
    judge-Refused env config (check_pwd env s word) (mark_md word s) h

-- Where a password is expected, a first M_PWD whose password is not authentic is refused: M_ERR is
-- queued, the handler returns false, and the session does not become secure.
pub pwd-Refused :
    (env : Env) (config : Config) (word : Bytes) (s : State)
    → s.to ≡ none
    → s.security ≡ p_null
    → s.expected_pwd ≢ codes "-"
    → ¬ Authentic env s word
    → Refused s (pwd env config word s)
unfolding pwd_from
pwd-Refused env config word s incoming null expected wrong =
    subst (λ r. Refused s r) (sym (pwd_first env config word s incoming null))
      (pwd_from-Refused env config (no_password s) (is_cram word) word s
        (has_pwd (no_password s) refl) (λ e. wrong (expected, check_pwd_good env s word e)))
  where
    has_pwd : (b : Bool) → no_password s ≡ b → no_password s ≡ false
    has_pwd true e = absurd (expected ((bytes_eq_iff s.expected_pwd (codes "-")).0 e))
    has_pwd false e = e
