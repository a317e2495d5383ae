-- ===== src/Protocol/Start/Encryption.antt =====
-- protocol.c: when a session is encrypted, and with which keys.
use binkd.Base.{
  Bool, true, false, not, ◌&&◌, ◌||◌, Bytes, codes, Option, some, none, if◌then◌else◌, Bool-cases,
  inl, inr, ◌≡◌, refl, sym, ap, ◌∙◌,
}
use binkd.Crypt.{init_keys, update_keys_all}
use binkd.Protocol.Env.{Env, Config}
use binkd.Protocol.Send.{is_yes_crypt}
use binkd.Protocol.State.{Node, yes_crypt, no_crypt, is_secure, State, is_md_set}
use binkd.Protocol.Start.{
  out_pwd_of, both_crypt, is_bang, may_crypt, caller_keys, answer_keys, new_keys, start_crypt,
  start_session, complete_login,
}

start_crypt_may :
    (env : Env) (s : State) → may_crypt s ≡ true → start_crypt env s ≡ new_keys env s.to s
unfolding start_crypt
start_crypt_may env s h = rw h refl

-- The two sides of a session may encrypt it, and the caller sends the password that the answering
-- side expects. Then both encrypt, and each decrypts with the keys that the other encrypts with.
pub complete_login-agree :
    (env : Env) (config config' : Config) (node : Node) (a b : State)
    → a.to ≡ some node
    → b.to ≡ none
    → may_crypt a ≡ true
    → may_crypt b ≡ true
    → out_pwd_of node ≡ b.expected_pwd
    → (let caller = (complete_login env config a).0 in
        let answer = (complete_login env config' b).0 in
        (caller.keys_out ≡ answer.keys_in)
        × (caller.keys_in ≡ answer.keys_out)
        × (is_yes_crypt caller.crypt_flag ≡ true)
        × (is_yes_crypt answer.crypt_flag ≡ true))
unfolding complete_login start_session new_keys caller_keys answer_keys may_crypt
complete_login-agree env config config' node a b calls answers may may' same_pwd =
    let x = start_session env config a in
    let y = start_session env config' b in
    let ca : start_crypt env x ≡ caller_keys env (out_pwd_of node) x =
      start_crypt_may env x may ∙ ap (λ (o : Option Node). new_keys env o x) calls in
    let cb : start_crypt env y ≡ answer_keys env y =
      start_crypt_may env y may' ∙ ap (λ (o : Option Node). new_keys env o y) answers in
    let key = λ (pwd : Bytes). init_keys env.wrap pwd in
    let back = λ (pwd : Bytes). update_keys_all env.wrap (init_keys env.wrap (codes "-")) pwd in
    (
      ap (λ (s : State). s.keys_out) ca ∙ ap key same_pwd ∙ sym (ap (λ (s : State). s.keys_in) cb),
      ap (λ (s : State). s.keys_in) ca ∙ ap back same_pwd ∙ sym (ap (λ (s : State). s.keys_out) cb),
      ap (λ (s : State). is_yes_crypt s.crypt_flag) ca,
      ap (λ (s : State). is_yes_crypt s.crypt_flag) cb,
    )

new_keys-crypt_flag :
    (env : Env) (to : Option Node) (s : State) → (new_keys env to s).crypt_flag ≡ yes_crypt
unfolding new_keys caller_keys answer_keys
new_keys-crypt_flag env none s = refl
new_keys-crypt_flag env (some node) s = refl

and_right : (a b : Bool) → (a && b) ≡ true → b ≡ true
and_right true b h = h
and_right false b h = absurd (cc (h))

start_crypt-crypt_flag :
    (env : Env) (s : State)
    → is_yes_crypt (start_crypt env s).crypt_flag
      ≡ is_secure s.security && is_yes_crypt s.crypt_flag || may_crypt s
unfolding start_crypt
start_crypt-crypt_flag env s = elim (Bool-cases (may_crypt s)) [
  | inl may ↦ rw may (
      ap is_yes_crypt (new_keys-crypt_flag env s.to s)
      ∙ or_true (is_secure s.security && is_yes_crypt s.crypt_flag))
  | inr may_not ↦ rw may_not (kept (is_secure s.security && is_yes_crypt s.crypt_flag) refl)
]
  where
    or_true : (b : Bool) → true ≡ b || true
    or_true true = refl
    or_true false = refl

    kept :
        (b : Bool)
        → (is_secure s.security && is_yes_crypt s.crypt_flag) ≡ b
        → is_yes_crypt (if b then s else record s { crypt_flag = no_crypt }).crypt_flag ≡ b || false
    kept true e = and_right (is_secure s.security) (is_yes_crypt s.crypt_flag) e ∙ refl
    kept false e = refl

-- After the login a session is encrypted exactly where it is secure and either it was encrypted
-- before or both sides asked for encryption, MD_flag is not 0, and the expected password is not "!".
-- MD_flag is 1 behind a password that was checked by its digest, and -1 for a node with -nomd, which
-- may have sent its password as plain text.
pub complete_login-crypt_flag :
    (env : Env) (config : Config) (s : State)
    → is_yes_crypt (complete_login env config s).0.crypt_flag
      ≡ is_secure s.security
        && (is_yes_crypt s.crypt_flag
            || both_crypt s.crypt_flag && is_md_set s.md_flag && not (is_bang s.expected_pwd))
unfolding complete_login start_session may_crypt
complete_login-crypt_flag env config s =
    let wish = both_crypt s.crypt_flag && is_md_set s.md_flag && not (is_bang s.expected_pwd) in
    let e : is_yes_crypt (start_crypt env (start_session env config s)).crypt_flag
        ≡ (is_secure s.security && is_yes_crypt s.crypt_flag || is_secure s.security && wish) =
      start_crypt-crypt_flag env (start_session env config s) in
    e ∙ factor (is_secure s.security) (is_yes_crypt s.crypt_flag) wish
  where
    factor : (a b c : Bool) → (a && b || (a && c)) ≡ a && (b || c)
    factor true b c = refl
    factor false b c = refl
