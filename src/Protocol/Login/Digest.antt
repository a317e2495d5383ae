-- ===== src/Protocol/Login/Digest.antt =====
-- protocol.c: the digest of whatever password is expected is accepted, also of the empty one.
use binkd.Base.{
  Bool, true, false, some, none, Bytes, bytes_eq, ◌≡◌, ◌≢◌, refl, ◌∙◌, ap, if_ind, Bool-cases, inl,
  inr, codes, bytes_eq_iff,
}
use binkd.Text.{same_letters}
use binkd.Protocol.Env.{Env, Config}
use binkd.Protocol.State.{p_null, p_secure, State, is_md_on}
use binkd.Protocol.Login.{
  is_cram, Verdict, good, check_challenge, check_digest, check_pwd, no_password, judge, enter_pwd,
  pwd_from, pwd, mark_md,
}
use binkd.Protocol.Start.{do_prescan}
use binkd.Protocol.Login.Password.{
  pwd_first, accept_pwd-security, accept_pwd-true, do_prescan-security,
}

module _ (env : Env) (config : Config) (word challenge : Bytes) (s : State) where
  check_digest_good :
      s.md_challenge ≡ some challenge
      → same_letters (env.md_build_digest s.expected_pwd challenge) word ≡ true
      → check_digest env s word ≡ good
  unfolding check_digest check_challenge
  check_digest_good e h =
      if_ind (λ (v : Verdict). v ≡ good) (bytes_eq s.expected_pwd (codes "!")) (λ k. refl)
        (λ k. rw e (rw h refl))

  check_pwd_digest :
      is_cram word ≡ true
      → s.md_challenge ≡ some challenge
      → same_letters (env.md_build_digest s.expected_pwd challenge) word ≡ true
      → check_pwd env s word ≡ good
  unfolding check_pwd
  check_pwd_digest cram e h = elim (Bool-cases (is_md_on s.md_flag)) [
    | inl m ↦ rw (cram, m) (check_digest_good e h)
    | inr m ↦
        rw (cram, m)
          (rw e (
            if_ind (λ (v : Verdict). v ≡ good) (bytes_eq s.expected_pwd (codes "!")) (λ k. refl)
              (λ k. rw h refl)))
  ]

  enter_pwd_digest :
      check_pwd env s word ≡ good
      → ((enter_pwd env config false true word s).0.security ≡ p_secure)
        × ((enter_pwd env config false true word s).1 ≡ true)
  unfolding enter_pwd judge
  enter_pwd_digest e =
      let t = record (mark_md word s) { security = p_secure } in
      rw e (
        accept_pwd-security env config (do_prescan env config t) ∙ do_prescan-security env config t,
        accept_pwd-true env config (do_prescan env config t),
      )

  entered :
      no_password s ≡ false
      → is_cram word ≡ true
      → pwd_from env config none p_null word s ≡ enter_pwd env config false true word s
  unfolding pwd_from
  entered n cram = λ i. enter_pwd env config (n i) (cram i) word s

  -- The first M_PWD of an incoming call makes the session secure where it is the digest, of the
  -- challenge that was sent, of the password that is expected, and this is not "-". The expected
  -- password may be empty: the remote that is to be refused for its addresses is then let in by the
  -- digest of the empty password.
  pub pwd_digest :
      s.to ≡ none
      → s.security ≡ p_null
      → s.expected_pwd ≢ codes "-"
      → is_cram word ≡ true
      → s.md_challenge ≡ some challenge
      → same_letters (env.md_build_digest s.expected_pwd challenge) word ≡ true
      → ((pwd env config word s).0.security ≡ p_secure) × ((pwd env config word s).1 ≡ true)
  pwd_digest incoming null n cram e h =
      let run = pwd_first env config word s incoming null ∙ entered closed cram in
      let r = enter_pwd_digest (check_pwd_digest cram e h) in
      (ap (λ (u : State × Bool). u.0.security) run ∙ r.0, ap (λ (u : State × Bool). u.1) run ∙ r.1)
    where
      closed : no_password s ≡ false
      closed = elim (Bool-cases (no_password s)) [
        | inl k ↦ absurd (n ((bytes_eq_iff s.expected_pwd (codes "-")).0 k))
        | inr k ↦ k
      ]
