-- ===== src/Protocol/Login/Check.antt =====
-- protocol.c: which passwords the check of M_PWD finds good.
use binkd.Base.{
  Bool, true, false, not, ◌&&◌, ◌||◌, [], Bytes, codes, bytes_eq, bytes_eq_iff, Option, some, none,
  if◌then◌else◌, Bool-cases, inl, inr, ◌⊎◌, ◌≡◌, ◌≢◌, refl, sym, ◌∙◌,
}
use binkd.Protocol.Env.{Env}
use binkd.Protocol.State.{State, is_md_on, is_md_set}
use binkd.Protocol.Start.{is_bang, is_some}
use binkd.Text.{same_letters}
use binkd.Protocol.Login.{
  is_cram, by_digest, Verdict, good, bad, need_md5, check_challenge, check_digest, check_plain,
  check_pwd,
}

-- The password fits what is expected of the remote: any password, where "!" is expected; the
-- expected one in plain text, where no digest is required; or the digest of the expected one with
-- the challenge that was sent.
abbrev pub Authentic : Env → State → Bytes → Type 0
Authentic env s word =
    (s.expected_pwd ≢ codes "-")
    × ((s.expected_pwd ≡ codes "!")
        ⊎ ((is_md_on s.md_flag ≡ false) × (s.expected_pwd ≢ []) × (s.expected_pwd ≡ word))
        ⊎ ((challenge : Bytes) × (s.md_challenge ≡ some challenge)
            × (same_letters (env.md_build_digest s.expected_pwd challenge) word ≡ true)))

-- The ways to be authentic but for the expected password not being "-".
abbrev pub Fits : Env → State → Bytes → Type 0
Fits env s word =
    (s.expected_pwd ≡ codes "!")
    ⊎ ((is_md_on s.md_flag ≡ false) × (s.expected_pwd ≢ []) × (s.expected_pwd ≡ word))
    ⊎ ((challenge : Bytes) × (s.md_challenge ≡ some challenge)
        × (same_letters (env.md_build_digest s.expected_pwd challenge) word ≡ true))

if_good :
    (b : Bool) (v : Verdict)
    → (if b then good else v) ≡ good
    → (b ≡ true) ⊎ ((b ≡ false) × (v ≡ good))
if_good true v h = inl refl
if_good false v h = inr (refl, h)

if_bad : (b : Bool) (v : Verdict) → (if b then bad else v) ≡ good → (b ≡ false) × (v ≡ good)
if_bad true v h = absurd (cc (h))
if_bad false v h = (refl, h)

if_md5 : (b : Bool) (v : Verdict) → (if b then need_md5 else v) ≡ good → v ≡ good
if_md5 true v h = absurd (cc (h))
if_md5 false v h = h

if_else_bad : (b : Bool) → (if b then good else bad) ≡ good → b ≡ true
if_else_bad true h = refl
if_else_bad false h = absurd (cc (h))

is_bang_good :
    (env : Env) (s : State) (word : Bytes) → is_bang s.expected_pwd ≡ true → Fits env s word
is_bang_good env s word h = inl ((bytes_eq_iff s.expected_pwd (codes "!")).0 h)

check_challenge_good :
    (env : Env) (s : State) (word : Bytes) (o : Option Bytes)
    → s.md_challenge ≡ o
    → check_challenge env s.expected_pwd word o ≡ good
    → Fits env s word
unfolding check_challenge
check_challenge_good env s word none e h = absurd (cc (h))
check_challenge_good env s word (some challenge) e h = inr (
    inr (
      challenge,
      e,
      if_else_bad (same_letters (env.md_build_digest s.expected_pwd challenge) word) h,
    ))

check_digest_good :
    (env : Env) (s : State) (word : Bytes) → check_digest env s word ≡ good → Fits env s word
unfolding check_digest
check_digest_good env s word h =
    elim (if_good (is_bang s.expected_pwd) (check_challenge env s.expected_pwd word s.md_challenge)
      h) [
        | inl bang ↦ is_bang_good env s word bang
        | inr other ↦ check_challenge_good env s word s.md_challenge refl other.1
      ]

check_plain_good :
    (env : Env) (s : State) (word : Bytes)
    → is_md_on s.md_flag ≡ false
    → check_plain s word ≡ good
    → Fits env s word
unfolding check_plain
check_plain_good env s word no_md h =
    elim (if_good (is_bang s.expected_pwd)
      (if bytes_eq s.expected_pwd []
        then bad
        else if bytes_eq s.expected_pwd word
        then good
        else bad)
      h) [
        | inl bang ↦ is_bang_good env s word bang
        | inr other ↦
            let full =
              if_bad (bytes_eq s.expected_pwd [])
                (if bytes_eq s.expected_pwd word then good else bad) other.1 in
            inr (
              inl (
                no_md,
                nonempty full.0,
                (bytes_eq_iff s.expected_pwd word).0
                    (if_else_bad (bytes_eq s.expected_pwd word) full.1),
              ))
      ]
  where
    nonempty : bytes_eq s.expected_pwd [] ≡ false → s.expected_pwd ≢ []
    nonempty full e = cc ((bytes_eq_iff s.expected_pwd []).1 e)

if_true {ℓ} : {A : Type ℓ} (b : Bool) (x y : A) → b ≡ true → (if b then x else y) ≡ x
if_true b x y e = rw e refl

if_false {ℓ} : {A : Type ℓ} (b : Bool) (x y : A) → b ≡ false → (if b then x else y) ≡ y
if_false b x y e = rw e refl

or_false : (a b : Bool) → (a || b) ≡ false → a ≡ false
or_false true b h = h
or_false false b h = refl

-- A verdict is good for a password that fits.
pub check_pwd_good :
    (env : Env) (s : State) (word : Bytes) → check_pwd env s word ≡ good → Fits env s word
unfolding check_pwd
check_pwd_good env s word h =
    let by_md5 : Verdict =
      if not (is_cram word) && is_md_set s.md_flag then need_md5 else check_digest env s word in
    elim (Bool-cases (by_digest s word)) [
      | inl digest ↦ check_digest_good env s word (
          if_md5 (not (is_cram word) && is_md_set s.md_flag) (check_digest env s word)
            (sym (if_true (by_digest s word) by_md5 (check_plain s word) digest) ∙ h))
      | inr plain ↦
          check_plain_good env s word
            (or_false (is_md_on s.md_flag) (is_cram word && is_some s.md_challenge) plain)
            (sym (if_false (by_digest s word) by_md5 (check_plain s word) plain) ∙ h)
    ]
