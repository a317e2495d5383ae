-- ===== src/Events/Once.antt =====
-- srif.c: the flag files of a session are created once.
use mathlib.Core.Path.{subst}
use binkd.Base.{
  ℕ, ◌+◌, ◌≤◌, Bool, true, false, ◌&&◌, List, [], ◌∷◌, Option, none, some, Bytes, All, bytes_eq,
  bytes_eq_iff, ltb, ◌⊎◌, if◌then◌else◌, ◌≡◌, refl, if_ind, Bool-cases, inl, inr, arith,
}
use binkd.Events.{
  EvtType, evt_f, evt_e, Evt, EvtFlag, EvtEffect, creates, runs, same_type, is_queued, evt_queue,
  EvtTest, evt_found, evt_test_from, evt_test, effect_of, evt_set,
}

-- How often a flag file is created.
unfoldable pub one_time : Bytes → EvtEffect → ℕ
unfolding bytes_eq
one_time path (creates p) = if bytes_eq p path then 1 else 0
one_time path (runs p) = 0

unfoldable pub times_created : Bytes → List EvtEffect → ℕ
unfolding one_time
times_created path [] = 0
times_created path (e ∷ effects) = one_time path e + times_created path effects

unfoldable pub times : Bytes → List Evt → ℕ
unfolding times_created evt_set
times path eq = times_created path (evt_set eq)

one_time_other :
    (path : Bytes) (ty : EvtType) (p : Bytes)
    → same_type ty evt_f && bytes_eq p path ≡ false
    → one_time path (effect_of ty p) ≡ 0
unfolding one_time
one_time_other path evt_e p h = refl
one_time_other path evt_f p h = rw h refl

one_time_same :
    (path : Bytes) (ty : EvtType) (p : Bytes)
    → same_type ty evt_f && bytes_eq p path ≡ true
    → one_time path (effect_of ty p) ≡ 1
unfolding one_time
one_time_same path evt_e p h = absurd (cc (h))
one_time_same path evt_f p h = rw h refl

not_queued : (path : Bytes) (eq : List Evt) → is_queued evt_f path eq ≡ false → times path eq ≡ 0
unfolding is_queued times times_created evt_set
not_queued path [] h = refl
not_queued path (e ∷ eq) h =
    let other : same_type e.evt_type evt_f && bytes_eq e.path path ≡ false = ground (arith, h) in
    let rest : is_queued evt_f path eq ≡ false = ground (arith, h) in
    omega (arith, one_time_other path e.evt_type e.path other, not_queued path eq rest)

queued_once : (path : Bytes) (eq : List Evt) → is_queued evt_f path eq ≡ true → 1 ≤ times path eq
unfolding is_queued times times_created evt_set
queued_once path [] h = absurd (cc (h))
queued_once path (e ∷ eq) h =
    elim (Bool-cases (same_type e.evt_type evt_f && bytes_eq e.path path)) [
      | inl k ↦ omega (arith, one_time_same path e.evt_type e.path k)
      | inr k ↦
          let rest : is_queued evt_f path eq ≡ true = ground (arith, k, h) in
          omega (arith, queued_once path eq rest)
    ]

-- No flag file is in the queue twice.
abbrev pub NoDouble : List Evt → Type 0
NoDouble eq = (path : Bytes) → times path eq ≤ 1

-- What a step does to the times of a file: no less, and at most one where it was so.
abbrev Grows : Bytes → List Evt → List Evt → Type 0
Grows path eq now = (times path eq ≤ times path now) × ((2 ≤ times path eq) ⊎ (times path now ≤ 1))

Grows-self : (path : Bytes) (eq : List Evt) → Grows path eq eq
Grows-self path eq = elim (Bool-cases (ltb 1 (times path eq))) [
  | inl e ↦ (omega arith, inl (ground (arith, e)))
  | inr e ↦ (omega arith, inr (ground (arith, e)))
]

evt_queue-Grows : (path q : Bytes) (eq : List Evt) → Grows path eq (evt_queue eq evt_f q)
unfolding evt_queue times times_created evt_set one_time
evt_queue-Grows path q eq =
    if_ind (Grows path eq) (is_queued evt_f q eq) (λ e. Grows-self path eq)
      (λ e. elim (Bool-cases (bytes_eq q path)) [
        | inl same ↦
            let at : q ≡ path = (bytes_eq_iff q path).0 same in
            let zero_times : times path eq ≡ 0 =
              subst (λ (t : Bytes). times t eq ≡ 0) at (not_queued q eq e) in
            (omega arith, inr (rw same (omega (arith, zero_times))))
        | inr other ↦
            let self = Grows-self path eq in
            (omega arith, elim self.1 [ inl a ↦ inl a | inr b ↦ inr (rw other (omega (arith, b))) ])
      ])

evt_queue_there : (q : Bytes) (eq : List Evt) → 1 ≤ times q (evt_queue eq evt_f q)
unfolding evt_queue times times_created evt_set one_time
evt_queue_there q eq =
    if_ind (λ (l : List Evt). 1 ≤ times q l) (is_queued evt_f q eq) (λ e. queued_once q eq e)
      (λ e. rw ((bytes_eq_iff q q).1 refl) (omega arith))

Grows-trans : (path : Bytes) (a b c : List Evt) → Grows path a b → Grows path b c → Grows path a c
Grows-trans path a b c (up, once) (up', once') = (
  omega (arith, up, up'),
  elim once [
    | inl k ↦ inl k
    | inr k ↦ elim once' [ inl j ↦ absurd (omega (arith, j, k)) | inr j ↦ inr j ]
  ],
)

evt_found-Grows :
    (q : Bytes) (path command : Option Bytes) (imm : Bool) (t : EvtTest)
    → Grows q t.eq (evt_found path command imm t).eq
unfolding evt_found
evt_found-Grows q (some path) command true t = Grows-self q t.eq
evt_found-Grows q (some path) command false t = evt_queue-Grows q path t.eq
evt_found-Grows q none (some command) imm t = Grows-self q t.eq
evt_found-Grows q none none imm t = Grows-self q t.eq

-- The flag file that a match asks for at the end.
unfoldable pub delayed : Bool → Option Bytes → Bool → Option Bytes
delayed true (some path) false = some path
delayed _ _ _ = none

evt_found_there :
    (q : Bytes) (path command : Option Bytes) (imm : Bool) (t : EvtTest)
    → delayed true path imm ≡ some q
    → 1 ≤ times q (evt_found path command imm t).eq
unfolding evt_found delayed
evt_found_there q (some path) command false t h =
    subst (λ (w : Bytes). 1 ≤ times w (evt_queue t.eq evt_f path)) (cc (h))
      (evt_queue_there path t.eq)
evt_found_there q (some path) command true t h = absurd (cc (h))
evt_found_there q none command imm t h = absurd (cc (h))

module _ (pmatch_ncase : Bytes → Bytes → Bool) (filename : Bytes) where
  abbrev step : EvtFlag → EvtTest → EvtTest
  unfolding evt_found
  step curr t =
      if pmatch_ncase curr.pattern filename then evt_found curr.path curr.command curr.imm t else t

  step-Grows : (q : Bytes) (curr : EvtFlag) (t : EvtTest) → Grows q t.eq (step curr t).eq
  unfolding step
  step-Grows q curr t =
      if_ind (λ (u : EvtTest). Grows q t.eq u.eq) (pmatch_ncase curr.pattern filename)
        (λ e. evt_found-Grows q curr.path curr.command curr.imm t) (λ e. Grows-self q t.eq)

  from-Grows :
      (q : Bytes) (flags : List EvtFlag) (t : EvtTest)
      → Grows q t.eq (evt_test_from pmatch_ncase filename flags t).eq
  unfolding evt_test_from step
  from-Grows q [] t = Grows-self q t.eq
  from-Grows q (curr ∷ flags) t =
      Grows-trans q t.eq (step curr t).eq _ (step-Grows q curr t) (from-Grows q flags (step curr t))

  abbrev delayed_flag : EvtFlag → Option Bytes
  unfolding delayed
  delayed_flag f = delayed (pmatch_ncase f.pattern filename) f.path f.imm

  step_there :
      (q : Bytes) (curr : EvtFlag) (t : EvtTest)
      → delayed_flag curr ≡ some q
      → 1 ≤ times q (step curr t).eq
  unfolding step delayed delayed_flag
  step_there q curr t h = elim (Bool-cases (pmatch_ncase curr.pattern filename)) [
    | inl e ↦ rw e (
        evt_found_there q curr.path curr.command curr.imm t
          (subst (λ (b : Bool). delayed b curr.path curr.imm ≡ some q) e h))
    | inr e ↦
        let never : delayed false curr.path curr.imm ≡ some q =
          subst (λ (b : Bool). delayed b curr.path curr.imm ≡ some q) e h in
        absurd (cc (never))
  ]

  Grows-NoDouble : (eq now : List Evt) → ((q : Bytes) → Grows q eq now) → NoDouble eq → NoDouble now
  Grows-NoDouble eq now g d =
      λ q. elim (g q).1 [ inl k ↦ absurd (omega (arith, k, d q)) | inr k ↦ k ]

  -- The flag file, if there is one, is created exactly once.
  abbrev pub CreatedOnce : List Evt → Option Bytes → Type 0
  CreatedOnce now none = Unit
  CreatedOnce now (some path) = times_created path (evt_set now) ≡ 1

  one_once :
      (curr : EvtFlag) (flags : List EvtFlag) (t : EvtTest) (o : Option Bytes)
      → delayed_flag curr ≡ o
      → NoDouble t.eq
      → CreatedOnce (evt_test_from pmatch_ncase filename (curr ∷ flags) t).eq o
  unfolding evt_test_from step times
  one_once curr flags t none h d = tt
  one_once curr flags t (some q) h d =
      let there = step_there q curr t h in
      let up = (from-Grows q flags (step curr t)).0 in
      let once = Grows-NoDouble t.eq _ (λ w. from-Grows w (curr ∷ flags) t) d q in
      omega (arith, there, up, once)

  each_once :
      (flags : List EvtFlag) (t : EvtTest)
      → NoDouble t.eq
      → All
          (λ f. CreatedOnce (evt_test_from pmatch_ncase filename flags t).eq (delayed_flag f))
          flags
  unfolding evt_test_from step
  each_once [] t d = tt
  each_once (curr ∷ flags) t d = (
    one_once curr flags t (delayed_flag curr) refl d,
    each_once flags (step curr t)
        (Grows-NoDouble t.eq (step curr t).eq (λ q. step-Grows q curr t) d),
  )

-- For every event of the configuration that matches a received file and asks for a flag file at the end
-- of the session, evt_set creates that file exactly once, however many events ask for it, where none is
-- in the queue twice before.
pub evt_test-CreatedOnce :
    (pmatch_ncase : Bytes → Bytes → Bool) (eq : List Evt) (filename : Bytes) (flags : List EvtFlag)
    → NoDouble eq
    → All
        (λ f.
          CreatedOnce pmatch_ncase filename
            (evt_test pmatch_ncase eq filename flags).eq
            (delayed (pmatch_ncase f.pattern filename) f.path f.imm))
        flags
unfolding evt_test delayed_flag
evt_test-CreatedOnce pmatch_ncase eq filename flags d =
    each_once pmatch_ncase filename flags (record { eq = eq; rc = false; created = [] }) d
