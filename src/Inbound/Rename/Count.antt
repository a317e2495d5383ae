-- ===== src/Inbound/Rename/Count.antt =====
-- inbound.c: the names that next_inb_filename gives are counted, so that their number is known.
use binkd.Base.{
  ℕ, suc, ◌+◌, ◌*◌, ◌-◌, ◌^◌, ◌≤◌, ◌<◌, Bool, true, false, [], ◌∷◌, ◌++◌, Option, none, some, Bytes,
  All, leb, ◌==◌, if◌then◌else◌, ◌≡◌, refl, ap, sym, if_ind, length, ◌⊎◌, ◌≢◌, Bool-cases, inl, inr,
  arith,
}
use mathlib.Core.Path.{subst}
use native.Mathlib.Numerals.{unary_clauses}
use binkd.Text.{isdigit, isalpha}
use binkd.Inbound.Rename.{
  Cursor, isalnum, is_end_of_body, take_run, bump_digit, carry_in, add_digit, bump_run, grow_run,
  bumped, next_digits,
}

abbrev pub z_low : b'a' ≤ b'z'
z_low = omega arith

abbrev pub z_high : b'z' ≤ b'z'
z_high = omega arith

abbrev pub f_low : b'a' ≤ b'f'
f_low = omega arith

abbrev pub f_high : b'f' ≤ b'z'
f_high = omega arith

-- "0" to "9", then "a" to the top.
abbrev pub IsDigit : ℕ → ℕ → Type 0
IsDigit top c = ((b'0' ≤ c) × (c ≤ b'9')) ⊎ ((b'a' ≤ c) × (c ≤ top))

unfoldable pub digit_value : ℕ → ℕ
digit_value c = if leb c b'9' then c - b'0' else c - 87

-- The number of the digits, the first one the highest.
unfoldable pub run_value : ℕ → Bytes → ℕ
unfolding digit_value
run_value base [] = 0
run_value base (c ∷ cs) = digit_value c * base ^ length cs + run_value base cs

digit_zero : digit_value b'0' ≡ 0
unfolding digit_value
digit_zero = refl

module _ (top : ℕ) (low : b'a' ≤ top) (high : top ≤ b'z') where
  abbrev base : ℕ
  base = top - 86

  -- What a digit becomes.
  abbrev BumpedDigit : ℕ → ℕ × Bool → Type 0
  BumpedDigit c (d, false) = IsDigit top d × (digit_value d ≡ digit_value c + 1)
  BumpedDigit c (d, true) = (d ≡ b'0') × (digit_value c + 1 ≡ base)

  bump_digit-BumpedDigit : (c : ℕ) → IsDigit top c → BumpedDigit c (bump_digit top c)
  unfolding bump_digit digit_value
  bump_digit-BumpedDigit c h =
      if_ind (BumpedDigit c) (c == b'9') (λ e. ground (arith, e))
        (λ e.
          if_ind (BumpedDigit c) (c == top) (λ k. ground (arith, e, k)) (λ k. ground (arith, e, k)))

  abbrev pub Bumped : Bytes → Bytes × Bool → Type 0
  Bumped cs (ds, false) =
      All (IsDigit top) ds × (length ds ≡ length cs) × (run_value base ds ≡ run_value base cs + 1)
  Bumped cs (ds, true) =
      All (IsDigit top) ds
      × (length ds ≡ length cs)
      × (run_value base ds ≡ 0)
      × (run_value base cs + 1 ≡ base ^ length cs)

  carry_in-Bumped :
      (c : ℕ) (cs ds : Bytes) (r : ℕ × Bool)
      → BumpedDigit c r
      → Bumped cs (ds, true)
      → Bumped (c ∷ cs) (carry_in r ds)
  unfolding run_value
  carry_in-Bumped c cs ds (d, false) h b =
      let w = base ^ length cs in
      let e : digit_value d * w ≡ (digit_value c + 1) * w = ap (λ (n : ℕ). n * w) h.1 in
      ((h.0, b.0), ap suc b.1, rw (b.1, b.2) (omega (arith, e, b.3)))
  carry_in-Bumped c cs ds (d, true) h b =
      let w = base ^ length cs in
      let e : (digit_value c + 1) * w ≡ base * w = ap (λ (n : ℕ). n * w) h.1 in
      let zero_digit : digit_value b'0' ≡ 0 = digit_zero in
      (
        (subst (IsDigit top) (sym h.0) (inl (omega arith)), b.0),
        ap suc b.1,
        rw (h.0, b.2, zero_digit) (omega arith),
        simp unary_clauses (omega (arith, e, b.3)),
      )

  add_digit-Bumped :
      (c : ℕ) (cs : Bytes) (r : Bytes × Bool)
      → IsDigit top c
      → Bumped cs r
      → Bumped (c ∷ cs) (add_digit top c r)
  unfolding run_value
  add_digit-Bumped c cs (ds, true) h b =
      carry_in-Bumped c cs ds (bump_digit top c) (bump_digit-BumpedDigit c h) b
  add_digit-Bumped c cs (ds, false) h b = ((h, b.0), ap suc b.1, rw (b.1) (omega (arith, b.2)))

  pub bump_run-Bumped : (cs : Bytes) → All (IsDigit top) cs → Bumped cs (bump_run top cs)
  unfolding bump_run run_value
  bump_run-Bumped [] h = (tt, refl, refl, simp unary_clauses refl)
  bump_run-Bumped (c ∷ cs) h = add_digit-Bumped c cs (bump_run top cs) h.0 (bump_run-Bumped cs h.1)

  digit_value-lt : (c : ℕ) → IsDigit top c → digit_value c < base
  unfolding digit_value
  digit_value-lt c h = ground arith

  -- The run is a number below the next power.
  run_value-lt : (cs : Bytes) → All (IsDigit top) cs → run_value base cs < base ^ length cs
  unfolding run_value
  run_value-lt [] h = simp unary_clauses (omega arith)
  run_value-lt (c ∷ cs) h =
      let w = base ^ length cs in
      let k = base - (digit_value c + 1) in
      let sum : base ≡ digit_value c + 1 + k = omega (arith, digit_value-lt c h.0) in
      let e : base * w ≡ (digit_value c + 1 + k) * w = ap (λ (n : ℕ). n * w) sum in
      simp unary_clauses (omega (arith, e, run_value-lt cs h.1))

  -- The names with more digits than `n`, as far as the name has bytes for them.
  unfoldable pub longer : Bytes → ℕ → ℕ
  longer [] n = 0
  longer (c ∷ before) n =
      let rest = longer before (suc n) in if is_end_of_body c then 0 else base ^ suc n + rest

  -- How many names follow.
  unfoldable pub remaining : Bytes → Bytes → ℕ
  unfolding longer run_value
  remaining before run = (base ^ length run - suc (run_value base run)) + longer before (length run)

  -- The text behind the run does not go on with it.
  abbrev pub StopsRun : Bytes → Type 0
  StopsRun [] = Unit
  StopsRun (c ∷ s) = isalnum c ≡ false

  digit-isalnum : (c : ℕ) → IsDigit top c → isalnum c ≡ true
  unfolding isalnum isdigit isalpha
  digit-isalnum c h = ground arith

  pub take_run-append :
      (run rest : Bytes)
      → All (IsDigit top) run
      → StopsRun rest
      → take_run (run ++ rest) ≡ (run, rest)
  unfolding take_run
  take_run-append [] [] h k = refl
  take_run-append [] (c ∷ rest) h k = rw k refl
  take_run-append (c ∷ run) rest h k = rw (digit-isalnum c h.0, take_run-append run rest h.1 k) refl

  -- A run of digits in front of the rest, and how many names follow.
  abbrev pub Leaves : ℕ → Bytes → Option Cursor → Type 0
  Leaves n rest none = n ≡ 0
  Leaves n rest (some cur) =
      (c : ℕ) × (run : Bytes) × (cur.after ≡ c ∷ (run ++ rest))
      × All (IsDigit top) (c ∷ run)
      × (n ≡ suc (remaining cur.before (c ∷ run)))

  counted_on :
      (before run ds : Bytes)
      → All (IsDigit top) ds
      → length ds ≡ length run
      → run_value base ds ≡ run_value base run + 1
      → remaining before run ≡ suc (remaining before ds)
  unfolding remaining
  counted_on before run ds h e k =
      let below : run_value base run + 1 < base ^ length run =
        subst (λ (n : ℕ). run_value base run + 1 < base ^ n) e
          (subst (λ (n : ℕ). n < base ^ length ds) k (run_value-lt ds h)) in
      rw (e, k) (omega (arith, below))

  power_positive : (n : ℕ) → 0 < base ^ n → 0 < base ^ suc n
  power_positive n h =
      let k = base - 1 in
      let sum : base ≡ suc k = omega (arith, low) in
      let e : base * base ^ n ≡ suc k * base ^ n = ap (λ (m : ℕ). m * base ^ n) sum in
      simp unary_clauses (omega (arith, e, h))

  grown :
      (before run ds : Bytes)
      → length ds ≡ length run
      → run_value base ds ≡ 0
      → run_value base run + 1 ≡ base ^ length run
      → (base ^ length run - suc (run_value base run))
          + (base ^ suc (length run) + longer before (suc (length run)))
        ≡ suc (remaining before (b'0' ∷ ds))
  unfolding remaining run_value
  grown before run ds e z full =
      let positive : 0 < base ^ length run = omega (arith, full) in
      rw (e, z, digit_zero) (omega (arith, full, power_positive (length run) positive))

  grow_run-Leaves :
      (before run ds rest : Bytes)
      → All (IsDigit top) ds
      → length ds ≡ length run
      → run_value base ds ≡ 0
      → run_value base run + 1 ≡ base ^ length run
      → Leaves (remaining before run) rest (grow_run before (ds ++ rest))
  unfolding grow_run remaining longer
  grow_run-Leaves [] run ds rest h e z full = omega (arith, full)
  grow_run-Leaves (c ∷ before) run ds rest h e z full = elim (Bool-cases (is_end_of_body c)) [
    | inl k ↦ rw (k) (omega (arith, full))
    | inr k ↦ rw (k) (b'0', ds, refl, (inl (omega arith), h), grown before run ds e z full)
  ]

  bumped-Leaves :
      (before run rest : Bytes) (r : Bytes × Bool)
      → length run ≢ 0
      → Bumped run r
      → Leaves (remaining before run) rest (bumped before rest r)
  bumped-Leaves before run rest ([], false) n b = absurd (n (sym b.1))
  bumped-Leaves before run rest (d ∷ ds, false) n b =
      (d, ds, refl, b.0, counted_on before run (d ∷ ds) b.0 b.1 b.2)
  bumped-Leaves before run rest (ds, true) n b = grow_run-Leaves before run ds rest b.0 b.1 b.2 b.3

  -- The names with one digit more or the same number of digits are all tried: a name follows exactly
  -- where one is left, and then one less is left behind it.
  pub next_digits-Leaves :
      (before run rest : Bytes) (c : ℕ)
      → All (IsDigit top) (c ∷ run)
      → StopsRun rest
      → Leaves
          (remaining before (c ∷ run))
          rest
          (next_digits top (record { before = before; after = c ∷ (run ++ rest) }))
  unfolding next_digits
  next_digits-Leaves before run rest c h k = rw (take_run-append run rest h.1 k) (
      bumped-Leaves before (c ∷ run) rest (bump_run top (c ∷ run)) (λ e. cc (e))
        (bump_run-Bumped (c ∷ run) h))
