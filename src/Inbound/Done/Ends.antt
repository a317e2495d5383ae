-- ===== src/Inbound/Done/Ends.antt =====
-- inbound.c: the search for a free name ends.
use mathlib.Core.Path.{subst}
use binkd.Base.{
  ℕ, zero, suc, ◌+◌, ◌-◌, ◌^◌, ◌≤◌, ◌<◌, false, ◌||◌, [], ◌∷◌, ◌++◌, Option, none, some, Bytes, All,
  ltb, ◌==◌, ◌≡◌, ◌≢◌, ◌⊎◌, inl, inr, refl, ap, sym, Bool-cases, arith,
}
use binkd.Ftn.Parse.{read_num}
use binkd.Ftn.Tokens.{read_num-print_dec}
use binkd.Text.{isdigit, isalpha}
use binkd.Inbound.Done.{
  Renamed, moved, in_use, failed, next_try, RenameEnd, no_fuel, after_rename, rename_loop,
}
use binkd.Inbound.Rename.{
  RenameStyle, rename_postfix, rename_extension, rename_body, Cursor, isalnum, next_digits,
  first_change, next_number, next_postfix, next_extension, next_body, next_inb_filename,
  max_inb_rename,
}
use binkd.Inbound.Rename.Count.{
  IsDigit, StopsRun, remaining, Leaves, next_digits-Leaves, z_low, z_high, f_low, f_high,
}

-- The tries with a number behind the name.
abbrev pub postfix_tries : ℕ
postfix_tries = 10003

-- So many tries are enough, this one included.
abbrev PostfixLeft : Bytes → ℕ → Type 0
PostfixLeft [] n = postfix_tries ≤ n
PostfixLeft (c ∷ s) n = (1 ≤ n) × (((read_num 0 s).0 ≡ 0) ⊎ (10002 ≤ n + (read_num 0 s).0))

-- What follows a try of a number.
abbrev PostfixNext : ℕ → Option Cursor → Type 0
PostfixNext n none = 1 ≤ n
PostfixNext n (some cur) = PostfixLeft cur.after (n - 1)

next_number-PostfixNext :
    (cur : Cursor) (c n num : ℕ)
    → 1 ≤ n
    → (num ≡ 0) ⊎ (10002 ≤ n + num)
    → PostfixNext n (next_number cur c num)
unfolding next_number
next_number-PostfixNext cur c n num h k = elim (Bool-cases (num == 0 || ltb max_inb_rename num)) [
  | inl e ↦ rw e h
  | inr e ↦
      let small : num + 1 < 10 ^ 6 = ground (arith, e) in
      let read = ap (λ (r : ℕ × Bytes). r.0) (read_num-print_dec 6 (num + 1) small) in
      rw e (ground (arith, e), inr (rw read (ground (arith, e))))
]

abbrev cursor : Bytes → Bytes → Cursor
cursor before after = record { before = before; after = after }

next_postfix-PostfixNext :
    (before after : Bytes) (n : ℕ)
    → PostfixLeft after n
    → PostfixNext n (next_postfix (cursor before after))
unfolding next_postfix read_num
next_postfix-PostfixNext before [] n h = (omega (arith, h), inr (omega (arith, h)))
next_postfix-PostfixNext before (c ∷ s) n h =
    next_number-PostfixNext (cursor before (c ∷ s)) c n (read_num 0 s).0 h.0 h.1

-- Names with digits in front of the rest, and `more` tries behind them.
module _ (top : ℕ) (low : b'a' ≤ top) (high : top ≤ b'z') (rest : Bytes) (more : ℕ) where
  abbrev DigitsLeft : Bytes → Bytes → ℕ → Type 0
  DigitsLeft before after n =
      (c : ℕ) × (run : Bytes) × (after ≡ c ∷ (run ++ rest))
      × All (IsDigit top) (c ∷ run)
      × (suc (remaining top low high before (c ∷ run)) + more ≤ n)

  abbrev DigitsNext : ℕ → Option Cursor → Type 0
  DigitsNext n none = more < n
  DigitsNext n (some cur) = DigitsLeft cur.before cur.after (n - 1)

  Leaves-DigitsNext :
      (n m : ℕ) (r : Option Cursor)
      → Leaves top low high m rest r
      → suc m + more ≤ n
      → DigitsNext n r
  Leaves-DigitsNext n m none h k = omega (arith, h, k)
  Leaves-DigitsNext n m (some cur) h k = (h.0, h.1, h.2, h.3, omega (arith, h.4, k))

  next_digits-DigitsNext :
      (before after : Bytes) (n : ℕ)
      → StopsRun top low high rest
      → DigitsLeft before after n
      → DigitsNext n (next_digits top (cursor before after))
  next_digits-DigitsNext before after n stop h =
      let (c, run, e, digits, bound) = h in
      let leaves = next_digits-Leaves top low high before run rest c digits stop in
      Leaves-DigitsNext n (remaining top low high before (c ∷ run))
        (next_digits top (cursor before after))
        (subst
          (λ (t : Bytes).
            Leaves top low high (remaining top low high before (c ∷ run)) rest
              (next_digits top (cursor before t)))
          (sym e) leaves)
        bound

  -- Before the first digit.
  abbrev pub first_tries : Bytes → ℕ
  first_tries [] = 1
  first_tries (c ∷ before) = suc (suc (remaining top low high before (b'0' ∷ [])))

  first_change-DigitsNext :
      (before : Bytes) (n : ℕ)
      → first_tries before + more ≤ n
      → DigitsNext n (first_change (cursor before rest))
  unfolding first_change
  first_change-DigitsNext [] n h = omega (arith, h)
  first_change-DigitsNext (c ∷ before) n h =
      (b'0', [], refl, (inl (omega arith), tt), omega (arith, h))

-- So many tries are enough for a style and a name.
abbrev pub TriesLeft : RenameStyle → Bytes → Bytes → ℕ → Type 0
TriesLeft rename_postfix before after n = PostfixLeft after n
TriesLeft rename_extension before [] n =
    first_tries b'z' z_low z_high [] postfix_tries before + postfix_tries ≤ n
TriesLeft rename_extension before (c ∷ s) n =
    DigitsLeft b'z' z_low z_high [] postfix_tries before (c ∷ s) n
TriesLeft rename_body before after n =
    ((s : Bytes) × (after ≡ b'.' ∷ s) × (first_tries b'f' f_low f_high after 0 before ≤ n))
    ⊎ ((s : Bytes) × DigitsLeft b'f' f_low f_high (b'.' ∷ s) 0 before after n)

-- What follows a try of any style.
abbrev TriesNext : ℕ → Option (RenameStyle × Cursor) → Type 0
TriesNext n none = 1 ≤ n
TriesNext n (some (style, cur)) = TriesLeft style cur.before cur.after (n - 1)

postfix_enough : (after : Bytes) (n : ℕ) → postfix_tries ≤ n → PostfixLeft after n
postfix_enough [] n h = h
postfix_enough (c ∷ s) n h = (omega (arith, h), inr (omega (arith, h)))

extension_digits :
    (before after : Bytes) (n : ℕ)
    → DigitsLeft b'z' z_low z_high [] postfix_tries before after n
    → TriesLeft rename_extension before after n
extension_digits before [] n h = absurd (cc (h.2))
extension_digits before (c ∷ s) n h = h

extension_next :
    (restart : Cursor) (n : ℕ) (r : Option Cursor)
    → DigitsNext b'z' z_low z_high [] postfix_tries n r
    → TriesNext n (next_try restart rename_extension r)
unfolding next_try
extension_next restart n none h = postfix_enough restart.after (n - 1) (omega (arith, h))
extension_next restart n (some cur) h = extension_digits cur.before cur.after (n - 1) h

postfix_next :
    (restart : Cursor) (n : ℕ) (r : Option Cursor)
    → PostfixNext n r
    → TriesNext n (next_try restart rename_postfix r)
unfolding next_try
postfix_next restart n none h = h
postfix_next restart n (some cur) h = h

body_next :
    (restart : Cursor) (s : Bytes) (n : ℕ) (r : Option Cursor)
    → DigitsNext b'f' f_low f_high (b'.' ∷ s) 0 n r
    → TriesNext n (next_try restart rename_body r)
unfolding next_try
body_next restart s n none h = omega (arith, h)
body_next restart s n (some cur) h = inr (s, h)

point_stops : isalnum b'.' ≡ false
unfolding isalnum isdigit isalpha
point_stops = refl

digit_no_point : (c : ℕ) → IsDigit b'f' c → (c == b'.') ≡ false
digit_no_point c h = ground (arith, h)

body_step :
    (restart : Cursor) (before after : Bytes) (n : ℕ)
    → TriesLeft rename_body before after n
    → TriesNext n (next_try restart rename_body (next_body (cursor before after)))
unfolding next_body
body_step restart before after n (inl (s, e, h)) =
    subst
      (λ (t : Bytes).
        first_tries b'f' f_low f_high t 0 before ≤ n
        → TriesNext n (next_try restart rename_body (next_body (cursor before t))))
      (sym e)
      (λ k.
        body_next restart s n (first_change (cursor before (b'.' ∷ s)))
          (first_change-DigitsNext b'f' f_low f_high (b'.' ∷ s) 0 before n (omega (arith, k))))
      h
body_step restart before after n (inr (s, (c, run, e, digits, bound))) =
    subst
      (λ (t : Bytes).
        DigitsLeft b'f' f_low f_high (b'.' ∷ s) 0 before t n
        → TriesNext n (next_try restart rename_body (next_body (cursor before t))))
      (sym e)
      (λ k. rw (digit_no_point c digits.0) (
        body_next restart s n _ (
          next_digits-DigitsNext b'f' f_low f_high (b'.' ∷ s) 0 before (c ∷ (run ++ b'.' ∷ s)) n
            point_stops k)))
      (c, run, e, digits, bound)

-- A try fewer is enough behind a name that is in use.
next_step :
    (restart : Cursor) (style : RenameStyle) (before after : Bytes) (n : ℕ)
    → TriesLeft style before after n
    → TriesNext n (next_try restart style (next_inb_filename style (cursor before after)))
unfolding next_inb_filename next_extension
next_step restart rename_postfix before after n h =
    postfix_next restart n (next_postfix (cursor before after))
      (next_postfix-PostfixNext before after n h)
next_step restart rename_extension before [] n h =
    extension_next restart n (first_change (cursor before []))
      (first_change-DigitsNext b'z' z_low z_high [] postfix_tries before n h)
next_step restart rename_extension before (c ∷ s) n h =
    extension_next restart n (next_digits b'z' (cursor before (c ∷ s)))
      (next_digits-DigitsNext b'z' z_low z_high [] postfix_tries before (c ∷ s) n tt h)
next_step restart rename_body before after n h = body_step restart before after n h

TriesLeft-positive :
    (style : RenameStyle) (before after : Bytes) (n : ℕ) → TriesLeft style before after n → 1 ≤ n
TriesLeft-positive rename_postfix before [] n h = omega (arith, h)
TriesLeft-positive rename_postfix before (c ∷ s) n h = h.0
TriesLeft-positive rename_extension before [] n h = omega (arith, h)
TriesLeft-positive rename_extension before (c ∷ s) n h = omega (arith, h.4)
TriesLeft-positive rename_body before after n (inl (s, e, h)) = first_positive before h
  where
    first_positive : (b : Bytes) → first_tries b'f' f_low f_high after 0 b ≤ n → 1 ≤ n
    first_positive [] k = k
    first_positive (c ∷ b) k = omega (arith, k)
TriesLeft-positive rename_body before after n (inr (s, h)) = omega (arith, h.4)

after_ends :
    (more : RenameStyle → Cursor → RenameEnd) (n : ℕ) (text : Bytes) (r : Renamed)
    (next : Option (RenameStyle × Cursor))
    → ((style : RenameStyle) (cur : Cursor)
        → TriesLeft style cur.before cur.after (n - 1)
        → more style cur ≢ no_fuel)
    → TriesNext n next
    → after_rename more text r next ≢ no_fuel
unfolding after_rename
after_ends more n text moved next ih h = λ e. cc (e)
after_ends more n text failed next ih h = λ e. cc (e)
after_ends more n text in_use none ih h = λ e. cc (e)
after_ends more n text in_use (some (style, cur)) ih h = ih style cur h

-- The search for a free name ends within the tries that are left, whichever names are in use: it gives
-- a name, or gives up.
pub rename_loop-TriesLeft :
    (rename : Bytes → Renamed) (restart : Cursor) (fuel n : ℕ) (style : RenameStyle)
    (before after : Bytes)
    → n ≤ fuel
    → TriesLeft style before after n
    → rename_loop fuel rename restart style (record { before = before; after = after }) ≢ no_fuel
unfolding rename_loop
rename_loop-TriesLeft rename restart zero n style before after f h =
    absurd (omega (arith, f, TriesLeft-positive style before after n h))
rename_loop-TriesLeft rename restart (suc fuel) n style before after f h =
    after_ends (λ style' cur'. rename_loop fuel rename restart style' cur') n _ _ _
      (λ style' cur' k.
        rename_loop-TriesLeft rename restart fuel (n - 1) style' cur'.before cur'.after
          (omega (arith, f)) k)
      (next_step restart style before after n h)
