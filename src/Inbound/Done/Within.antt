-- ===== src/Inbound/Done/Within.antt =====
-- inbound.c: the names that received files get.
use mathlib.Core.Path.{subst}
use binkd.Inbound.Rename.Count.{
  IsDigit, StopsRun, Bumped, bump_run-Bumped, take_run-append, z_low, z_high, f_low, f_high,
}
use binkd.Base.{
  ℕ, ◌+◌, ◌≤◌, Bool, true, false, ◌||◌, [], ◌∷◌, ◌++◌, Option, none, some, Bytes, All, All-append,
  ltb, ◌==◌, ◌≡◌, ◌≢◌, ◌⊎◌, inl, inr, refl, if_ind, arith, length, sym, ap, ◌∙◌, ◌<◌,
}
use binkd.Ftn.Parse.{read_num}
use binkd.Ftn.Tokens.{IsDigits, print_dec-IsDigits}
use binkd.Text.{isdigit, isalpha, iscntrl}
use binkd.Inbound.Name.{strwipe}
use binkd.Inbound.Rename.{
  RenameStyle, rename_postfix, rename_extension, rename_body, Cursor, isalnum, is_end_of_body,
  is_point, bump_run, grow_run, bumped, next_digits, first_change, next_number, next_postfix,
  next_extension, next_body, next_inb_filename, max_inb_rename,
}

-- No path separator and no terminator.
abbrev pub NoSlash : Bytes → Type 0
NoSlash = All (λ c. ((c == b'/') ≡ false) × (0 < c))

pub NoSlash-append : (s t : Bytes) → NoSlash s → NoSlash t → NoSlash (s ++ t)
NoSlash-append = All-append (λ c. ((c == b'/') ≡ false) × (0 < c))

-- The pointer is at a run of digits.
abbrev pub DigitsAt : (top : ℕ) → b'a' ≤ top → top ≤ b'z' → Bytes → Type 0
DigitsAt top low high after =
    (c : ℕ) × (run rest : Bytes) × (after ≡ c ∷ (run ++ rest))
    × All (IsDigit top) (c ∷ run)
    × StopsRun top low high rest
    × NoSlash rest

-- The pointer is at digits that are counted up, or a byte of the name is in front of it.
abbrev pub Counts : RenameStyle → Bytes → Bytes → Type 0
Counts rename_postfix front after = Unit
Counts rename_extension front after =
    ((after ≡ []) × (front ≢ [])) ⊎ DigitsAt b'z' z_low z_high after
Counts rename_body front after =
    ((is_point after ≡ true) × (front ≢ [])) ⊎ DigitsAt b'f' f_low f_high after

-- The name behind `dir`, which is written backwards.
abbrev pub CursorIn : Bytes → RenameStyle → Cursor → Type 0
CursorIn dir style cur =
    (front : Bytes) × (cur.before ≡ front ++ dir)
    × NoSlash front
    × NoSlash cur.after
    × Counts style front cur.after

abbrev pub NextIn : Bytes → RenameStyle → Option Cursor → Type 0
NextIn dir style none = Unit
NextIn dir style (some cur) = CursorIn dir style cur

pub strwipe-NoSlash : (s : Bytes) → NoSlash (strwipe s)
unfolding strwipe iscntrl
strwipe-NoSlash [] = tt
strwipe-NoSlash (c ∷ s) = (
  if_ind (λ (d : ℕ). ((d == b'/') ≡ false) × (0 < d))
      (iscntrl c || c == 92 || c == b'/' || c == b':') (λ e. (refl, omega arith))
      (λ e. (ground (arith, e), ground (arith, e))),
  strwipe-NoSlash s,
)

print_dec-NoSlash : (s : Bytes) → IsDigits s → NoSlash s
unfolding IsDigits isdigit
print_dec-NoSlash [] h = tt
print_dec-NoSlash (c ∷ s) h = ((ground (arith, h.0), ground (arith, h.0)), print_dec-NoSlash s h.1)

-- In front of the name is a separator, or nothing.
abbrev pub EndsDir : Bytes → Type 0
EndsDir [] = Unit
EndsDir (c ∷ dir) = c ≡ b'/'

module _ (dir : Bytes) (ends : EndsDir dir) where
  module _ (top : ℕ) (low : b'a' ≤ top) (high : top ≤ b'z') where
    digits-NoSlash : (s : Bytes) → All (IsDigit top) s → NoSlash s
    digits-NoSlash [] h = tt
    digits-NoSlash (c ∷ s) h = ((ground (arith, h.0), ground (arith, h.0)), digits-NoSlash s h.1)

    -- The styles with digits that are counted up.
    abbrev DigitsIn : Option Cursor → Type 0
    DigitsIn none = Unit
    DigitsIn (some cur) =
        (front : Bytes) × (cur.before ≡ front ++ dir)
        × NoSlash front
        × NoSlash cur.after
        × DigitsAt top low high cur.after

    digits_in :
        (front rest : Bytes) (c : ℕ) (run : Bytes)
        → NoSlash front
        → All (IsDigit top) (c ∷ run)
        → StopsRun top low high rest
        → NoSlash rest
        → DigitsIn (some (record { before = front ++ dir; after = c ∷ (run ++ rest) }))
    digits_in front rest c run h digits stops k = (
      front,
      refl,
      h,
      NoSlash-append (c ∷ run) rest (digits-NoSlash (c ∷ run) digits) k,
      (c, run, rest, refl, digits, stops, k),
    )

    grow_dir : (d after : Bytes) → EndsDir d → grow_run d after ≡ none
    unfolding grow_run
    grow_dir [] after h = refl
    grow_dir (c ∷ d) after h = rw h refl

    grow_run-DigitsIn :
        (front ds rest : Bytes)
        → NoSlash front
        → All (IsDigit top) ds
        → StopsRun top low high rest
        → NoSlash rest
        → DigitsIn (grow_run (front ++ dir) (ds ++ rest))
    unfolding grow_run
    grow_run-DigitsIn [] ds rest h digits stops k = rw (grow_dir dir (ds ++ rest) ends) tt
    grow_run-DigitsIn (c ∷ front) ds rest h digits stops k =
        if_ind DigitsIn (is_end_of_body c) (λ e. tt)
          (λ e. digits_in front rest b'0' ds h.1 (inl (omega arith), digits) stops k)

    bumped-DigitsIn :
        (front rest cs : Bytes) (r : Bytes × Bool)
        → length cs ≢ 0
        → NoSlash front
        → StopsRun top low high rest
        → NoSlash rest
        → Bumped top low high cs r
        → DigitsIn (bumped (front ++ dir) rest r)
    bumped-DigitsIn front rest cs ([], false) n h stops k b = absurd (n (sym b.1))
    bumped-DigitsIn front rest cs (d ∷ ds, false) n h stops k b =
        digits_in front rest d ds h b.0 stops k
    bumped-DigitsIn front rest cs (ds, true) n h stops k b =
        grow_run-DigitsIn front ds rest h b.0 stops k

    next_digits-DigitsIn :
        (front after : Bytes)
        → NoSlash front
        → DigitsAt top low high after
        → DigitsIn (next_digits top (record { before = front ++ dir; after = after }))
    unfolding next_digits
    next_digits-DigitsIn front after h (c, run, rest, e, digits, stops, k) =
        let next : DigitsIn
            (next_digits top (record { before = front ++ dir; after = c ∷ (run ++ rest) })) =
          rw (take_run-append top low high run rest digits.1 stops) (
            bumped-DigitsIn front rest (c ∷ run) (bump_run top (c ∷ run)) (λ z. cc (z)) h stops k
              (bump_run-Bumped top low high (c ∷ run) digits)) in
        subst
          (λ (t : Bytes). DigitsIn (next_digits top (record { before = front ++ dir; after = t })))
          (sym e) next

    first_change-DigitsIn :
        (front after : Bytes)
        → front ≢ []
        → NoSlash front
        → StopsRun top low high after
        → NoSlash after
        → DigitsIn (first_change (record { before = front ++ dir; after = after }))
    unfolding first_change
    first_change-DigitsIn [] after n h stops k = absurd (n refl)
    first_change-DigitsIn (c ∷ front) after n h stops k =
        digits_in front after b'0' [] h.1 (inl (omega arith), tt) stops k

  DigitsIn-extension :
      (r : Option Cursor) → DigitsIn b'z' z_low z_high r → NextIn dir rename_extension r
  DigitsIn-extension none h = tt
  DigitsIn-extension (some cur) h = (h.0, h.1, h.2, h.3, inr h.4)

  DigitsIn-body : (r : Option Cursor) → DigitsIn b'f' f_low f_high r → NextIn dir rename_body r
  DigitsIn-body none h = tt
  DigitsIn-body (some cur) h = (h.0, h.1, h.2, h.3, inr h.4)

  next_postfix-NextIn :
      (front after : Bytes)
      → NoSlash front
      → NoSlash after
      → NextIn dir rename_postfix (next_postfix (record { before = front ++ dir; after = after }))
  unfolding next_postfix next_number
  next_postfix-NextIn front [] h k =
      (front, refl, h, ((refl, omega arith), ((refl, omega arith), tt)), tt)
  next_postfix-NextIn front (c ∷ s) h k =
      let num = (read_num 0 s).0 in
      if_ind (NextIn dir rename_postfix) (num == 0 || ltb max_inb_rename num) (λ e. tt)
        (λ e. (front, refl, h, (k.0, print_dec-NoSlash _ (print_dec-IsDigits 6 (num + 1))), tt))

  point_stops : (after : Bytes) → is_point after ≡ true → StopsRun b'f' f_low f_high after
  unfolding isalnum isdigit isalpha
  point_stops [] e = tt
  point_stops (c ∷ s) e = ground (arith, e)

  -- The next name to try is one in the directory again.
  pub next_inb_filename-NextIn :
      (style : RenameStyle) (front after : Bytes)
      → NoSlash front
      → NoSlash after
      → Counts style front after
      → NextIn dir style (next_inb_filename style (record { before = front ++ dir; after = after }))
  unfolding next_inb_filename next_extension next_body
  next_inb_filename-NextIn rename_postfix front after h k c = next_postfix-NextIn front after h k
  next_inb_filename-NextIn rename_extension front [] h k (inl (e, n)) =
      DigitsIn-extension _ (first_change-DigitsIn b'z' z_low z_high front [] n h tt k)
  next_inb_filename-NextIn rename_extension front (b ∷ s) h k (inl (e, n)) = absurd (cc (e))
  next_inb_filename-NextIn rename_extension front [] h k (inr c) = absurd (cc (c.3))
  next_inb_filename-NextIn rename_extension front (b ∷ s) h k (inr c) =
      DigitsIn-extension _ (next_digits-DigitsIn b'z' z_low z_high front (b ∷ s) h c)
  next_inb_filename-NextIn rename_body front after h k (inl (e, n)) = rw e (
      DigitsIn-body _
        (first_change-DigitsIn b'f' f_low f_high front after n h (point_stops after e) k))
  next_inb_filename-NextIn rename_body front after h k (inr c) =
      rw (no_point after c)
        (DigitsIn-body _ (next_digits-DigitsIn b'f' f_low f_high front after h c))
    where
      no_point : (t : Bytes) → DigitsAt b'f' f_low f_high t → is_point t ≡ false
      no_point t (d, run, rest, e, digits, stops, l) =
          let other : (d == b'.') ≡ false = ground (arith, digits.0) in ap is_point e ∙ other
