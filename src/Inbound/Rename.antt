-- ===== src/Inbound/Rename.antt =====
-- inbound.c: next_inb_filename, the next name to try where a file of the name is there already.
pub mod Count
use binkd.Base.{
  ℕ, zero, suc, ◌+◌, Bool, true, false, ◌&&◌, ◌||◌, List, [], ◌∷◌, ◌++◌, Option, none, some, Bytes,
  ltb, leb, ◌==◌, if◌then◌else◌, ◌%◌, ◌^◌,
}
use binkd.Ftn.Parse.{read_num}
use binkd.Ftn.Print.{print_dec}
use binkd.Text.{isdigit, isalpha}

pub data RenameStyle : Type 0 where
  rename_postfix rename_extension rename_body : RenameStyle

-- The text of a name in front of the pointer `*s`, its last byte first, and the text from it on.
pub record Cursor : Type 0 where
  pub before : Bytes
  pub after : Bytes

abbrev pub max_inb_rename : ℕ
max_inb_rename = 10000

unfoldable pub isalnum : ℕ → Bool
unfolding isdigit isalpha
isalnum c = isdigit c || isalpha c

-- PATH_SEPARATOR is "/".
abbrev pub is_end_of_body : ℕ → Bool
is_end_of_body c = c == b'/' || c == b'.'

-- `for (; isalnum (*p); p++)`, with what is behind.
unfoldable pub take_run : Bytes → Bytes × Bytes
unfolding isalnum
take_run [] = ([], [])
take_run (c ∷ s) = let next = take_run s in if isalnum c then (c ∷ next.0, next.1) else ([], c ∷ s)

-- A byte that is counted up, where `top` is the last digit, with its carry; `++*p` wraps.
unfoldable pub bump_digit : ℕ → ℕ → ℕ × Bool
bump_digit top c =
    if c == b'9' then (b'a', false) else if c == top then (b'0', true) else ((c + 1) % 2 ^ 8, false)

abbrev pub carry_in : ℕ × Bool → Bytes → Bytes × Bool
carry_in (d, carry) ds = (d ∷ ds, carry)

abbrev pub add_digit : ℕ → ℕ → Bytes × Bool → Bytes × Bool
add_digit top c (ds, true) = carry_in (bump_digit top c) ds
add_digit top c (ds, false) = (c ∷ ds, false)

-- The digits are counted up from the last one on.
unfoldable pub bump_run : ℕ → Bytes → Bytes × Bool
unfolding bump_digit
bump_run top [] = ([], true)
bump_run top (c ∷ cs) = add_digit top c (bump_run top cs)

-- One byte more of the name becomes a digit, but for a point or a separator.
unfoldable pub grow_run : Bytes → Bytes → Option Cursor
grow_run [] after = none
grow_run (c ∷ before) after =
    if is_end_of_body c then none else some (record { before = before; after = b'0' ∷ after })

abbrev pub bumped : Bytes → Bytes → Bytes × Bool → Option Cursor
bumped before rest (ds, false) = some (record { before = before; after = ds ++ rest })
bumped before rest (ds, true) = grow_run before (ds ++ rest)

unfoldable pub next_digits : ℕ → Cursor → Option Cursor
unfolding take_run bump_run grow_run
next_digits top cur = elim cur.after [
  | [] ↦ none
  | c ∷ s ↦ bumped cur.before (take_run s).1 (bump_run top (c ∷ (take_run s).0))
]

-- `*--*s = '0'`
unfoldable pub first_change : Cursor → Option Cursor
first_change cur = elim cur.before [
  | [] ↦ none
  | c ∷ before ↦ some (record { before = before; after = b'0' ∷ cur.after })
]

abbrev pub is_point : Bytes → Bool
is_point [] = false
is_point (c ∷ s) = c == b'.'

-- `sprintf (*s + 1, "%i", num + 1)` behind the test of `num`
unfoldable pub next_number : Cursor → ℕ → ℕ → Option Cursor
unfolding print_dec
next_number cur c num =
    if num == 0 || ltb max_inb_rename num
    then none
    else some (record cur { after = c ∷ print_dec 6 (num + 1) })

unfoldable pub next_postfix : Cursor → Option Cursor
unfolding next_number read_num
next_postfix cur = elim cur.after [
  | [] ↦ some (record cur { after = b'.' ∷ b'1' ∷ [] })
  | c ∷ s ↦ next_number cur c (read_num 0 s).0
]

unfoldable pub next_extension : Cursor → Option Cursor
unfolding first_change next_digits
next_extension cur = elim cur.after [ [] ↦ first_change cur | c ∷ s ↦ next_digits b'z' cur ]

unfoldable pub next_body : Cursor → Option Cursor
unfolding first_change next_digits
next_body cur = if is_point cur.after then first_change cur else next_digits b'f' cur

unfoldable pub next_inb_filename : RenameStyle → Cursor → Option Cursor
unfolding next_postfix next_extension next_body
next_inb_filename rename_postfix cur = next_postfix cur
next_inb_filename rename_extension cur = next_extension cur
next_inb_filename rename_body cur = next_body cur
