-- ===== src/Getw.antt =====
-- getw.c: the n-th word of a text. The flag GWX_SUBST, which only the configuration uses, is off.
pub mod Words
use binkd.Base.{
  ℕ, zero, suc, ◌+◌, ◌-◌, ◌*◌, ◌%◌, Bool, true, false, not, ◌&&◌, ◌||◌, List, [], ◌∷◌, ◌++◌, Option,
  none, some, Bytes, codes, ◌==◌, if◌then◌else◌,
}
use binkd.Text.{isdigit, isxdigit, tolower}

pub record GetwFlags : Type 0 where
  pub hash : Bool  -- GWX_HASH
  pub noesc : Bool  -- GWX_NOESC

-- `strchr (set, c)` of a byte that is not the terminator.
abbrev pub is_in : Bytes → ℕ → Bool
is_in [] c = false
is_in (d ∷ set) c = c == d || is_in set c

-- DEF_FLDSEP and DEF_FLDSKIP
abbrev pub def_fldsep : Bytes
def_fldsep = b' ' ∷ 9 ∷ 10 ∷ 13 ∷ []

-- Where the scan stands: between bytes, behind a backslash, or in a number of an escape.
pub data GetwMode : Type 0 where
  plain escaped : GetwMode
  number : ℕ → ℕ → GetwMode

-- What a byte leads to: bytes for `dest` and the mode behind it, with `quoted`; or the end of the
-- word in front of the byte.
pub data GetwStep : Type 0 where
  goes : Bytes → GetwMode → Bool → GetwStep
  stops : Bytes → GetwStep

unfoldable pub escape_value : ℕ → ℕ
escape_value c =
    if c == b'a'
    then 7
    else if c == b'b'
    then 8
    else if c == b'f'
    then 12
    else if c == b'n'
    then 10
    else if c == b'r'
    then 13
    else if c == b't'
    then 9
    else if c == b'E'
    then 27
    else c

unfoldable pub plain_step : GetwFlags → Bytes → Bool → ℕ → GetwStep
plain_step flags fldsep quoted c =
    if not flags.noesc && c == 92
    then goes [] escaped quoted
    else if c == 10 || c == 13
    then stops []
    else if c == b'"'
    then goes [] plain (not quoted)
    else if is_in fldsep c && not quoted
    then stops []
    else goes (c ∷ []) plain quoted

unfoldable pub escaped_step : Bool → ℕ → GetwStep
unfolding escape_value isdigit
escaped_step quoted c =
    if c == b'x' || c == b'X'
    then goes [] (number 16 0) quoted
    else if isdigit c
    then goes [] (number 8 (c - b'0')) quoted
    else goes (escape_value c ∷ []) plain quoted

abbrev pub after_byte : ℕ → GetwStep → GetwStep
after_byte b (goes out mode quoted) = goes (b ∷ out) mode quoted
after_byte b (stops out) = stops (b ∷ out)

-- `dest[i] = (char) ch` behind the last digit.
unfoldable pub number_step : GetwFlags → Bytes → ℕ → ℕ → Bool → ℕ → GetwStep
unfolding plain_step isdigit isxdigit tolower
number_step flags fldsep base ch quoted c =
    if isdigit c
    then goes [] (number base (ch * base + (c - b'0'))) quoted
    else if isxdigit c && base == 16
    then goes [] (number base (ch * base + (tolower c - b'a') + 10)) quoted
    else after_byte (ch % 256) (plain_step flags fldsep quoted c)

unfoldable pub getw_step : GetwFlags → Bytes → GetwMode → Bool → ℕ → GetwStep
unfolding plain_step escaped_step number_step
getw_step flags fldsep plain quoted c = plain_step flags fldsep quoted c
getw_step flags fldsep escaped quoted c = escaped_step quoted c
getw_step flags fldsep (number base ch) quoted c = number_step flags fldsep base ch quoted c

-- The word, and the text behind it; or the source was read behind its terminator.
pub data Scanned : Type 0 where
  scanned : Bytes → Bytes → Scanned
  overrun : Scanned

abbrev pub prepend : Bytes → Scanned → Scanned
prepend out (scanned dest src) = scanned (out ++ dest) src
prepend out overrun = overrun

-- The terminator.
unfoldable pub end_of_text : GetwMode → Scanned
end_of_text plain = scanned [] []
end_of_text escaped = overrun
end_of_text (number base ch) = scanned (ch % 256 ∷ []) []

abbrev pub after_step : (GetwMode → Bool → Scanned) → Bytes → GetwStep → Scanned
after_step next src (goes out mode quoted) = prepend out (next mode quoted)
after_step next src (stops out) = scanned out src

unfoldable pub scan_word : GetwFlags → Bytes → GetwMode → Bool → Bytes → Scanned
unfolding end_of_text getw_step
scan_word flags fldsep mode quoted [] = end_of_text mode
scan_word flags fldsep mode quoted (c ∷ src) =
    after_step (λ m q. scan_word flags fldsep m q src) (c ∷ src)
      (getw_step flags fldsep mode quoted c)

unfoldable pub skip_in : Bytes → Bytes → Bytes
skip_in fldskip [] = []
skip_in fldskip (c ∷ src) =
    let rest = skip_in fldskip src in if is_in fldskip c then rest else c ∷ src

abbrev pub starts_comment : GetwFlags → Bytes → Bool
starts_comment flags [] = true
starts_comment flags (c ∷ src) = flags.hash && c == b'#'

-- What getwordx2 returns.
pub data Getword : Type 0 where
  no_word : Getword
  word : Bytes → Getword
  past_end : Getword

-- `if (*src && strchr (fldsep, *src)) ++src`
unfoldable pub skip_one : Bytes → Bytes → Bytes
skip_one fldsep [] = []
skip_one fldsep (c ∷ src) = if is_in fldsep c then src else c ∷ src

-- One round of the loop: the word, with the text behind it.
pub data OneWord : Type 0 where
  no_more ran_over : OneWord
  one : Bytes → Bytes → OneWord

abbrev pub one_of : Scanned → OneWord
one_of (scanned dest src) = one dest src
one_of overrun = ran_over

unfoldable pub one_word : GetwFlags → Bytes → Bytes → Bytes → OneWord
unfolding scan_word skip_in
one_word flags fldsep fldskip src =
    let from = skip_in fldskip src in
    if starts_comment flags from then no_more else one_of (scan_word flags fldsep plain false from)

abbrev pub last_word : OneWord → Getword
last_word no_more = no_word
last_word ran_over = past_end
last_word (one dest src) = word dest

abbrev pub later_word : (Bytes → Getword) → OneWord → Getword
later_word next no_more = no_word
later_word next ran_over = past_end
later_word next (one dest src) = next src

-- The word at a place, from 0 on.
unfoldable pub getwordx2 : GetwFlags → Bytes → Bytes → ℕ → Bytes → Getword
unfolding one_word skip_one
getwordx2 flags fldsep fldskip zero src = last_word (one_word flags fldsep fldskip src)
getwordx2 flags fldsep fldskip (suc n) src =
    later_word (λ rest. getwordx2 flags fldsep fldskip n (skip_one fldsep rest))
      (one_word flags fldsep fldskip src)

unfoldable pub getwordx : GetwFlags → ℕ → Bytes → Getword
unfolding getwordx2
getwordx flags n src = getwordx2 flags def_fldsep def_fldsep n src
