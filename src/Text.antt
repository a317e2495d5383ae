-- ===== src/Text.antt =====
-- tools.c: quoting of file names, and the splitting of a command's arguments. A C string is the
-- list of its bytes before the terminator.
pub mod Quote
pub mod Args
use binkd.Base.{
  ℕ, zero, suc, ◌+◌, ◌-◌, ◌*◌, ◌/◌, ◌%◌, Bool, true, false, ◌&&◌, ◌||◌, not, Option, none, some,
  List, [], ◌∷◌, ◌++◌, Bytes, bytes_eq, map, ltb, leb, ◌==◌, if◌then◌else◌,
}

abbrev within : ℕ → ℕ → ℕ → Bool
within lo hi c = leb lo c && leb c hi

-- The character classes of the C locale.
unfoldable pub isspace : ℕ → Bool
isspace c = within 9 13 c || c == b' '

unfoldable pub iscntrl : ℕ → Bool
iscntrl c = ltb c 32 || c == 127

unfoldable pub isxdigit : ℕ → Bool
isxdigit c = within b'0' b'9' c || within b'a' b'f' c || within b'A' b'F' c

unfoldable pub isdigit : ℕ → Bool
isdigit c = within b'0' b'9' c

unfoldable pub isalpha : ℕ → Bool
isalpha c = within b'a' b'z' c || within b'A' b'Z' c

unfoldable pub tolower : ℕ → ℕ
tolower c = if leb b'A' c && leb c b'Z' then c + 32 else c

-- `!STRICMP (a, b)`
unfoldable pub same_letters : Bytes → Bytes → Bool
unfolding tolower
same_letters a b = bytes_eq (map tolower a) (map tolower b)

-- The macro `XD (x)`: the digit's value, with `tolower` written out.
unfoldable pub xdigit_value : ℕ → ℕ
xdigit_value c =
    if within b'0' b'9' c then c - b'0' else (if within b'A' b'Z' c then c + 32 else c) + 10 - b'a'

-- One digit of `%02x`.
unfoldable pub hex_digit : ℕ → ℕ
hex_digit d = if ltb d 10 then d + b'0' else d - 10 + b'a'

-- What `strquote` writes for one byte; the flags are SQ_CNTRL and SQ_SPACE.
unfoldable pub quote_byte : Bool → Bool → ℕ → Bytes
quote_byte sq_cntrl sq_space c =
    if (sq_cntrl && iscntrl c) || (sq_space && isspace c) || c == b'\\'
    then b'\\' ∷ b'x' ∷ hex_digit (c / 16) ∷ hex_digit (c % 16) ∷ []
    else c ∷ []

unfoldable pub strquote : Bool → Bool → Bytes → Bytes
strquote sq_cntrl sq_space [] = []
strquote sq_cntrl sq_space (c ∷ s) = quote_byte sq_cntrl sq_space c ++ strquote sq_cntrl sq_space s

-- One round of `strdequote` at a nonempty rest: the byte written, and how many bytes are read
-- beyond the first.
dequote_x : ℕ → Bytes → Option (ℕ × ℕ)
dequote_x c (d ∷ e ∷ f ∷ s) =
    if c == b'\\' && d == b'x' && isxdigit e && isxdigit f
    then some (xdigit_value e * 16 + xdigit_value f, 3)
    else none
dequote_x c _ = none

dequote_plain : ℕ → Bytes → Option (ℕ × ℕ)
dequote_plain c (d ∷ e ∷ s) =
    if c == b'\\' && isxdigit d && isxdigit e
    then some (xdigit_value d * 16 + xdigit_value e, 2)
    else none
dequote_plain c _ = none

abbrev or_else : Option (ℕ × ℕ) → ℕ × ℕ → ℕ × ℕ
or_else none b = b
or_else (some a) b = a

unfoldable pub dequote_round : ℕ → Bytes → ℕ × ℕ
unfolding dequote_x dequote_plain
dequote_round c s = or_else (dequote_x c s) (or_else (dequote_plain c s) (c, 0))

-- `strdequote` with the number of bytes that the last round has read ahead.
unfoldable pub strdequote_from : ℕ → Bytes → Bytes
strdequote_from ahead [] = []
strdequote_from (suc ahead) (c ∷ s) = strdequote_from ahead s
strdequote_from zero (c ∷ s) =
    let (byte, ahead) = dequote_round c s in byte ∷ strdequote_from ahead s

unfoldable pub strdequote : Bytes → Bytes
unfolding strdequote_from dequote_round
strdequote s = strdequote_from 0 s

-- The bytes before the first zero.
unfoldable pub c_string : Bytes → Bytes
c_string [] = []
c_string (c ∷ s) = let rest = c_string s in if c == 0 then [] else c ∷ rest

-- `while (*src && isspace (*src)) ++src`
unfoldable pub skip_space : Bytes → Bytes
skip_space [] = []
skip_space (c ∷ src) = let rest = skip_space src in if isspace c then rest else c ∷ src

-- The word at the start, and the text from its end.
unfoldable pub take_word : Bytes → Bytes × Bytes
take_word [] = ([], [])
take_word (c ∷ src) =
    let next = take_word src in if isspace c then ([], c ∷ src) else (c ∷ next.0, next.1)

abbrev pub tail_of : Bytes → Bytes
tail_of [] = []
tail_of (c ∷ src) = src

abbrev pub cons_word : Bytes → Option (List Bytes × Bytes) → Option (List Bytes × Bytes)
cons_word w none = none
cons_word w (some (ws, rest)) = some (w ∷ ws, rest)

-- `argv[0]` up to `argv[argc - 1]`, and the rest of the text; `none` for too few words.
unfoldable pub parse_args : ℕ → Bytes → Option (List Bytes × Bytes)
unfolding skip_space take_word
parse_args zero src = some ([], src)
parse_args (suc argc) src =
    let (word, rest) = take_word (skip_space src) in
    elim word [ [] ↦ none | c ∷ w ↦ cons_word (c ∷ w) (parse_args argc (tail_of rest)) ]
