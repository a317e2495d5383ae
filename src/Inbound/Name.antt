-- ===== src/Inbound/Name.antt =====
-- inbound.c, tools.c: the name of a received file in the inbound directory. Names are shorter than
-- MAXPATHLEN, and a path separator is "/".
use binkd.Base.{
  ℕ, ◌-◌, Bool, true, false, ◌&&◌, ◌||◌, [], ◌∷◌, ◌++◌, Bytes, codes, map, leb, ◌==◌, if◌then◌else◌,
}
use binkd.Ftnq.{ispkt, istic, isarcmail}
use binkd.Text.{iscntrl, tolower, c_string, strdequote}
use binkd.Inbound.Rename.{isalnum}

abbrev pub ends_in_slash : Bytes → Bool
ends_in_slash [] = true
ends_in_slash (c ∷ []) = c == b'/'
ends_in_slash (c ∷ d ∷ s) = ends_in_slash (d ∷ s)

-- The path of a directory, with a separator behind it.
unfoldable pub with_separator : Bytes → Bytes
with_separator inbound = if ends_in_slash inbound then inbound else inbound ++ b'/' ∷ []

abbrev pub wipe_byte : ℕ → ℕ
wipe_byte c = if iscntrl c || c == 92 || c == b'/' || c == b':' then b'_' else c

unfoldable pub strwipe : Bytes → Bytes
unfolding iscntrl
strwipe s = map wipe_byte s

unfoldable pub toupper : ℕ → ℕ
toupper c = if leb b'a' c && leb c b'z' then c - 32 else c

pub data InbCase : Type 0 where
  inb_save inb_upper inb_lower inb_mixed : InbCase

-- A letter behind a letter or a digit is small.
unfoldable pub mix_case : Bool → Bytes → Bytes
unfolding toupper tolower isalnum
mix_case in_word [] = []
mix_case in_word (c ∷ s) =
    let d = if in_word then tolower c else toupper c in d ∷ mix_case (isalnum d) s

unfoldable pub makeinboundcase : InbCase → Bytes → Bytes
unfolding toupper tolower mix_case
makeinboundcase inb_save s = s
makeinboundcase inb_upper s = map toupper s
makeinboundcase inb_lower s = map tolower s
makeinboundcase inb_mixed s = mix_case false s

-- The name that the remote gave, as it is used in the file system.
unfoldable pub safe_name : InbCase → Bytes → Bytes
unfolding strwipe makeinboundcase strdequote c_string
safe_name inbcase netname = strwipe (makeinboundcase inbcase (c_string (strdequote netname)))

abbrev pub isreq : (Bytes → Bytes → Bool) → Bytes → Bool
isreq pmatch s = pmatch (codes "*.req") s

-- The extension of these names is kept.
unfoldable pub keeps_extension : (Bytes → Bytes → Bool) → Bytes → Bool
unfolding ispkt istic isarcmail
keeps_extension pmatch s = ispkt pmatch s || istic pmatch s || isarcmail pmatch s || isreq pmatch s
