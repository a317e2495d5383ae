-- ===== src/Flo.antt =====
-- readflo.c: the lines of a flow file, which is the list of the files to send to a node.
pub mod Spool
use binkd.Base.{ℕ, List, [], ◌∷◌, Option, none, some, Bytes, ◌==◌, if◌then◌else◌}
use binkd.Text.{isspace}

-- What `fgets` reads call by call, where each line is shorter than MAXPATHLEN: the pieces up to the
-- newlines, which they keep.
unfoldable pub fgets_lines : Bytes → List Bytes
fgets_lines [] = []
fgets_lines (c ∷ s) =
    let joined : List Bytes = elim (fgets_lines s) [ [] ↦ (c ∷ []) ∷ [] | l ∷ ls ↦ (c ∷ l) ∷ ls ] in
    let rest = fgets_lines s in if c == 10 then (c ∷ []) ∷ rest else joined

abbrev pub cons_trim : ℕ → Bytes → Bytes
cons_trim c [] = if isspace c then [] else c ∷ []
cons_trim c (d ∷ s) = c ∷ d ∷ s

-- The white space at the end is cut off.
unfoldable pub trim_end : Bytes → Bytes
unfolding isspace
trim_end [] = []
trim_end (c ∷ s) = cons_trim c (trim_end s)

-- The path and the action of a trimmed line; none for a line that is passed over.
unfoldable pub flo_entry : Bytes → Option (Bytes × ℕ)
flo_entry [] = none
flo_entry (c ∷ path) =
    if c == b'~'
    then none
    else if c == b'^'
    then some (path, b'd')
    else if c == b'#'
    then some (path, b't')
    else some (c ∷ path, 0)

-- `dst`, `action` and the lines behind; none at the end of the file.
unfoldable pub read_flo_line : List Bytes → Option ((Bytes × ℕ) × List Bytes)
unfolding trim_end flo_entry
read_flo_line [] = none
read_flo_line (buf ∷ flo) = elim (flo_entry (trim_end buf)) [
  | none ↦ read_flo_line flo
  | some entry ↦ some (entry, flo)
]
