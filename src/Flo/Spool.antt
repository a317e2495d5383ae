-- ===== src/Flo/Spool.antt =====
-- protocol.c: remove_from_spool and perform_action. A flow file is the list of the lines that `fgets`
-- reads from it.
pub mod Entries
use binkd.Base.{
  ℕ, Bool, true, false, not, ◌&&◌, ◌||◌, List, [], ◌∷◌, ◌++◌, Option, none, some, Bytes, bytes_eq,
  ◌==◌, if◌then◌else◌,
}
use binkd.Flo.{trim_end}

-- What is done to a file at once.
pub data DiskEffect : Type 0 where
  deleted truncated : Bytes → DiskEffect

-- The lists of the session that an action adds to, and what it did to the disk.
pub record Spool : Type 0 where
  pub disk : List DiskEffect
  pub nosendlist : List Bytes
  pub killlist : List Bytes  -- with the condition 's'

-- `delete_ok` tells whether a file can be deleted.
unfoldable pub perform_action : (Bytes → Bool) → Bytes → ℕ → Spool → Spool
perform_action delete_ok path action s =
    if action == b'd'
    then record s {
      disk = if delete_ok path then s.disk ++ deleted path ∷ [] else s.disk;
      nosendlist = if delete_ok path then s.nosendlist else s.nosendlist ++ path ∷ [];
    }
    else if action == b't'
    then record s { disk = s.disk ++ truncated path ∷ [] }
    else if action == b's'
    then record s { killlist = s.killlist ++ path ∷ [] }
    else s

-- The trimmed line is the one of the file.
unfoldable pub names_file : Bytes → Bytes → Bool
unfolding bytes_eq
names_file file [] = false
names_file file (c ∷ path) =
    bytes_eq file (c ∷ path) || ((c == b'^' || c == b'#') && bytes_eq file path)

abbrev pub is_named : Option Bytes → Bytes → Bool
is_named none buf = false
is_named (some file) buf = names_file file buf

-- A '~' is put over the first byte.
abbrev pub mark : Bytes → Bytes
mark [] = []
mark (c ∷ l) = b'~' ∷ l

abbrev pub is_blank : Bytes → Bool
is_blank [] = true
is_blank (c ∷ buf) = false

abbrev pub is_marked : Bytes → Bool
is_marked [] = false
is_marked (c ∷ buf) = c == b'~'

-- The lines behind the loop, `empty_flo_flag`, and whether the file was found.
pub record Scanned : Type 0 where
  pub lines : List Bytes
  pub empty_flo_flag : Bool
  pub found : Bool

unfoldable pub scan_flo : Option Bytes → List Bytes → Scanned
unfolding trim_end names_file
scan_flo file [] = record { lines = []; empty_flo_flag = true; found = false }
scan_flo file (l ∷ flo) =
    let rest = scan_flo file flo in
    let buf = trim_end l in
    if is_blank buf
    then record rest { lines = l ∷ rest.lines }
    else if is_named file buf
    then record rest { lines = mark l ∷ rest.lines; found = true }
    else record rest {
      lines = l ∷ rest.lines;
      empty_flo_flag = is_marked buf && rest.empty_flo_flag;
    }

-- The flow file: the path is empty or not given, the session reads it, it is closed, it cannot be
-- opened for writing, or it was deleted.
pub data FloFile : Type 0 where
  no_flo : FloFile
  open_flo : List Bytes → FloFile
  closed_flo locked_flo : List Bytes → FloFile
  deleted_flo : FloFile

-- What the function takes from outside.
pub record Spooler : Type 0 where
  pub trans_flo_line : Bytes → Option Bytes
  pub delete_ok : Bytes → Bool

unfoldable pub perform : Spooler → Option Bytes → Bool → ℕ → Spool → Spool
unfolding perform_action
perform io none found action s = s
perform io (some file) found action s =
    let path : Bytes = elim (io.trans_flo_line file) [
      | none ↦ file
      | some w ↦ if found then w else file
    ] in
    perform_action io.delete_ok path action s

-- A closed file without a line that is not marked is deleted.
unfoldable pub close_flo : Spooler → Bytes → Scanned → FloFile
close_flo io flopath scanned =
    if scanned.empty_flo_flag && io.delete_ok flopath then deleted_flo else closed_flo scanned.lines

-- The flow file, the lists and the disk behind it, with what it returns.
unfoldable pub remove_from_spool :
    Spooler → Bytes → FloFile → Option Bytes → ℕ → Spool → FloFile × Spool × Bool
unfolding scan_flo perform close_flo
remove_from_spool io flopath no_flo file action s = (no_flo, perform io file false action s, true)
remove_from_spool io flopath (open_flo lines) file action s =
    let scanned = scan_flo file lines in
    (open_flo scanned.lines, perform io file scanned.found action s, true)
remove_from_spool io flopath deleted_flo file action s = (deleted_flo, s, false)
remove_from_spool io flopath (locked_flo lines) file action s = (locked_flo lines, s, false)
remove_from_spool io flopath (closed_flo lines) file action s =
    let scanned = scan_flo file lines in
    (close_flo io flopath scanned, perform io file scanned.found action s, true)
