-- ===== src/Busy.antt =====
-- bsy.c: the files that mark a node as busy. The directories that are made and removed on the way are
-- left out; a process has its own list of cells, and the files are shared by all processes.
pub mod Paths
pub mod Count
pub mod Exclusive
use binkd.Base.{
  ℕ, ◌-◌, Bool, true, false, not, ◌&&◌, ◌||◌, List, [], ◌∷◌, ◌++◌, Option, none, some, Bytes, codes,
  bytes_eq, ltb, if◌then◌else◌,
}
use binkd.Ftn.{FtnAddr, fa_zero, fa_isnull}
use binkd.Ftn.Compare.{same_address}
use binkd.Ftn.Domain.{FtnDomain}
use binkd.Ftn.Print.{ftnaddress_to_filename}

-- `bsy_t`
pub data BsyFlag : Type 0 where
  f_bsy f_csy : BsyFlag

pub record BsyAddr : Type 0 where
  pub fa : FtnAddr
  pub bt : BsyFlag

-- The list of a process, its head first, and the names of the flag files on the disk.
pub record Flags : Type 0 where
  pub bsy_list : List BsyAddr
  pub files : List Bytes

pub record BusyConfig : Type 0 where
  pub domains : List FtnDomain
  pub can_create : Bytes → Bool  -- a file that is not there can be created

abbrev pub same_flag : BsyFlag → BsyFlag → Bool
same_flag f_bsy f_bsy = true
same_flag f_csy f_csy = true
same_flag _ _ = false

abbrev pub with_flag : BsyFlag → Bytes → Bytes
with_flag bt [] = []
with_flag f_csy (c ∷ name) = c ∷ name ++ codes ".csy"
with_flag f_bsy (c ∷ name) = c ∷ name ++ codes ".bsy"

-- The content of `buf`, empty for an unknown domain.
unfoldable pub flag_path : BusyConfig → FtnAddr → BsyFlag → Bytes
unfolding ftnaddress_to_filename
flag_path config fa bt = with_flag bt (ftnaddress_to_filename fa config.domains)

unfoldable pub on_disk : Bytes → List Bytes → Bool
unfolding bytes_eq
on_disk name [] = false
on_disk name (f ∷ files) = bytes_eq f name || on_disk name files

-- `delete`
unfoldable pub delete_file : Bytes → List Bytes → List Bytes
unfolding bytes_eq
delete_file name [] = []
delete_file name (f ∷ files) =
    let rest = delete_file name files in if bytes_eq f name then rest else f ∷ rest

abbrev pub behind : BsyAddr → Option (List BsyAddr) → Option (List BsyAddr)
behind cell none = none
behind cell (some cells) = some (cell ∷ cells)

-- The first free cell is taken.
unfoldable pub fill_cell : BsyAddr → List BsyAddr → Option (List BsyAddr)
unfolding fa_isnull
fill_cell new [] = none
fill_cell new (cell ∷ cells) =
    let rest = fill_cell new cells in
    if fa_isnull cell.fa then some (new ∷ cells) else behind cell rest

abbrev pub or_in_front : BsyAddr → List BsyAddr → Option (List BsyAddr) → List BsyAddr
or_in_front new cells none = new ∷ cells
or_in_front new cells (some filled) = filled

-- bsy_get_free_cell, and what is written to the cell.
unfoldable pub put_cell : BsyAddr → List BsyAddr → List BsyAddr
unfolding fill_cell
put_cell new cells = or_in_front new cells (fill_cell new cells)

-- create_sem_file, with O_EXCL: false where the file is there already.
unfoldable pub create_sem_file : BusyConfig → Bytes → List Bytes → Bool
unfolding on_disk
create_sem_file config name files = not (on_disk name files) && config.can_create name

unfoldable pub add_named : BusyConfig → BsyAddr → Bytes → Flags → Flags × Bool
unfolding create_sem_file put_cell
add_named config new [] s = (s, false)
add_named config new (c ∷ name) s =
    if create_sem_file config (c ∷ name) s.files
    then (record { bsy_list = put_cell new s.bsy_list; files = (c ∷ name) ∷ s.files }, true)
    else (s, false)

unfoldable pub bsy_add : BusyConfig → FtnAddr → BsyFlag → Flags → Flags × Bool
unfolding flag_path add_named
bsy_add config fa bt s = add_named config (record { fa = fa; bt = bt }) (flag_path config fa bt) s

abbrev pub is_free : Bytes → List Bytes → Bool
unfolding on_disk
is_free [] files = false
is_free (c ∷ name) files = not (on_disk (c ∷ name) files)

-- True where the node is free.
unfoldable pub bsy_test : BusyConfig → FtnAddr → BsyFlag → List Bytes → Bool
unfolding flag_path is_free
bsy_test config fa bt files = is_free (flag_path config fa bt) files

abbrev pub cleared : BsyAddr → BsyAddr
cleared cell = record cell { fa = fa_zero }

-- The first cell of the address and the flag is freed.
unfoldable pub clear_cell : FtnAddr → BsyFlag → List BsyAddr → Option (List BsyAddr)
unfolding same_address
clear_cell fa bt [] = none
clear_cell fa bt (cell ∷ cells) =
    let rest = clear_cell fa bt cells in
    if same_address cell.fa fa && same_flag cell.bt bt
    then some (cleared cell ∷ cells)
    else behind cell rest

unfoldable pub removed : Bytes → Flags → Option (List BsyAddr) → Flags
unfolding delete_file
removed name s none = s
removed name s (some cells) = record { bsy_list = cells; files = delete_file name s.files }

unfoldable pub remove_named : FtnAddr → BsyFlag → Bytes → Flags → Flags
unfolding removed clear_cell
remove_named fa bt [] s = s
remove_named fa bt (c ∷ name) s = removed (c ∷ name) s (clear_cell fa bt s.bsy_list)

unfoldable pub bsy_remove : BusyConfig → FtnAddr → BsyFlag → Flags → Flags
unfolding flag_path remove_named
bsy_remove config fa bt s = remove_named fa bt (flag_path config fa bt) s

-- A cell with the name of its file, as bsy_remove_all handles it.
unfoldable pub remove_cell : Bool → Bytes → BsyAddr → List Bytes → BsyAddr × List Bytes
unfolding delete_file
remove_cell true name cell files = (cell, files)
remove_cell false [] cell files = (cell, files)
remove_cell false (c ∷ name) cell files = (cleared cell, delete_file (c ∷ name) files)

abbrev pub in_front : BsyAddr → Flags → Flags
in_front cell s = record s { bsy_list = cell ∷ s.bsy_list }

unfoldable pub remove_cells : BusyConfig → List BsyAddr → List Bytes → Flags
unfolding flag_path remove_cell fa_isnull
remove_cells config [] files = record { bsy_list = []; files = files }
remove_cells config (cell ∷ cells) files =
    let next = remove_cell (fa_isnull cell.fa) (flag_path config cell.fa cell.bt) cell files in
    in_front next.0 (remove_cells config cells next.1)

unfoldable pub bsy_remove_all : BusyConfig → Flags → Flags
unfolding remove_cells
bsy_remove_all config s = remove_cells config s.bsy_list s.files

abbrev pub bsy_touch_delay : ℕ
bsy_touch_delay = 60

abbrev pub touch_named : Bytes → List Bytes → List Bytes
touch_named [] names = names
touch_named (c ∷ name) names = (c ∷ name) ∷ names

-- The names that bsy_touch touches.
unfoldable pub touch_cells : BusyConfig → List BsyAddr → List Bytes
unfolding flag_path
touch_cells config [] = []
touch_cells config (cell ∷ cells) =
    touch_named (flag_path config cell.fa cell.bt) (touch_cells config cells)

-- At the time `now`: what is touched, and the time of the last touch.
unfoldable pub bsy_touch : BusyConfig → ℕ → ℕ → List BsyAddr → List Bytes × ℕ
unfolding touch_cells
bsy_touch config now last_touch cells =
    if ltb bsy_touch_delay (now - last_touch)
    then (touch_cells config cells, now)
    else ([], last_touch)
