-- ===== src/Busy/Exclusive.antt =====
-- bsy.c: a node is marked by at most one process.
use binkd.Base.{ℕ, ◌+◌, ◌≤◌, false, List, [], ◌∷◌, Bytes, All, ◌≡◌, arith}
use binkd.Ftn.{FtnAddr, fa_isnull}
use binkd.Ftn.Compare.{IsCString}
use binkd.Busy.{BsyFlag, BsyAddr, Flags, BusyConfig, on_disk, bsy_add, bsy_remove, bsy_remove_all}
use binkd.Busy.Count.{
  count_if, held, HasText, Once, bsy_add-Once, bsy_remove-Once, bsy_remove_all-Once,
}

-- How many cells of all processes hold the file.
unfoldable pub held_by_all : BusyConfig → Bytes → List (List BsyAddr) → ℕ
unfolding held
held_by_all config name [] = 0
held_by_all config name (cells ∷ procs) = held config name cells + held_by_all config name procs

-- What one process does: it marks a node, frees one, or frees all at its end. An address is a C string,
-- and not that of a free cell.
pub data Act (config : BusyConfig) (s : Flags) : Flags → Type 0 where
  adds :
      (fa : FtnAddr) (bt : BsyFlag)
      → IsCString fa.domain
      → fa_isnull fa ≡ false
      → Act config s (bsy_add config fa bt s).0
  frees :
      (fa : FtnAddr) (bt : BsyFlag)
      → IsCString fa.domain
      → fa_isnull fa ≡ false
      → Act config s (bsy_remove config fa bt s)
  ends : Act config s (bsy_remove_all config s)

-- The lists of all processes, and the files.
pub record Machine : Type 0 where
  pub procs : List (List BsyAddr)
  pub files : List Bytes

-- One of the processes acts.
pub data Move (config : BusyConfig) : Machine → Machine → Type 0 where
  here :
      (cells left : List BsyAddr) (files now : List Bytes) (procs : List (List BsyAddr))
      → Act config
          (record { bsy_list = cells; files = files })
          (record { bsy_list = left; files = now })
      → Move config
          (record { procs = cells ∷ procs; files = files })
          (record { procs = left ∷ procs; files = now })
  there :
      (cells : List BsyAddr) (files now : List Bytes) (procs others : List (List BsyAddr))
      → Move config
          (record { procs = procs; files = files })
          (record { procs = others; files = now })
      → Move config
          (record { procs = cells ∷ procs; files = files })
          (record { procs = cells ∷ others; files = now })

-- Any number of processes that hold nothing start, with any files there; a process may start later.
pub data Reach (config : BusyConfig) : Machine → Type 0 where
  boot : (files : List Bytes) → Reach config (record { procs = []; files = files })
  fork : (m : Machine) → Reach config m → Reach config (record m { procs = [] ∷ m.procs })
  later : (m k : Machine) → Reach config m → Move config m k → Reach config k

module _ (config : BusyConfig) (name : Bytes) where
  Act-Once : (n : ℕ) (s t : Flags) → Act config s t → Once config name n s → Once config name n t
  Act-Once n s t (adds fa bt h k) once = bsy_add-Once config name n fa bt s h once
  Act-Once n s t (frees fa bt h k) once = bsy_remove-Once config name n fa bt s h k once
  Act-Once n s t ends once = bsy_remove_all-Once config name n s once

  abbrev AllOnce : ℕ → Machine → Type 0
  AllOnce n m =
      All (All HasText) m.procs
      × (n + held_by_all config name m.procs ≤ count_if (on_disk name m.files))

  Move-AllOnce : (n : ℕ) (m k : Machine) → Move config m k → AllOnce n m → AllOnce n k
  unfolding held_by_all
  Move-AllOnce n m k (here cells left files now procs act) (text, count) =
      let others = n + held_by_all config name procs in
      let done =
        Act-Once others (record { bsy_list = cells; files = files })
          (record { bsy_list = left; files = now }) act (text.0, omega (arith, count)) in
      ((done.0, text.1), omega (arith, done.1))
  Move-AllOnce n m k (there cells files now procs others move) (text, count) =
      let here_too = n + held config name cells in
      let done =
        Move-AllOnce here_too (record { procs = procs; files = files })
          (record { procs = others; files = now }) move (text.1, omega (arith, count)) in
      ((text.0, done.0), omega (arith, done.1))

  Reach-AllOnce : (m : Machine) → Reach config m → AllOnce 0 m
  unfolding held_by_all held
  Reach-AllOnce m (boot files) = (tt, omega arith)
  Reach-AllOnce m (fork old r) =
      let (text, count) = Reach-AllOnce old r in ((tt, text), omega (arith, count))
  Reach-AllOnce m (later old now r move) = Move-AllOnce 0 old m move (Reach-AllOnce old r)

-- However the processes mark and free nodes, at most one cell of all processes together holds the file
-- of a name, and the file of a cell that is in use is there.
pub Reach-held_by_all :
    (config : BusyConfig) (name : Bytes) (m : Machine)
    → Reach config m
    → held_by_all config name m.procs ≤ count_if (on_disk name m.files)
Reach-held_by_all config name m r = omega (arith, (Reach-AllOnce config name m r).1)
