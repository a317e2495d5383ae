-- ===== src/Busy/Count.antt =====
-- bsy.c: each operation keeps the number of cells that hold a file.
use binkd.Base.{
  ℕ, ◌+◌, ◌≤◌, Bool, true, false, not, ◌&&◌, ◌||◌, List, [], ◌∷◌, Option, none, some, Bytes, All,
  bytes_eq, bytes_eq_iff, if◌then◌else◌, ◌≡◌, refl, ap, sym, ◌∙◌, if_ind, Bool-cases, inl, inr,
  arith,
}
use mathlib.Core.Path.{subst}
use binkd.Base.Int.{eqb_ℤ}
use binkd.Ftn.{FtnAddr, fa_isnull}
use binkd.Ftn.Compare.{same_address, IsCString}
use binkd.Busy.{
  BsyFlag, f_bsy, f_csy, BsyAddr, Flags, BusyConfig, same_flag, flag_path, on_disk, delete_file,
  behind, fill_cell, or_in_front, put_cell, create_sem_file, add_named, bsy_add, cleared,
  clear_cell, removed, remove_named, bsy_remove, remove_cell, remove_cells, bsy_remove_all,
}
use binkd.Busy.Paths.{path_same, isnull_same, same_address-SameAddress}

and_false : (b : Bool) → b && false ≡ false
and_false true = refl
and_false false = refl

abbrev pub count_if : Bool → ℕ
count_if b = if b then 1 else 0

count_le : (b : Bool) → count_if b ≤ 1
count_le true = omega arith
count_le false = omega arith

-- A cell that is in use, for a file of the name.
unfoldable pub holds : BusyConfig → Bytes → BsyAddr → Bool
unfolding fa_isnull flag_path bytes_eq
holds config name cell = not (fa_isnull cell.fa) && bytes_eq (flag_path config cell.fa cell.bt) name

-- How many cells of the process hold the file.
unfoldable pub held : BusyConfig → Bytes → List BsyAddr → ℕ
unfolding holds
held config name [] = 0
held config name (cell ∷ cells) = count_if (holds config name cell) + held config name cells

abbrev pub HasText : BsyAddr → Type 0
HasText cell = IsCString cell.fa.domain

-- `n` cells of other processes hold the file beside those of the process: no file is held twice, and
-- one that is held is there.
abbrev pub Once : BusyConfig → Bytes → ℕ → Flags → Type 0
Once config name n s =
    All HasText s.bsy_list × (n + held config name s.bsy_list ≤ count_if (on_disk name s.files))

delete_gone : (name : Bytes) (files : List Bytes) → on_disk name (delete_file name files) ≡ false
unfolding on_disk delete_file
delete_gone name [] = refl
delete_gone name (f ∷ files) = elim (Bool-cases (bytes_eq f name)) [
  | inl e ↦ rw e (delete_gone name files)
  | inr e ↦ rw e (rw e (delete_gone name files))
]

delete_others :
    (name other : Bytes) (files : List Bytes)
    → bytes_eq other name ≡ false
    → on_disk name (delete_file other files) ≡ on_disk name files
unfolding on_disk delete_file
delete_others name other [] h = refl
delete_others name other (f ∷ files) h = elim (Bool-cases (bytes_eq f other)) [
  | inl e ↦
      let k = subst (λ (t : Bytes). bytes_eq t name ≡ false) (sym ((bytes_eq_iff f other).0 e)) h in
      rw (e, k) (delete_others name other files h)
  | inr e ↦ rw e (ap (λ (b : Bool). bytes_eq f name || b) (delete_others name other files h))
]

module _ (config : BusyConfig) (name : Bytes) where
  null_holds : (cell : BsyAddr) → fa_isnull cell.fa ≡ true → holds config name cell ≡ false
  unfolding holds
  null_holds cell e = rw e refl

  cleared-holds : (cell : BsyAddr) → holds config name (cleared cell) ≡ false
  unfolding fa_isnull bytes_eq eqb_ℤ
  cleared-holds cell = null_holds (cleared cell) refl

  -- A free cell that is filled.
  abbrev Filled : BsyAddr → List BsyAddr → Option (List BsyAddr) → Type 0
  Filled new cells none = Unit
  Filled new cells (some filled) =
      (held config name filled ≡ count_if (holds config name new) + held config name cells)
      × (All HasText cells → All HasText filled)

  behind-Filled :
      (new cell : BsyAddr) (cells : List BsyAddr) (r : Option (List BsyAddr))
      → Filled new cells r
      → Filled new (cell ∷ cells) (behind cell r)
  unfolding held
  behind-Filled new cell cells none h = tt
  behind-Filled new cell cells (some filled) h = (omega (arith, h.0), λ k. (k.0, h.1 k.1))

  fill_cell-Filled :
      (new : BsyAddr) (cells : List BsyAddr) → HasText new → Filled new cells (fill_cell new cells)
  unfolding fill_cell held
  fill_cell-Filled new [] h = tt
  fill_cell-Filled new (cell ∷ cells) h =
      if_ind (Filled new (cell ∷ cells)) (fa_isnull cell.fa)
        (λ e. (rw (null_holds cell e) (omega arith), λ k. (h, k.1)))
        (λ e. behind-Filled new cell cells (fill_cell new cells) (fill_cell-Filled new cells h))

  or_in_front-Filled :
      (new : BsyAddr) (cells : List BsyAddr) (r : Option (List BsyAddr))
      → HasText new
      → Filled new cells r
      → Filled new cells (some (or_in_front new cells r))
  unfolding held
  or_in_front-Filled new cells none h f = (refl, λ k. (h, k))
  or_in_front-Filled new cells (some filled) h f = f

  put_cell-Filled :
      (new : BsyAddr) (cells : List BsyAddr)
      → HasText new
      → Filled new cells (some (put_cell new cells))
  unfolding put_cell
  put_cell-Filled new cells h =
      or_in_front-Filled new cells (fill_cell new cells) h (fill_cell-Filled new cells h)

  -- A cell that holds another file does not count.
  other_holds :
      (cell : BsyAddr) (path : Bytes)
      → flag_path config cell.fa cell.bt ≡ path
      → bytes_eq path name ≡ false
      → holds config name cell ≡ false
  unfolding holds
  other_holds cell path e h = rw e (rw h (and_false (not (fa_isnull cell.fa))))

  own_holds :
      (cell : BsyAddr) (path : Bytes)
      → fa_isnull cell.fa ≡ false
      → flag_path config cell.fa cell.bt ≡ path
      → bytes_eq path name ≡ true
      → holds config name cell ≡ true
  unfolding holds
  own_holds cell path n e h = rw (n, e) h

  add_named-Once :
      (n : ℕ) (new : BsyAddr) (path : Bytes) (s : Flags)
      → flag_path config new.fa new.bt ≡ path
      → HasText new
      → Once config name n s
      → Once config name n (add_named config new path s).0
  unfolding add_named create_sem_file on_disk
  add_named-Once n new [] s e h once = once
  add_named-Once n new (c ∷ path) s e h once =
      if_ind (λ (r : Flags × Bool). Once config name n r.0)
        (create_sem_file config (c ∷ path) s.files)
        (λ k.
          let (count, text) = put_cell-Filled new s.bsy_list h in
          (
            text once.0,
            elim (Bool-cases (bytes_eq (c ∷ path) name)) [
              | inl same ↦
                  let at : c ∷ path ≡ name = (bytes_eq_iff (c ∷ path) name).0 same in
                  let fresh : on_disk (c ∷ path) s.files ≡ false = ground (arith, k) in
                  let gone : on_disk name s.files ≡ false =
                    subst (λ (t : Bytes). on_disk t s.files ≡ false) at fresh in
                  rw same (
                    omega
                      (arith, count, count_le (holds config name new), ap count_if gone, once.1))
              | inr other ↦
                  rw other
                    (omega (arith, count, ap count_if (other_holds new (c ∷ path) e other), once.1))
            ],
          ))
        (λ k. once)

  pub bsy_add-Once :
      (n : ℕ) (fa : FtnAddr) (bt : BsyFlag) (s : Flags)
      → IsCString fa.domain
      → Once config name n s
      → Once config name n (bsy_add config fa bt s).0
  unfolding bsy_add
  bsy_add-Once n fa bt s h once =
      add_named-Once n (record { fa = fa; bt = bt }) (flag_path config fa bt) s refl h once

  -- The cell of a file that is freed.
  abbrev Cleared : Bytes → List BsyAddr → Option (List BsyAddr) → Type 0
  Cleared path cells none = Unit
  Cleared path cells (some left) =
      (held config name left + count_if (bytes_eq path name) ≡ held config name cells)
      × (All HasText cells → All HasText left)

  behind-Cleared :
      (path : Bytes) (cell : BsyAddr) (cells : List BsyAddr) (r : Option (List BsyAddr))
      → Cleared path cells r
      → Cleared path (cell ∷ cells) (behind cell r)
  unfolding held
  behind-Cleared path cell cells none h = tt
  behind-Cleared path cell cells (some left) h = (omega (arith, h.0), λ k. (k.0, h.1 k.1))

  same_flag_eq : (a b : BsyFlag) → same_flag a b ≡ true → a ≡ b
  same_flag_eq f_bsy f_bsy h = refl
  same_flag_eq f_csy f_csy h = refl
  same_flag_eq f_bsy f_csy h = absurd (cc (h))
  same_flag_eq f_csy f_bsy h = absurd (cc (h))

  matched_holds :
      (cell : BsyAddr) (fa : FtnAddr) (bt : BsyFlag)
      → HasText cell
      → IsCString fa.domain
      → fa_isnull fa ≡ false
      → same_address cell.fa fa && same_flag cell.bt bt ≡ true
      → holds config name cell ≡ bytes_eq (flag_path config fa bt) name
  unfolding holds
  matched_holds cell fa bt h k n e =
      let same : same_address cell.fa fa ≡ true = ground (arith, e) in
      let flag : same_flag cell.bt bt ≡ true = ground (arith, e) in
      let address = same_address-SameAddress cell.fa fa h k same in
      let path =
        path_same config cell.fa fa cell.bt address
        ∙ ap (flag_path config fa) (same_flag_eq cell.bt bt flag) in
      let used = isnull_same cell.fa fa address ∙ n in rw (used, path) refl

  clear_cell-Cleared :
      (fa : FtnAddr) (bt : BsyFlag) (cells : List BsyAddr)
      → All HasText cells
      → IsCString fa.domain
      → fa_isnull fa ≡ false
      → Cleared (flag_path config fa bt) cells (clear_cell fa bt cells)
  unfolding clear_cell held
  clear_cell-Cleared fa bt [] h k n = tt
  clear_cell-Cleared fa bt (cell ∷ cells) h k n =
      if_ind (Cleared (flag_path config fa bt) (cell ∷ cells))
        (same_address cell.fa fa && same_flag cell.bt bt)
        (λ e.
          let was = ap count_if (matched_holds cell fa bt h.0 k n e) in
          (omega (arith, was, ap count_if (cleared-holds cell)), λ t. (tt, t.1)))
        (λ e.
          behind-Cleared (flag_path config fa bt) cell cells (clear_cell fa bt cells)
            (clear_cell-Cleared fa bt cells h.1 k n))

  -- Behind the removal of a file that is held at most once.
  delete_once :
      (path : Bytes) (m : ℕ) (files : List Bytes)
      → m + count_if (bytes_eq path name) ≤ count_if (on_disk name files)
      → m ≤ count_if (on_disk name (delete_file path files))
  delete_once path m files h = elim (Bool-cases (bytes_eq path name)) [
    | inl e ↦ omega (arith, h, ap count_if e, count_le (on_disk name files))
    | inr e ↦ omega (arith, h, ap count_if e, ap count_if (delete_others name path files e))
  ]

  removed-Once :
      (n : ℕ) (path : Bytes) (s : Flags) (r : Option (List BsyAddr))
      → Cleared path s.bsy_list r
      → Once config name n s
      → Once config name n (removed path s r)
  unfolding removed
  removed-Once n path s none c once = once
  removed-Once n path s (some left) c once = (
    c.1 once.0,
    delete_once path (n + held config name left) s.files (omega (arith, c.0, once.1)),
  )

  remove_named-Once :
      (n : ℕ) (fa : FtnAddr) (bt : BsyFlag) (path : Bytes) (s : Flags)
      → Cleared path s.bsy_list (clear_cell fa bt s.bsy_list)
      → Once config name n s
      → Once config name n (remove_named fa bt path s)
  unfolding remove_named
  remove_named-Once n fa bt [] s c once = once
  remove_named-Once n fa bt (b ∷ path) s c once =
      removed-Once n (b ∷ path) s (clear_cell fa bt s.bsy_list) c once

  pub bsy_remove-Once :
      (n : ℕ) (fa : FtnAddr) (bt : BsyFlag) (s : Flags)
      → IsCString fa.domain
      → fa_isnull fa ≡ false
      → Once config name n s
      → Once config name n (bsy_remove config fa bt s)
  unfolding bsy_remove
  bsy_remove-Once n fa bt s h k once =
      remove_named-Once n fa bt (flag_path config fa bt) s
        (clear_cell-Cleared fa bt s.bsy_list once.0 h k) once

  -- A cell of bsy_remove_all, where `m` cells beside it hold the file.
  abbrev CellOnce : ℕ → BsyAddr × List Bytes → Type 0
  CellOnce m (cell, files) =
      HasText cell × (m + count_if (holds config name cell) ≤ count_if (on_disk name files))

  remove_cell-CellOnce :
      (m : ℕ) (free : Bool) (path : Bytes) (cell : BsyAddr) (files : List Bytes)
      → fa_isnull cell.fa ≡ free
      → flag_path config cell.fa cell.bt ≡ path
      → HasText cell
      → m + count_if (holds config name cell) ≤ count_if (on_disk name files)
      → CellOnce m (remove_cell free path cell files)
  unfolding remove_cell holds
  remove_cell-CellOnce m true path cell files e p h k = (h, k)
  remove_cell-CellOnce m false [] cell files e p h k = (h, k)
  remove_cell-CellOnce m false (c ∷ path) cell files e p h k =
      let own : holds config name cell ≡ bytes_eq (c ∷ path) name = rw (e, p) refl in
      let left = delete_once (c ∷ path) m files (omega (arith, k, ap count_if own)) in
      (tt, omega (arith, left, ap count_if (cleared-holds cell)))

  remove_cells-Once :
      (n : ℕ) (cells : List BsyAddr) (files : List Bytes)
      → Once config name n (record { bsy_list = cells; files = files })
      → Once config name n (remove_cells config cells files)
  unfolding remove_cells held
  remove_cells-Once n [] files once = once
  remove_cells-Once n (cell ∷ cells) files once =
      let m = n + held config name cells in
      let next = remove_cell (fa_isnull cell.fa) (flag_path config cell.fa cell.bt) cell files in
      let at : CellOnce m next =
        remove_cell-CellOnce m (fa_isnull cell.fa) (flag_path config cell.fa cell.bt) cell files
          refl refl once.0.0 (omega (arith, once.1)) in
      let rest =
        remove_cells-Once (n + count_if (holds config name next.0)) cells next.1
          (once.0.1, omega (arith, at.1)) in
      ((at.0, rest.0), omega (arith, rest.1))

  pub bsy_remove_all-Once :
      (n : ℕ) (s : Flags) → Once config name n s → Once config name n (bsy_remove_all config s)
  unfolding bsy_remove_all
  bsy_remove_all-Once n s once = remove_cells-Once n s.bsy_list s.files once
