-- ===== src/Inbound/Open.antt =====
-- inbound.c: inb_fopen, where the data of a file is opened for append. Sizes of a disk are in kilobytes.
use binkd.Base.{
  ℕ, ◌+◌, ◌-◌, ◌/◌, ◌≤◌, Bool, true, false, List, Option, none, some, ltb, if◌then◌else◌, ◌≡◌,
  if_ind, arith,
}
use binkd.Inbound.Partial.{Partial, Inbox, TmpName, tmp_none, tmp_found, tmp_created, find_tmp_name}
use binkd.Protocol.State.{State}

pub record Disk : Type 0 where
  pub opens : ℕ → Bool  -- at each try
  pub fstat_ok : ℕ → Bool
  pub empties : Bool  -- by trunc_file or sdelete
  pub freespace : ℕ  -- the less of both directories
  pub req_free : Option ℕ  -- for the security of the session; none where it is negative

-- `(size - st_size + 1023) / 1024`
abbrev pub kbytes_left : ℕ → ℕ → ℕ
kbytes_left size st_size = (size - st_size + 1023) / 1024

unfoldable pub lacks_space : Disk → ℕ → ℕ → Bool
lacks_space disk size st_size = elim disk.req_free [
  | none ↦ false
  | some req ↦ ltb disk.freespace (kbytes_left size st_size + req)
]

-- A stream of so many bytes, at its end; none where it is not opened.
abbrev pub Opened : Type 0
Opened = Option ℕ

abbrev enough_space : Disk → ℕ → ℕ → Opened
unfolding lacks_space
enough_space disk size st_size = if lacks_space disk size st_size then none else some st_size

-- A try, and what follows where the data is larger than the file.
unfoldable pub fopen_try : Disk → ℕ → ℕ → ℕ → Opened → Opened
unfolding lacks_space
fopen_try disk i size st_size again =
    if disk.opens i
    then (if disk.fstat_ok i
        then (if ltb size st_size then again else enough_space disk size st_size)
        else some st_size)
    else none

-- The data is emptied at most once, since no file is smaller than that.
unfoldable pub fopen_again : Disk → ℕ → ℕ → Opened
unfolding fopen_try
fopen_again disk size st_size =
    fopen_try disk 0 size st_size (if disk.empties then fopen_try disk 1 size 0 none else none)

abbrev pub dt_size : Partial → ℕ
dt_size p = elim p.dt as (λ x. ℕ) [ none ↦ 0 | some (size, age) ↦ size ]

unfoldable pub fopen_from : Disk → ℕ → TmpName × List Partial → Opened
unfolding fopen_again
fopen_from disk size (tmp_none, dir) = none
fopen_from disk size (tmp_found p, dir) = fopen_again disk size (dt_size p)
fopen_from disk size (tmp_created p, dir) = fopen_again disk size (dt_size p)

unfoldable pub inb_fopen : Disk → Inbox → State → List Partial → Opened
unfolding find_tmp_name fopen_from
inb_fopen disk io s dir = fopen_from disk s.in_file.size (find_tmp_name io (some s.in_file) s dir)

abbrev Free : ℕ → ℕ → Option ℕ → Type 0
Free freespace left none = Unit
Free freespace left (some req) = left + req ≤ freespace

-- The data is no larger than the file, and there is space for the rest of it.
abbrev pub FitsDisk : Disk → ℕ → Opened → Type 0
FitsDisk disk size none = Unit
FitsDisk disk size (some n) = (n ≤ size) × Free disk.freespace (kbytes_left size n) disk.req_free

lacks_space-Free :
    (disk : Disk) (size n : ℕ)
    → lacks_space disk size n ≡ false
    → Free disk.freespace (kbytes_left size n) disk.req_free
unfolding lacks_space
lacks_space-Free disk size n = by_req disk.req_free
  where
    by_req :
        (r : Option ℕ)
        → elim r as (λ x. Bool) [
          | none ↦ false
          | some req ↦ ltb disk.freespace (kbytes_left size n + req)
        ]
          ≡ false
        → Free disk.freespace (kbytes_left size n) r
    by_req none h = tt
    by_req (some req) h = ground (arith, h)

fopen_try-FitsDisk :
    (disk : Disk) (i size n : ℕ) (again : Opened)
    → disk.fstat_ok i ≡ true
    → FitsDisk disk size again
    → FitsDisk disk size (fopen_try disk i size n again)
unfolding fopen_try
fopen_try-FitsDisk disk i size n again ok h =
    if_ind (FitsDisk disk size) (disk.opens i)
      (λ o. rw ok (
        if_ind (FitsDisk disk size) (ltb size n) (λ e. h)
          (λ e.
            if_ind (FitsDisk disk size) (lacks_space disk size n) (λ k. tt)
              (λ k. (ground (arith, e), lacks_space-Free disk size n k)))))
      (λ o. tt)

fopen_again-FitsDisk :
    (disk : Disk) (size n : ℕ)
    → ((i : ℕ) → disk.fstat_ok i ≡ true)
    → FitsDisk disk size (fopen_again disk size n)
unfolding fopen_again
fopen_again-FitsDisk disk size n ok = fopen_try-FitsDisk disk 0 size n _ (ok 0) (
    if_ind (FitsDisk disk size) disk.empties (λ e. fopen_try-FitsDisk disk 1 size 0 none (ok 1) tt)
      (λ e. tt))

fopen_from-FitsDisk :
    (disk : Disk) (size : ℕ) (r : TmpName × List Partial)
    → ((i : ℕ) → disk.fstat_ok i ≡ true)
    → FitsDisk disk size (fopen_from disk size r)
unfolding fopen_from
fopen_from-FitsDisk disk size (tmp_none, dir) ok = tt
fopen_from-FitsDisk disk size (tmp_found p, dir) ok = fopen_again-FitsDisk disk size (dt_size p) ok
fopen_from-FitsDisk disk size (tmp_created p, dir) ok =
    fopen_again-FitsDisk disk size (dt_size p) ok

-- A file that inb_fopen opens has so far no more bytes than the remote has announced, also where its
-- data was larger, and the disk has the space that is asked for beside the rest of it; fstat succeeds.
pub inb_fopen-FitsDisk :
    (disk : Disk) (io : Inbox) (s : State) (dir : List Partial)
    → ((i : ℕ) → disk.fstat_ok i ≡ true)
    → FitsDisk disk s.in_file.size (inb_fopen disk io s dir)
unfolding inb_fopen
inb_fopen-FitsDisk disk io s dir ok =
    fopen_from-FitsDisk disk s.in_file.size (find_tmp_name io (some s.in_file) s dir) ok
