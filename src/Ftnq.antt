-- ===== src/Ftnq.antt =====
-- ftnq.c, ftnq.h, btypes.h: the queue of the files to send. A linked list is the list of its
-- elements, and the flavours, actions and types are letters.
pub mod Flavour
pub mod Sort
pub mod Nodes
pub mod Tries
use Prim.Native.Nat.{ℕ}
use binkd.Base.{
  zero, suc, ◌+◌, Bool, true, false, not, ◌&&◌, ◌||◌, List, [], ◌∷◌, Option, none, some, Bytes,
  codes, ltb, ◌==◌, if◌then◌else◌,
}
use binkd.Base.Int.{ℤ, pos, negsuc, minus_one, sub_ℕ, ◌-ℤ◌}
use binkd.Ftn.{FtnAddr, fa_isnull}
use binkd.Ftn.Compare.{same_address}

-- `FTNQ`
pub record Ftnq : Type 0 where
  pub fa : FtnAddr
  pub flvr : ℕ
  pub action : ℕ
  pub type : ℕ
  pub path : Bytes
  pub size : ℕ
  pub time : ℕ
  pub sent : Bool

-- The masks of file names, by the library's `pmatch_ncase`.
module _ (pmatch_ncase : Bytes → Bytes → Bool) where
  unfoldable pub ispkt : Bytes → Bool
  ispkt s = pmatch_ncase (codes "*.pkt") s

  unfoldable pub istic : Bytes → Bool
  istic s = pmatch_ncase (codes "*.?ic") s

  unfoldable pub isarcmail : Bytes → Bool
  isarcmail s =
      pmatch_ncase (codes "*.su?") s
      || pmatch_ncase (codes "*.mo?") s
      || pmatch_ncase (codes "*.tu?") s
      || pmatch_ncase (codes "*.we?") s
      || pmatch_ncase (codes "*.th?") s
      || pmatch_ncase (codes "*.fr?") s
      || pmatch_ncase (codes "*.sa?") s

  unfoldable pub weight_by_name : Bytes → ℤ
  unfolding ispkt istic isarcmail
  weight_by_name s =
      if ispkt s
      then pos 100
      else if isarcmail s
      then pos 50
      else if istic s
      then negsuc 99
      else pos 0

  unfoldable pub cmp_filebox_files : Ftnq → Ftnq → ℤ
  unfolding weight_by_name ◌-ℤ◌
  cmp_filebox_files a b =
      let w_a = weight_by_name a.path in
      let w_b = weight_by_name b.path in
      elim (w_a -ℤ w_b) [ pos zero ↦ sub_ℕ a.time b.time | _ ↦ w_b -ℤ w_a ]

-- 2. Which of two files for one address comes first; none if the address is not among the `akas`.
unfoldable pub cmp_akas : FtnAddr → FtnAddr → List FtnAddr → Option ℤ
unfolding same_address
cmp_akas a b [] = none
cmp_akas a b (aka ∷ akas) =
    let rest = cmp_akas a b akas in
    if same_address a aka then some minus_one else if same_address b aka then some (pos 1) else rest

unfoldable pub cmp_address : FtnAddr → FtnAddr → List FtnAddr → Option ℤ
unfolding same_address fa_isnull cmp_akas
cmp_address a b akas =
    if same_address a b
    then (if fa_isnull a
        then some minus_one
        else if fa_isnull b
        then some (pos 1)
        else cmp_akas a b akas)
    else none

-- 3. The order of the types.
unfoldable pub cmp_order : ℕ → ℕ → Bytes → Option ℤ
cmp_order a b [] = none
cmp_order a b (t ∷ typeorder) =
    let rest = cmp_order a b typeorder in
    if a == t then some minus_one else if b == t then some (pos 1) else rest

unfoldable pub cmp_type : ℕ → ℕ → Option ℤ
unfolding cmp_order
cmp_type a b = if a == b then none else cmp_order a b (codes "srmld")

abbrev or_then : Option ℤ → ℤ → ℤ
or_then none next = next
or_then (some i) next = i

unfoldable pub sent_number : Bool → ℕ
sent_number sent = if sent then 1 else 0

unfoldable pub q_cmp : (Bytes → Bytes → Bool) → Ftnq → Ftnq → List FtnAddr → ℤ
unfolding cmp_address cmp_type cmp_filebox_files sent_number
q_cmp pmatch_ncase a b akas =
    if a.sent || b.sent
    then sub_ℕ (sent_number b.sent) (sent_number a.sent)
    else or_then (cmp_address a.fa b.fa akas) (
        or_then (cmp_type a.type b.type)
          (if a.type == b'd' && b.type == b'd' then cmp_filebox_files pmatch_ncase a b else pos 0))

-- `i > 0`
abbrev is_positive : ℤ → Bool
is_positive (pos n) = ltb 0 n
is_positive (negsuc n) = false

-- One round of the sort: `q` is put in front of the first element that is greater.
unfoldable pub q_insert : (Bytes → Bytes → Bool) → List FtnAddr → Ftnq → List Ftnq → List Ftnq
unfolding q_cmp
q_insert pmatch_ncase akas q [] = q ∷ []
q_insert pmatch_ncase akas q (cur ∷ queue) =
    let rest = q_insert pmatch_ncase akas q queue in
    if is_positive (q_cmp pmatch_ncase cur q akas) then q ∷ cur ∷ queue else cur ∷ rest

unfoldable pub q_sort_from :
    (Bytes → Bytes → Bool) → List FtnAddr → List Ftnq → List Ftnq → List Ftnq
unfolding q_insert
q_sort_from pmatch_ncase akas sorted [] = sorted
q_sort_from pmatch_ncase akas sorted (q ∷ queue) =
    q_sort_from pmatch_ncase akas (q_insert pmatch_ncase akas q sorted) queue

unfoldable pub q_sort : (Bytes → Bytes → Bool) → List Ftnq → List FtnAddr → List Ftnq
unfolding q_sort_from
q_sort pmatch_ncase [] akas = []
q_sort pmatch_ncase (q ∷ queue) akas = q_sort_from pmatch_ncase akas (q ∷ []) queue

abbrev pub behind : Ftnq → Option (Ftnq × List Ftnq) → Option (Ftnq × List Ftnq)
behind q none = none
behind q (some (file, queue)) = some (file, q ∷ queue)

-- The first file that is not sent, marked, and the queue with it; none at the end.
unfoldable pub select_next_file : List Ftnq → Option (Ftnq × List Ftnq)
select_next_file [] = none
select_next_file (curr ∷ queue) =
    let rest = select_next_file queue in
    let chosen : Ftnq = record curr { sent = true } in
    if curr.sent then behind curr rest else some (chosen, chosen ∷ queue)

unfoldable pub q_freq_num : List Ftnq → ℕ
q_freq_num [] = 0
q_freq_num (curr ∷ queue) = (if curr.type == b'r' then 1 else 0) + q_freq_num queue
