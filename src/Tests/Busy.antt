-- ===== src/Tests/Busy.antt =====
-- bsy.c: two processes that call one node.
use binkd.Base.{◌≤◌, true, false, [], ◌∷◌, none, codes, bytes_eq, ◌≡◌, refl, arith}
use binkd.Base.Int.{pos, eqb_ℤ}
use binkd.Ftn.{FtnAddr, fa_isnull}
use binkd.Ftn.Compare.{IsCString}
use binkd.Ftn.RoundTrip.{whole}
use binkd.Busy.{f_bsy, Flags, BusyConfig, bsy_add, bsy_test, on_disk}
use binkd.Busy.Count.{count_if}
use binkd.Busy.Exclusive.{
  held_by_all, Machine, adds, here, there, Reach, boot, fork, later, Reach-held_by_all,
}

abbrev busy_config : BusyConfig
busy_config = record {
  domains =
      record {
        name = codes "net";
        path = codes "/out";
        dir = codes "net";
        z = pos 2;
        idomain = none;
        alias4 = none;
      }
      ∷ [];
  can_create = λ name. true;
}

abbrev node : FtnAddr
node = whole 2 5047 13 0 (codes "net")

abbrev one_adds : Flags
one_adds = (bsy_add busy_config node f_bsy (record { bsy_list = []; files = [] })).0

abbrev other_adds : Flags
other_adds = (bsy_add busy_config node f_bsy (record { bsy_list = []; files = one_adds.files })).0

abbrev both_try : Machine
both_try = record { procs = one_adds.bsy_list ∷ other_adds.bsy_list ∷ []; files = other_adds.files }

both_try-Reach : Reach busy_config both_try
unfolding fa_isnull eqb_ℤ bytes_eq
both_try-Reach =
    let text : IsCString node.domain = (omega arith, (omega arith, (omega arith, tt))) in
    later (record { procs = one_adds.bsy_list ∷ [] ∷ []; files = one_adds.files }) both_try
      (later (record { procs = [] ∷ [] ∷ []; files = [] })
        (record { procs = one_adds.bsy_list ∷ [] ∷ []; files = one_adds.files })
        (fork _ (fork _ (boot [])))
        (here [] one_adds.bsy_list [] one_adds.files ([] ∷ []) (adds node f_bsy text refl)))
      (there one_adds.bsy_list one_adds.files other_adds.files ([] ∷ []) (other_adds.bsy_list ∷ [])
        (here [] other_adds.bsy_list one_adds.files other_adds.files []
          (adds node f_bsy text refl)))

Reach-held_by_all_example :
    held_by_all busy_config (codes "/out/net/13b7000d.bsy") both_try.procs
    ≤ count_if (on_disk (codes "/out/net/13b7000d.bsy") both_try.files)
Reach-held_by_all_example =
    Reach-held_by_all busy_config (codes "/out/net/13b7000d.bsy") both_try both_try-Reach

-- One of them holds it.
held_run : held_by_all busy_config (codes "/out/net/13b7000d.bsy") both_try.procs ≡ 1
unfolding held_by_all bsy_add
held_run = refl

-- The node is not free then.
test_run : bsy_test busy_config node f_bsy one_adds.files ≡ false
unfolding bsy_add bsy_test
test_run = refl
