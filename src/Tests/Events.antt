-- ===== src/Tests/Events.antt =====
-- srif.c: two events that ask for one flag file.
use binkd.Base.{
  Bool, true, false, [], ◌∷◌, none, some, Bytes, codes, All, bytes_eq, ◌≡◌, refl, arith,
}
use binkd.Events.{EvtFlag, creates, evt_test, evt_set}
use binkd.Events.Once.{times, CreatedOnce, delayed, evt_test-CreatedOnce}

abbrev any_name : Bytes → Bytes → Bool
any_name mask name = true

abbrev mail_event : EvtFlag
mail_event = record {
  pattern = codes "*.pkt";
  path = some (codes "/flag");
  command = none;
  imm = false;
}

abbrev all_event : EvtFlag
all_event = record mail_event { pattern = codes "*" }

evt_test-CreatedOnce_example :
    All
      (λ f.
        CreatedOnce any_name
          (codes "1.pkt")
          (evt_test any_name [] (codes "1.pkt") (mail_event ∷ all_event ∷ [])).eq
          (delayed (any_name f.pattern (codes "1.pkt")) f.path f.imm))
      (mail_event ∷ all_event ∷ [])
unfolding times
evt_test-CreatedOnce_example =
    evt_test-CreatedOnce any_name [] (codes "1.pkt") (mail_event ∷ all_event ∷ [])
      (λ q. omega arith)

evt_run :
    evt_set (evt_test any_name [] (codes "1.pkt") (mail_event ∷ all_event ∷ [])).eq
    ≡ creates (codes "/flag") ∷ []
unfolding evt_test evt_set bytes_eq
evt_run = refl
