-- ===== src/Events.antt =====
-- srif.c: the queue of events of a session. A flag file that a received file asks for is created at once,
-- or at the end of the session.
pub mod Once
use mathlib.Core.Path.{subst}
use binkd.Base.{
  ℕ, ◌+◌, ◌≤◌, Bool, true, false, ◌&&◌, ◌||◌, List, [], ◌∷◌, Option, none, some, Bytes, All,
  bytes_eq, bytes_eq_iff, ltb, ◌⊎◌, if◌then◌else◌, ◌≡◌, refl, if_ind, Bool-cases, inl, inr, ap, sym,
  ◌∙◌, arith,
}

-- 'f' and 'e'
pub data EvtType : Type 0 where
  evt_f evt_e : EvtType

-- `EVTQ`
pub record Evt : Type 0 where
  pub evt_type : EvtType
  pub path : Bytes

-- `EVT_FLAG`
pub record EvtFlag : Type 0 where
  pub pattern : Bytes
  pub path : Option Bytes
  pub command : Option Bytes
  pub imm : Bool

-- A flag file that is created or touched, or a command.
pub data EvtEffect : Type 0 where
  creates runs : Bytes → EvtEffect

abbrev pub same_type : EvtType → EvtType → Bool
same_type evt_f evt_f = true
same_type evt_e evt_e = true
same_type _ _ = false

unfoldable pub is_queued : EvtType → Bytes → List Evt → Bool
unfolding bytes_eq
is_queued ty path [] = false
is_queued ty path (e ∷ eq) =
    (same_type e.evt_type ty && bytes_eq e.path path) || is_queued ty path eq

unfoldable pub evt_queue : List Evt → EvtType → Bytes → List Evt
unfolding is_queued
evt_queue eq ty path =
    if is_queued ty path eq then eq else record { evt_type = ty; path = path } ∷ eq

-- The queue, the result, and the flag files that are created at once.
pub record EvtTest : Type 0 where
  pub eq : List Evt
  pub rc : Bool
  pub created : List EvtEffect

-- A pattern that matches.
unfoldable pub evt_found : Option Bytes → Option Bytes → Bool → EvtTest → EvtTest
unfolding evt_queue
evt_found (some path) command true t = record t { created = creates path ∷ t.created }
evt_found (some path) command false t = record t { eq = evt_queue t.eq evt_f path }
evt_found none (some command) imm t = record t { rc = true }
evt_found none none imm t = t

-- The last one that is created stands first.
unfoldable pub evt_test_from : (Bytes → Bytes → Bool) → Bytes → List EvtFlag → EvtTest → EvtTest
unfolding evt_found
evt_test_from pmatch_ncase filename [] t = t
evt_test_from pmatch_ncase filename (curr ∷ flags) t =
    evt_test_from pmatch_ncase filename flags (
      if pmatch_ncase curr.pattern filename then evt_found curr.path curr.command curr.imm t else t)

unfoldable pub evt_test : (Bytes → Bytes → Bool) → List Evt → Bytes → List EvtFlag → EvtTest
unfolding evt_test_from
evt_test pmatch_ncase eq filename flags =
    evt_test_from pmatch_ncase filename flags (record { eq = eq; rc = false; created = [] })

abbrev pub effect_of : EvtType → Bytes → EvtEffect
effect_of evt_e path = runs path
effect_of evt_f path = creates path

unfoldable pub evt_set : List Evt → List EvtEffect
evt_set [] = []
evt_set (e ∷ eq) = effect_of e.evt_type e.path ∷ evt_set eq
