-- ===== src/Protocol/Tfiles/Find.antt =====
-- protocol.c: the search for a file in the queue of the files that were sent.
use binkd.Base.{
  ℕ, suc, true, List, [], ◌∷◌, Bytes, Option, none, some, Bool-cases, get_elem?, inl, inr, ◌≡◌,
  refl,
}
use binkd.Protocol.State.{Tfile}
use binkd.Protocol.Tfiles.{tfile_same, find_sent}

-- `t` stands at place `n` and agrees with the name, the size and the time.
abbrev pub FoundAt : Bytes → ℕ → ℕ → List Tfile → Option (ℕ × Tfile) → Type 0
FoundAt netname size time files none = Unit {0}
FoundAt netname size time files (some (n, t)) =
    (get_elem? files n ≡ some t) × (tfile_same t netname size time ≡ true)

abbrev later_place : Option (ℕ × Tfile) → Option (ℕ × Tfile)
later_place none = none
later_place (some (n, u)) = some (suc n, u)

found_later :
    (netname : Bytes) (size time : ℕ) (t : Tfile) (files : List Tfile) (o : Option (ℕ × Tfile))
    → FoundAt netname size time files o
    → FoundAt netname size time (t ∷ files) (elim o [ none ↦ none | some (n, u) ↦ some (suc n, u) ])
found_later netname size time t files none h = tt
found_later netname size time t files (some (n, u)) h = h

pub find_sent-FoundAt :
    (netname : Bytes) (size time : ℕ) (files : List Tfile)
    → FoundAt netname size time files (find_sent netname size time files)
unfolding find_sent
find_sent-FoundAt netname size time [] = tt
find_sent-FoundAt netname size time (t ∷ files) =
    elim (Bool-cases (tfile_same t netname size time)) [
      | inl same ↦ rw same (refl, same)
      | inr other ↦ rw other (
          found_later netname size time t files (find_sent netname size time files)
            (find_sent-FoundAt netname size time files))
    ]
