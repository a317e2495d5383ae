-- ===== src/Inbound/Partial/Foreign.antt =====
-- inbound.c: the search for a partial file leaves the files of other nodes alone.
use binkd.Base.{
  Bool, true, false, not, ◌&&◌, ◌||◌, List, [], ◌∷◌, Option, none, some, Bytes, bytes_eq,
  if◌then◌else◌, ◌≡◌, ◌≢◌, refl, sym, ◌∙◌, if_ind, Bool-cases, inl, inr, arith, All, drop, codes,
}
use binkd.Protocol.State.{Tfile, State}
use binkd.Inbound.Partial.{
  Partial, Inbox, is_hr, hr_word, whose, Whose, of_none, of_active, of_busy, of_other, word_at,
  to_be_deleted, HrAct, keeps, removes, resumes, refuses, act_on_words, act_on_address, act_on_line,
  act_on, HrSearch, found_by, search_hr,
}

abbrev is_of_other : Whose → Bool
is_of_other of_other = true
is_of_other _ = false

-- A line that describes a file of another node, which is not too old.
unfoldable pub is_foreign_address : Inbox → State → Partial → Bytes → Option Bytes → Bool
unfolding whose to_be_deleted
is_foreign_address io s p line none = false
is_foreign_address io s p line (some w3) =
    is_of_other (whose io s.fa w3)
    && not (to_be_deleted io p (some (io.env.strtoumax (word_at 1 line))))

unfoldable pub is_foreign_line : Inbox → State → Partial → Option Bytes → Bool
unfolding hr_word is_foreign_address
is_foreign_line io s p none = false
is_foreign_line io s p (some line) = is_foreign_address io s p line (hr_word 3 line)

unfoldable pub is_foreign : Inbox → State → Partial → Bool
unfolding is_foreign_line
is_foreign io s p = is_foreign_line io s p p.line

-- The partial files of other nodes, in their order.
unfoldable pub foreign_hrs : Inbox → State → List Partial → List Partial
unfolding is_foreign
foreign_hrs io s [] = []
foreign_hrs io s (p ∷ dir) =
    let rest = foreign_hrs io s dir in if is_foreign io s p then p ∷ rest else rest

-- remove_hr deletes the stem of a name with .hr, and with .dt: the entry itself, where its extension is
-- in small letters.
abbrev pub HasSmallExt : Partial → Type 0
HasSmallExt p = is_hr p.d_name ≡ true → drop 8 p.d_name ≡ codes ".hr"

keeps_apart : keeps ≢ removes
keeps_apart e = cc (e)

module _ (io : Inbox) (s : State) where
  words_keeps :
      (file : Option Tfile) (p : Partial) (who : Whose) (w0 w1 w2 : Bytes)
      → is_of_other who && not (to_be_deleted io p (some (io.env.strtoumax w1))) ≡ true
      → act_on_words io file s.skip_all_flag p who w0 w1 w2 ≡ keeps
  unfolding act_on_words
  words_keeps none p of_other w0 w1 w2 h = refl
  words_keeps (some file) p of_other w0 w1 w2 h =
      let old : to_be_deleted io p (some (io.env.strtoumax w1)) ≡ false = ground (arith, h) in
      if_ind (λ (a : HrAct). a ≡ keeps) (bytes_eq w0 file.netname) (λ e. refl) (λ e. rw old refl)
  words_keeps file p of_none w0 w1 w2 h = absurd (cc (h))
  words_keeps file p of_active w0 w1 w2 h = absurd (cc (h))
  words_keeps file p of_busy w0 w1 w2 h = absurd (cc (h))

  address_keeps :
      (file : Option Tfile) (p : Partial) (line : Bytes) (w : Option Bytes)
      → is_foreign_address io s p line w ≡ true
      → act_on_address io file s p line w ≡ keeps
  unfolding is_foreign_address act_on_address
  address_keeps file p line none h = absurd (cc (h))
  address_keeps file p line (some w) h =
      words_keeps file p (whose io s.fa w) (word_at 0 line) (word_at 1 line) (word_at 2 line) h

  line_keeps :
      (file : Option Tfile) (p : Partial) (line : Option Bytes)
      → is_foreign_line io s p line ≡ true
      → act_on_line io file s p line ≡ keeps
  unfolding is_foreign_line act_on_line
  line_keeps file p none h = absurd (cc (h))
  line_keeps file p (some line) h = address_keeps file p line (hr_word 3 line) h

  act_on_keeps :
      (file : Option Tfile) (p : Partial) → is_foreign io s p ≡ true → act_on io file s p ≡ keeps
  unfolding is_foreign act_on
  act_on_keeps file p h =
      if_ind (λ (a : HrAct). a ≡ keeps) (not (is_hr p.d_name) || not p.opens) (λ e. refl)
        (λ e. line_keeps file p p.line h)

  -- A file of another node that is found is kept; else the entry has no part in the foreign ones.
  found_by-foreign :
      (file : Option Tfile) (p : Partial) (dir : List Partial) (a : HrAct)
      (r : HrSearch × List Partial)
      → act_on io file s p ≡ a
      → foreign_hrs io s r.1 ≡ foreign_hrs io s dir
      → foreign_hrs io s (found_by a p dir r).1 ≡ foreign_hrs io s (p ∷ dir)
  unfolding foreign_hrs
  found_by-foreign file p dir keeps (r, rest) e h = rw h refl
  found_by-foreign file p dir resumes (r, rest) e h = refl
  found_by-foreign file p dir refuses (r, rest) e h = refl
  found_by-foreign file p dir removes (r, rest) e h = elim (Bool-cases (is_foreign io s p)) [
    | inl k ↦ absurd (keeps_apart (sym (act_on_keeps file p k) ∙ e))
    | inr k ↦ rw k h
  ]

  -- The search for a partial file of the session, and the removal of all of them, leave the partial
  -- files of other nodes that are not too old as they are, in a directory whose .hr files have the
  -- extension in small letters, as binkd writes it.
  pub search_hr-foreign_hrs :
      (file : Option Tfile) (dir : List Partial)
      → All HasSmallExt dir
      → foreign_hrs io s (search_hr io file s dir).1 ≡ foreign_hrs io s dir
  unfolding search_hr foreign_hrs
  search_hr-foreign_hrs file [] h = refl
  search_hr-foreign_hrs file (p ∷ dir) h =
      found_by-foreign file p dir (act_on io file s p) (search_hr io file s dir) refl
        (search_hr-foreign_hrs file dir h.1)
