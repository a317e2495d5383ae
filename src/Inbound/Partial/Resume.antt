-- ===== src/Inbound/Partial/Resume.antt =====
-- inbound.c: a partial file that was begun is found again.
use mathlib.Core.List.{append_assoc}
use mathlib.Core.Path.{subst}
use binkd.Base.{
  ℕ, Bool, true, false, List, [], ◌∷◌, ◌++◌, Option, none, some, Bytes, bytes_eq, bytes_eq_iff,
  get_elem?, ◌/◌, ◌==◌, ◌≡◌, refl, ap, sym, ◌∙◌, arith,
}
use binkd.Base.Int.{pos, eqb_ℤ_iff}
use binkd.Ftn.{FtnAddr}
use binkd.Ftn.Compare.{same_address, IsCString, ftnaddress_cmp, ftnaddress_cmp_zero}
use binkd.Ftn.Parse.{parse_ftnaddress}
use binkd.Ftn.Print.{xftnaddress_to_str}
use binkd.Getw.{getwordx}
use binkd.Getw.Words.{PlainWord, word_of, getwordx-join_words}
use binkd.Protocol.State.{Tfile, State}
use binkd.Text.Args.{join_words}
use binkd.Inbound.Partial.{
  Partial, Inbox, is_hr, noesc, got_word, hr_word, is_one_of, whose, of_active, describes, word_at,
  HrAct, keeps, removes, resumes, refuses, act_on_words, act_on_address, act_on_line, act_on,
  HrSearch, resumed, not_there, refused, found_by, search_hr, hr_line, new_partial, creat_tmp_name,
  TmpName, tmp_found, tmp_created, find_from, find_tmp_name,
}

-- The description of the file can be read back: its words stand for themselves, and the numbers and
-- the address are read as they were printed.
pub record Describable (io : Inbox) (file : Tfile) (fa : FtnAddr) : Type 0 where
  pub netname_word : PlainWord noesc file.netname
  pub size_word : PlainWord noesc (io.env.print_umax file.size)
  pub time_word : PlainWord noesc (io.env.print_umax file.time)
  pub node_word : PlainWord noesc (xftnaddress_to_str fa false)
  pub size_read : io.env.strtoumax (io.env.print_umax file.size) ≡ file.size
  pub time_read : io.env.safe_atol (io.env.print_umax file.time) ≡ file.time
  pub node_read : parse_ftnaddress (xftnaddress_to_str fa false) io.domains ≡ some fa
  pub domain_text : IsCString fa.domain

module _ (io : Inbox) (file : Tfile) (fa : FtnAddr) (d : Describable io file fa) where
  abbrev words : List Bytes
  words =
      file.netname
      ∷ io.env.print_umax file.size
      ∷ io.env.print_umax file.time
      ∷ xftnaddress_to_str fa false
      ∷ []

  hr_line_words :
      (others : List FtnAddr) → hr_line io.env file (fa ∷ others) ≡ join_words words ++ 10 ∷ []
  unfolding hr_line
  hr_line_words others =
      let node = xftnaddress_to_str fa false in
      let time = io.env.print_umax file.time in
      let size = io.env.print_umax file.size in
      sym (
        append_assoc file.netname (b' ' ∷ (size ++ b' ' ∷ (time ++ b' ' ∷ node))) (10 ∷ [])
        ∙ ap (λ (t : Bytes). file.netname ++ b' ' ∷ t)
            (append_assoc size (b' ' ∷ (time ++ b' ' ∷ node)) (10 ∷ [])
              ∙ ap (λ (t : Bytes). size ++ b' ' ∷ t) (append_assoc time (b' ' ∷ node) (10 ∷ []))))

  hr_word_read :
      (n : ℕ) (w : Bytes) (others : List FtnAddr)
      → get_elem? words n ≡ some w
      → hr_word n (hr_line io.env file (fa ∷ others)) ≡ some w
  unfolding hr_word
  hr_word_read n w others e =
      ap (λ (t : Bytes). got_word (getwordx noesc n t)) (hr_line_words others)
      ∙ ap got_word (
          getwordx-join_words noesc n words (10 ∷ []) refl
            (d.netname_word, (d.size_word, (d.time_word, (d.node_word, tt)))) (refl, tt)
          ∙ ap word_of e)

  same_self : same_address fa fa ≡ true
  unfolding same_address
  same_self =
      (eqb_ℤ_iff (ftnaddress_cmp fa fa) (pos 0)).1
        ((ftnaddress_cmp_zero fa fa d.domain_text d.domain_text).1 (refl, refl, refl, refl, refl))

  own_active :
      (others : List FtnAddr) → whose io (fa ∷ others) (xftnaddress_to_str fa false) ≡ of_active
  unfolding whose is_one_of
  own_active others = rw (d.node_read) (rw same_self refl)

  words_resume :
      (p : Partial) (skip_all : Bool)
      → act_on_words io
          (some file)
          skip_all
          p
          of_active
          file.netname
          (io.env.print_umax file.size)
          (io.env.print_umax file.time)
        ≡ resumes
  unfolding act_on_words describes
  words_resume p skip_all =
      let same : bytes_eq file.netname file.netname ≡ true =
        (bytes_eq_iff file.netname file.netname).1 refl in
      let size : (file.size == file.size) ≡ true = ground arith in
      let time : (file.time / 2 == file.time / 2) ≡ true = ground arith in
      rw (same, d.size_read, d.time_read) (rw (size, time) refl)

  word_at_read :
      (n : ℕ) (w : Bytes) (others : List FtnAddr)
      → get_elem? words n ≡ some w
      → word_at n (hr_line io.env file (fa ∷ others)) ≡ w
  word_at_read n w others e =
      ap (λ (o : Option Bytes). elim o as (λ x. Bytes) [ none ↦ [] | some v ↦ v ])
        (hr_word_read n w others e)

  line_resumes :
      (s : State) (p : Partial) (others more : List FtnAddr)
      → s.fa ≡ fa ∷ others
      → act_on_line io (some file) s p (some (hr_line io.env file (fa ∷ more))) ≡ resumes
  unfolding act_on_line act_on_address
  line_resumes s p others more e =
      let own : whose io s.fa (xftnaddress_to_str fa false) ≡ of_active =
        ap (λ (fas : List FtnAddr). whose io fas (xftnaddress_to_str fa false)) e
        ∙ own_active others in
      let netname = word_at_read 0 file.netname more refl in
      let size = word_at_read 1 (io.env.print_umax file.size) more refl in
      let time = word_at_read 2 (io.env.print_umax file.time) more refl in
      rw (hr_word_read 3 (xftnaddress_to_str fa false) more refl)
        (rw (own, netname, size, time) (words_resume p s.skip_all_flag))

  new_resumes :
      (s : State) (others : List FtnAddr) (name : Bytes)
      → s.fa ≡ fa ∷ others
      → is_hr name ≡ true
      → act_on io (some file) s (new_partial io file s name) ≡ resumes
  unfolding act_on
  new_resumes s others name e h =
      let p = new_partial io file s name in
      rw h (
        ap
          (λ (fas : List FtnAddr).
            act_on_line io (some file) s p (some (hr_line io.env file (fas ++ io.busy))))
          e
        ∙ line_resumes s p others (others ++ io.busy) e)

-- What is left where nothing was found is searched again without a change, up to a new entry.
module _ (io : Inbox) (file : Tfile) (s : State) (p : Partial) where
  found_again :
      (q : Partial) (dir : List Partial) (a : HrAct) (r : HrSearch × List Partial)
      → act_on io (some file) s q ≡ a
      → (found_by a q dir r).0 ≡ not_there
      → (r.0 ≡ not_there → search_hr io (some file) s (r.1 ++ p ∷ []) ≡ (resumed p, r.1 ++ p ∷ []))
      → search_hr io (some file) s ((found_by a q dir r).1 ++ p ∷ [])
        ≡ (resumed p, (found_by a q dir r).1 ++ p ∷ [])
  unfolding search_hr
  found_again q dir keeps (r, rest) e h ih = rw (e, ih h) refl
  found_again q dir removes (r, rest) e h ih = ih h
  found_again q dir resumes r e h ih = absurd (cc (h))
  found_again q dir refuses r e h ih = absurd (cc (h))

  search_again :
      (dir : List Partial)
      → act_on io (some file) s p ≡ resumes
      → (search_hr io (some file) s dir).0 ≡ not_there
      → search_hr io (some file) s ((search_hr io (some file) s dir).1 ++ p ∷ [])
        ≡ (resumed p, (search_hr io (some file) s dir).1 ++ p ∷ [])
  unfolding search_hr
  search_again [] e h = rw e refl
  search_again (q ∷ dir) e h =
      found_again q dir (act_on io (some file) s q) (search_hr io (some file) s dir) refl h
        (search_again dir e)

module _ (io : Inbox) (file : Tfile) (s : State) where
  created_from :
      (name : Bytes) (r : HrSearch × List Partial)
      → r.0 ≡ not_there
      → io.new_hr r.1 ≡ some name
      → find_from io (some file) s r
        ≡ (tmp_created (new_partial io file s name), r.1 ++ new_partial io file s name ∷ [])
  unfolding find_from
  created_from name (not_there, dir) h e = rw (e, creat_tmp_name) refl
  created_from name (resumed p, dir) h e = absurd (cc (h))
  created_from name (refused, dir) h e = absurd (cc (h))

  found_from :
      (p : Partial) (dir : List Partial)
      → search_hr io (some file) s dir ≡ (resumed p, dir)
      → find_from io (some file) s (search_hr io (some file) s dir) ≡ (tmp_found p, dir)
  unfolding find_from
  found_from p dir e = rw e refl

  find_open :
      (dir : List Partial)
      → io.opendir_ok ≡ true
      → find_tmp_name io (some file) s dir
        ≡ find_from io (some file) s (search_hr io (some file) s dir)
  unfolding find_tmp_name
  find_open dir e = rw e refl

-- Where find_tmp_name finds no .hr of a file and makes one, it finds that one when it is called again
-- for the file, and changes the directory no more: the file is resumed. The description can be read
-- back, and the name that is made is that of a .hr.
pub find_tmp_name-find_tmp_name :
    (io : Inbox) (file : Tfile) (fa : FtnAddr) (others : List FtnAddr) (s : State)
    (dir : List Partial) (name : Bytes)
    → Describable io file fa
    → s.fa ≡ fa ∷ others
    → io.opendir_ok ≡ true
    → (search_hr io (some file) s dir).0 ≡ not_there
    → io.new_hr (search_hr io (some file) s dir).1 ≡ some name
    → is_hr name ≡ true
    → let left = (find_tmp_name io (some file) s dir).1 in
      ((find_tmp_name io (some file) s dir).0 ≡ tmp_created (new_partial io file s name))
      × (find_tmp_name io (some file) s left ≡ (tmp_found (new_partial io file s name), left))
find_tmp_name-find_tmp_name io file fa others s dir name d e open_ok h made hr =
    let p = new_partial io file s name in
    let r = search_hr io (some file) s dir in
    let left = r.1 ++ p ∷ [] in
    let first = find_open io file s dir open_ok ∙ created_from io file s name r h made in
    let again = search_again io file s p dir (new_resumes io file fa d s others name e hr) h in
    let second = find_open io file s left open_ok ∙ found_from io file s p left again in
    (
      ap (λ (t : TmpName × List Partial). t.0) first,
      subst (λ (l : List Partial). find_tmp_name io (some file) s l ≡ (tmp_found p, l))
          (sym (ap (λ (t : TmpName × List Partial). t.1) first)) second,
    )
