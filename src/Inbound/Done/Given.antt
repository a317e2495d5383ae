-- ===== src/Inbound/Done/Given.antt =====
-- inbound.c: a received file stays within the inbound directory.
use mathlib.Core.List.{append-nil}
use mathlib.Core.Path.{subst}
use binkd.Base.{
  ℕ, zero, suc, false, [], ◌∷◌, ◌++◌, Option, none, some, Bytes, length, All-append, ◌==◌, ◌≡◌, ◌≢◌,
  ◌⊎◌, inl, refl, ap, sym, ◌∙◌, if_ind, ◌<◌, arith,
}
use binkd.Text.{c_string}
use binkd.Ftn.Compare.{IsCString}
use binkd.Inbound.Name.{ends_in_slash, with_separator, safe_name, keeps_extension}
use binkd.Inbound.Rename.{
  RenameStyle, rename_postfix, rename_extension, rename_body, Cursor, next_inb_filename,
}
use binkd.Inbound.Done.{
  Renamed, moved, in_use, failed, Receipt, reverse_onto, cursor_at, cursor_text, next_try,
  RenameEnd, named, gave_up, no_fuel, after_rename, rename_loop, overwrite_loop, real_name,
  give_name,
}
use binkd.Inbound.Done.Within.{
  NoSlash, CursorIn, NextIn, Counts, EndsDir, strwipe-NoSlash, next_inb_filename-NextIn,
}
use binkd.Protocol.State.{Tfile, State}
use binkd.Inbound.Done.Cases.{HasBody, GoodBad, give_name_cases}
use binkd.Inbound.Done.Pointers.{
  reverse_onto-NoSlash, reverse_onto-append, reverse_onto-twice, reverse_onto_nonempty,
  separator-EndsDir, cursor_at-CursorIn,
}

-- A name that is given is one directly in the directory.
abbrev pub StaysIn : Bytes → RenameEnd → Type 0
StaysIn dir (named text) = (name : Bytes) × (text ≡ dir ++ name) × NoSlash name
StaysIn dir gave_up = Unit
StaysIn dir no_fuel = Unit

c_string-whole : (s : Bytes) → IsCString s → c_string s ≡ s
unfolding c_string
c_string-whole [] h = refl
c_string-whole (c ∷ s) h =
    let nonzero : (c == 0) ≡ false = ground (arith, h.0) in rw (nonzero, c_string-whole s h.1) refl

NoSlash-IsCString : (s : Bytes) → NoSlash s → IsCString s
NoSlash-IsCString [] h = tt
NoSlash-IsCString (c ∷ s) h = (h.0.1, NoSlash-IsCString s h.1)

separator-IsCString : (inbound : Bytes) → IsCString inbound → IsCString (with_separator inbound)
unfolding with_separator
separator-IsCString inbound h =
    if_ind IsCString (ends_in_slash inbound) (λ _. h)
      (λ _. All-append (λ c. 0 < c) inbound (b'/' ∷ []) h (omega arith, tt))

module _ (dir : Bytes) (ends : EndsDir (reverse_onto dir [])) (c_dir : IsCString dir) where
  text_stays :
      (style : RenameStyle) (cur : Cursor)
      → CursorIn (reverse_onto dir []) style cur
      → StaysIn dir (named (cursor_text cur))
  unfolding reverse_onto cursor_text
  text_stays style cur h =
      let (front, e, slash, after, counts) = h in
      let name = reverse_onto front cur.after in
      let inside : NoSlash name = reverse_onto-NoSlash front cur.after slash after in
      let whole : reverse_onto cur.before cur.after ≡ dir ++ name =
        ap (λ (t : Bytes). reverse_onto t cur.after) e
        ∙ (reverse_onto-append front (reverse_onto dir []) cur.after
            ∙ reverse_onto-twice dir [] name) in
      (
        name,
        ap c_string whole
            ∙ c_string-whole (dir ++ name)
                (All-append (λ c. 0 < c) dir name c_dir (NoSlash-IsCString name inside)),
        inside,
      )

  -- The next try is one in the directory.
  abbrev TryIn : Option (RenameStyle × Cursor) → Type 0
  TryIn none = Unit
  TryIn (some (style, cur)) = CursorIn (reverse_onto dir []) style cur

  next_try-TryIn :
      (restart : Cursor) (style : RenameStyle) (next : Option Cursor)
      → CursorIn (reverse_onto dir []) rename_postfix restart
      → NextIn (reverse_onto dir []) style next
      → TryIn (next_try restart style next)
  unfolding next_try
  next_try-TryIn restart style (some cur) r h = h
  next_try-TryIn restart rename_extension none r h = r
  next_try-TryIn restart rename_postfix none r h = tt
  next_try-TryIn restart rename_body none r h = tt

  next_in :
      (style : RenameStyle) (cur : Cursor)
      → CursorIn (reverse_onto dir []) style cur
      → NextIn (reverse_onto dir []) style (next_inb_filename style cur)
  next_in style cur (front, e, slash, after, counts) =
      subst
        (λ (b : Bytes).
          NextIn (reverse_onto dir []) style
            (next_inb_filename style (record { before = b; after = cur.after })))
        (sym e)
        (next_inb_filename-NextIn (reverse_onto dir []) ends style front cur.after slash after
          counts)

  after_rename-StaysIn :
      (more : RenameStyle → Cursor → RenameEnd) (text : Bytes) (r : Renamed)
      (next : Option (RenameStyle × Cursor))
      → ((style : RenameStyle) (cur : Cursor)
          → CursorIn (reverse_onto dir []) style cur
          → StaysIn dir (more style cur))
      → StaysIn dir (named text)
      → TryIn next
      → StaysIn dir (after_rename more text r next)
  unfolding after_rename
  after_rename-StaysIn more text moved next f h k = h
  after_rename-StaysIn more text failed next f h k = tt
  after_rename-StaysIn more text in_use none f h k = tt
  after_rename-StaysIn more text in_use (some (style, cur)) f h k = f style cur k

  rename_loop-StaysIn :
      (fuel : ℕ) (rename : Bytes → Renamed) (restart : Cursor) (style : RenameStyle) (cur : Cursor)
      → CursorIn (reverse_onto dir []) rename_postfix restart
      → CursorIn (reverse_onto dir []) style cur
      → StaysIn dir (rename_loop fuel rename restart style cur)
  unfolding rename_loop
  rename_loop-StaysIn zero rename restart style cur r h = tt
  rename_loop-StaysIn (suc fuel) rename restart style cur r h =
      after_rename-StaysIn (λ style' cur'. rename_loop fuel rename restart style' cur') _ _ _
        (λ style' cur' k. rename_loop-StaysIn fuel rename restart style' cur' r k)
        (text_stays style cur h) (next_try-TryIn restart style _ r (next_in style cur h))

  overwrite_loop-StaysIn :
      (tries : ℕ) (rename_over : ℕ → Renamed) (name : Bytes) (i : ℕ)
      → StaysIn dir (named name)
      → StaysIn dir (overwrite_loop tries rename_over name i)
  unfolding overwrite_loop
  overwrite_loop-StaysIn zero rename_over name i h = tt
  overwrite_loop-StaysIn (suc tries) rename_over name i h =
      elim (rename_over i)
        as (λ (r : Renamed). StaysIn dir (elim r as (λ x. RenameEnd) [
          | moved ↦ named name
          | failed ↦ gave_up
          | in_use ↦ overwrite_loop tries rename_over name (suc i)
        ])) [
          | moved ↦ h
          | failed ↦ tt
          | in_use ↦ overwrite_loop-StaysIn tries rename_over name (suc i) h
        ]

module _ (io : Receipt) (file : Tfile) (s : State) where
  abbrev safe : Bytes
  safe = safe_name io.inboundcase file.netname

  abbrev dir : Bytes
  dir = with_separator s.inbound

  safe_slash : NoSlash safe
  unfolding safe_name
  safe_slash = strwipe-NoSlash _

  restart_in : CursorIn (reverse_onto dir []) rename_postfix (cursor_at (length safe) (dir ++ safe))
  unfolding reverse_onto
  restart_in = cursor_at-CursorIn dir [] safe rename_postfix tt safe_slash tt

  end_in :
      (style : RenameStyle)
      → Counts style (reverse_onto safe []) []
      → CursorIn (reverse_onto dir []) style (cursor_at 0 (dir ++ safe))
  end_in style c =
      subst (λ (t : Bytes). CursorIn (reverse_onto dir []) style (cursor_at 0 (dir ++ t)))
        (append-nil safe) (cursor_at-CursorIn dir safe [] style safe_slash tt c)

  body_in :
      (body ext : Bytes)
      → length ext ≡ 3
      → body ≢ []
      → NoSlash body
      → NoSlash ext
      → CursorIn (reverse_onto dir []) rename_body (cursor_at 4 (dir ++ (body ++ b'.' ∷ ext)))
  body_in body ext three n front rest =
      let four : length (b'.' ∷ ext) ≡ 4 = omega (arith, three) in
      subst
        (λ (k : ℕ).
          CursorIn (reverse_onto dir []) rename_body (cursor_at k (dir ++ (body ++ b'.' ∷ ext))))
        four
        (cursor_at-CursorIn dir body (b'.' ∷ ext) rename_body front ((refl, omega arith), rest)
          (inl (refl, reverse_onto_nonempty body n)))

  end-Counts :
      (style : RenameStyle)
      → style ≢ rename_body
      → safe ≢ []
      → Counts style (reverse_onto safe []) []
  end-Counts rename_postfix b n = tt
  end-Counts rename_extension b n = inl (refl, reverse_onto_nonempty safe n)
  end-Counts rename_body b n = absurd (b refl)

-- A name that inb_done gives to a received file is one directly in the inbound directory, whatever name
-- the remote gave and whichever names are in use: no separator is in it. The inbound directory is a C
-- string, the style of rename-style is not RENAME_BODY, and the name that is left of the remote's one
-- is not empty; where its extension is kept, it is a body with an extension of three bytes, and the
-- extension for packets that fail the check, if one is set, is of three bytes or more with no separator.
pub give_name-StaysIn :
    (fuel : ℕ) (io : Receipt) (file : Tfile) (s : State)
    → IsCString s.inbound
    → safe_name io.inboundcase file.netname ≢ []
    → io.renamestyle ≢ rename_body
    → (keeps_extension io.pmatch_ncase file.netname ≡ false)
      ⊎ (GoodBad io.pkt.pkthdr_bad × HasBody (safe_name io.inboundcase file.netname))
    → StaysIn (with_separator s.inbound) (give_name fuel io file s)
unfolding real_name
give_name-StaysIn fuel io file s c n b k =
    let dir = with_separator s.inbound in
    let ends = separator-EndsDir s.inbound in
    let c_dir = separator-IsCString s.inbound c in
    give_name_cases (StaysIn dir) fuel io file s k
      (overwrite_loop-StaysIn dir ends c_dir 11 io.rename_over _ 0
        (safe_name io.inboundcase file.netname, refl, safe_slash io file s))
      (λ _.
        rename_loop-StaysIn dir ends c_dir fuel io.rename _ io.renamestyle _ (restart_in io file s)
          (end_in io file s io.renamestyle (end-Counts io file s io.renamestyle b n)))
      (λ body ext new e three size left front h _.
        rename_loop-StaysIn dir ends c_dir fuel io.rename _ rename_body _ (restart_in io file s)
          (body_in io file s body new size left front h))
