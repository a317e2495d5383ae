-- ===== src/Inbound/Done/Search.antt =====
-- inbound.c: the tries that a received file needs until it has a name.
use mathlib.Core.List.{append_assoc, append-nil}
use mathlib.Core.Path.{subst}
use binkd.Base.{
  ℕ, zero, suc, ◌+◌, ◌≤◌, Bool, true, false, [], ◌∷◌, ◌++◌, Bytes, length, ◌≡◌, ◌≢◌, ◌⊎◌, inl, refl,
  ap, sym, ◌∙◌, arith,
}
use binkd.Inbound.Name.{with_separator, safe_name, keeps_extension}
use binkd.Inbound.Rename.{RenameStyle, rename_postfix, rename_extension, rename_body, Cursor}
use binkd.Inbound.Rename.Count.{z_low, z_high, f_low, f_high}
use binkd.Inbound.Done.{
  Renamed, moved, in_use, failed, Receipt, reverse_onto, cursor_at, RenameEnd, no_fuel, rename_loop,
  overwrite_loop, real_name, give_name,
}
use binkd.Inbound.Done.Cases.{HasBody, GoodBad, give_name_cases}
use binkd.Inbound.Done.Ends.{postfix_tries, first_tries, TriesLeft, rename_loop-TriesLeft}
use binkd.Inbound.Done.Pointers.{cursor_at_append}
use binkd.Protocol.State.{Tfile, State}

-- The tries that are enough for a name in the directory; those of a body have the point four bytes from
-- the end of the name.
abbrev pub tries_of : Bool → RenameStyle → Bytes → ℕ
tries_of true style name = first_tries b'f' f_low f_high [] 0 (cursor_at 4 name).before
tries_of false rename_extension name =
    first_tries b'z' z_low z_high [] 0 (cursor_at 0 name).before + postfix_tries
tries_of false rename_postfix name = postfix_tries
tries_of false rename_body name = postfix_tries

overwrite_loop_ends :
    (tries : ℕ) (rename_over : ℕ → Renamed) (name : Bytes) (i : ℕ)
    → overwrite_loop tries rename_over name i ≢ no_fuel
unfolding overwrite_loop
overwrite_loop_ends zero rename_over name i = λ e. cc (e)
overwrite_loop_ends (suc tries) rename_over name i =
    elim (rename_over i)
      as (λ (r : Renamed).
        (elim r as (λ x. RenameEnd) [
          | moved ↦ RenameEnd.named name
          | failed ↦ RenameEnd.gave_up
          | in_use ↦ overwrite_loop tries rename_over name (suc i)
        ])
        ≢ no_fuel) [
          | moved ↦ λ e. cc (e)
          | failed ↦ λ e. cc (e)
          | in_use ↦ overwrite_loop_ends tries rename_over name (suc i)
        ]

-- The pointer at the point of a name with a body.
body_cursor :
    (dir body ext : Bytes)
    → length ext ≡ 3
    → cursor_at 4 (dir ++ (body ++ b'.' ∷ ext))
      ≡ record { before = reverse_onto (dir ++ body) []; after = b'.' ∷ ext }
body_cursor dir body ext three =
    let four : 4 ≡ length (b'.' ∷ ext) = omega (arith, three) in
    ap (λ (k : ℕ). cursor_at k (dir ++ (body ++ b'.' ∷ ext))) four
    ∙ (ap (λ (t : Bytes). cursor_at (length (b'.' ∷ ext)) t)
          (sym (append_assoc dir body (b'.' ∷ ext)))
        ∙ cursor_at_append (dir ++ body) (b'.' ∷ ext))

end_cursor :
    (name : Bytes) → cursor_at 0 name ≡ record { before = reverse_onto name []; after = [] }
end_cursor name =
    ap (λ (t : Bytes). cursor_at 0 t) (sym (append-nil name)) ∙ cursor_at_append name []

-- A loop at a pointer that is given by an equation.
loop_ends :
    (rename : Bytes → Renamed) (restart cur at : Cursor) (fuel : ℕ) (style : RenameStyle)
    → cur ≡ at
    → TriesLeft style at.before at.after fuel
    → rename_loop fuel rename restart style cur ≢ no_fuel
loop_ends rename restart cur at fuel style e h =
    subst (λ (c : Cursor). rename_loop fuel rename restart style c ≢ no_fuel) (sym e)
      (rename_loop-TriesLeft rename restart fuel fuel style at.before at.after (omega arith) h)

end_tries :
    (style : RenameStyle) (name : Bytes) (fuel : ℕ)
    → style ≢ rename_body
    → tries_of false style name ≤ fuel
    → TriesLeft style (reverse_onto name []) [] fuel
end_tries rename_postfix name fuel b h = omega (arith, h)
end_tries rename_extension name fuel b h =
    subst (λ (t : Bytes). first_tries b'z' z_low z_high [] 0 t + postfix_tries ≤ fuel)
      (ap (λ (c : Cursor). c.before) (end_cursor name)) h
end_tries rename_body name fuel b h = absurd (b refl)

-- inb_done's search for the name of a received file ends, whichever names are in use and whatever
-- the check of packets says: with the tries of `tries_of`, which are counted from the name alone,
-- it does not run out. The style of rename-style is not RENAME_BODY, and where an extension is
-- kept, the name is a body with an extension of three bytes, and the extension for packets that
-- fail the check, if one is set, is of three bytes or more with no separator.
pub give_name-ends :
    (fuel : ℕ) (io : Receipt) (file : Tfile) (s : State)
    → io.renamestyle ≢ rename_body
    → (keeps_extension io.pmatch_ncase file.netname ≡ false)
      ⊎ (GoodBad io.pkt.pkthdr_bad × HasBody (safe_name io.inboundcase file.netname))
    → tries_of (keeps_extension io.pmatch_ncase file.netname) io.renamestyle (real_name io file s)
      ≤ fuel
    → give_name fuel io file s ≢ no_fuel
unfolding real_name
give_name-ends fuel io file s b k h =
    let dir = with_separator s.inbound in
    let name = real_name io file s in
    let style = io.renamestyle in
    let enough : (keep : Bool)
        → keeps_extension io.pmatch_ncase file.netname ≡ keep
        → tries_of keep style name ≤ fuel =
      λ keep e. subst (λ (x : Bool). tries_of x style name ≤ fuel) e h in
    give_name_cases (λ r. r ≢ no_fuel) fuel io file s k
      (overwrite_loop_ends 11 io.rename_over name 0)
      (λ off.
        loop_ends io.rename _ _ _ fuel style (end_cursor name)
          (end_tries style name fuel b (enough false off)))
      (λ body ext new e three size left front slash on.
        let at : (cursor_at 4 name).before ≡ reverse_onto (dir ++ body) [] =
          ap (λ (t : Bytes). (cursor_at 4 (dir ++ t)).before) e
          ∙ ap (λ (c : Cursor). c.before) (body_cursor dir body ext three) in
        loop_ends io.rename _ _ _ fuel rename_body (body_cursor dir body new size) (
          inl (
            new,
            refl,
            subst (λ (t : Bytes). first_tries b'f' f_low f_high [] 0 t ≤ fuel) at (enough true on),
          )))
