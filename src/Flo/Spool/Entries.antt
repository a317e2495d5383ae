-- ===== src/Flo/Spool/Entries.antt =====
-- protocol.c: what remove_from_spool leaves of the entries of a flow file.
use binkd.Base.{
  ℕ, Bool, true, false, ◌&&◌, ◌||◌, List, [], ◌∷◌, Option, Bytes, if◌then◌else◌, ◌≡◌, refl, ap, sym,
  ◌∙◌, if_ind, Bool-cases, inl, inr, arith,
}
use binkd.Flo.{cons_trim, trim_end}
use binkd.Text.{isspace}
use binkd.Flo.Spool.{
  Spool, names_file, is_named, mark, is_blank, is_marked, Scanned, scan_flo, FloFile, no_flo,
  open_flo, closed_flo, locked_flo, deleted_flo, Spooler, close_flo, remove_from_spool,
}

abbrev add_unsent : Bytes → List Bytes → List Bytes
add_unsent buf bufs = if is_blank buf || is_marked buf then bufs else buf ∷ bufs

-- The entries that are not sent: the trimmed lines but for the blank and the marked ones.
unfoldable pub unsent : List Bytes → List Bytes
unfolding trim_end
unsent [] = []
unsent (l ∷ lines) = add_unsent (trim_end l) (unsent lines)

-- No file has no entry.
unfoldable pub entries : FloFile → List Bytes
unfolding unsent
entries (open_flo lines) = unsent lines
entries (closed_flo lines) = unsent lines
entries (locked_flo lines) = unsent lines
entries _ = []

-- The entries but for those of the file.
unfoldable pub others : Option Bytes → List Bytes → List Bytes
unfolding names_file
others file [] = []
others file (buf ∷ bufs) =
    let rest = others file bufs in if is_named file buf then rest else buf ∷ rest

-- The flow file can be opened.
abbrev pub is_opened : FloFile → Bool
is_opened (locked_flo lines) = false
is_opened deleted_flo = false
is_opened _ = true

-- Nothing is done where the flow file cannot be opened.
abbrev pub LeavesSpool : FloFile → Spool → Spool → Type 0
LeavesSpool (locked_flo lines) s t = t ≡ s
LeavesSpool deleted_flo s t = t ≡ s
LeavesSpool _ s t = Unit

marked_after : (s : Bytes) → is_marked (cons_trim b'~' s) ≡ true
unfolding isspace
marked_after [] = refl
marked_after (c ∷ s) = refl

add_marked : (buf : Bytes) (bufs : List Bytes) → is_marked buf ≡ true → add_unsent buf bufs ≡ bufs
add_marked [] bufs e = refl
add_marked (c ∷ buf) bufs e = rw e refl

add_blank : (buf : Bytes) (bufs : List Bytes) → is_blank buf ≡ true → add_unsent buf bufs ≡ bufs
add_blank buf bufs e = rw e refl

add_mark :
    (l : Bytes) (bufs : List Bytes)
    → is_blank (trim_end l) ≡ false
    → add_unsent (trim_end (mark l)) bufs ≡ bufs
unfolding trim_end
add_mark [] bufs e = absurd (cc (e))
add_mark (c ∷ l) bufs e = add_marked (cons_trim b'~' (trim_end l)) bufs (marked_after (trim_end l))

-- A line among the other entries.
others_named :
    (file : Option Bytes) (buf : Bytes) (bufs : List Bytes)
    → is_named file buf ≡ true
    → others file (add_unsent buf bufs) ≡ others file bufs
unfolding others
others_named file buf bufs e =
    if_ind (λ (r : List Bytes). others file r ≡ others file bufs) (is_blank buf || is_marked buf)
      (λ k. refl) (λ k. rw e refl)

others_kept :
    (file : Option Bytes) (buf : Bytes) (bufs : List Bytes)
    → is_named file buf ≡ false
    → others file (add_unsent buf bufs) ≡ add_unsent buf (others file bufs)
unfolding others
others_kept file buf bufs e = elim (Bool-cases (is_blank buf || is_marked buf)) [
  | inl k ↦ rw k refl
  | inr k ↦ rw k (rw e refl)
]

scan_flo-unsent :
    (file : Option Bytes) (lines : List Bytes)
    → unsent (scan_flo file lines).lines ≡ others file (unsent lines)
unfolding unsent scan_flo others
scan_flo-unsent file [] = refl
scan_flo-unsent file (l ∷ lines) =
    let rest = scan_flo-unsent file lines in
    let buf = trim_end l in
    let P = λ (r : Scanned). unsent r.lines ≡ others file (unsent (l ∷ lines)) in
    if_ind P (is_blank buf)
      (λ e. add_blank buf _ e ∙ rest ∙ ap (others file) (sym (add_blank buf (unsent lines) e)))
      (λ e.
        if_ind P (is_named file buf)
          (λ k. add_mark l _ e ∙ rest ∙ sym (others_named file buf (unsent lines) k))
          (λ k. ap (add_unsent buf) rest ∙ sym (others_kept file buf (unsent lines) k)))

abbrev is_none_left : List Bytes → Bool
is_none_left [] = true
is_none_left (buf ∷ bufs) = false

flag_unsent :
    (buf : Bytes) (bufs : List Bytes) (flag : Bool)
    → is_blank buf ≡ false
    → flag ≡ is_none_left bufs
    → is_marked buf && flag ≡ is_none_left (add_unsent buf bufs)
flag_unsent buf bufs flag e h = elim (Bool-cases (is_marked buf)) [
  | inl k ↦ rw (e, k) h
  | inr k ↦ rw (e, k) refl
]

-- The flag tells whether no entry is left.
scan_flo-is_none_left :
    (file : Option Bytes) (lines : List Bytes)
    → (scan_flo file lines).empty_flo_flag ≡ is_none_left (unsent (scan_flo file lines).lines)
unfolding unsent scan_flo
scan_flo-is_none_left file [] = refl
scan_flo-is_none_left file (l ∷ lines) =
    let rest = scan_flo-is_none_left file lines in
    let buf = trim_end l in
    let P = λ (r : Scanned). r.empty_flo_flag ≡ is_none_left (unsent r.lines) in
    if_ind P (is_blank buf) (λ e. rest ∙ ap is_none_left (sym (add_blank buf _ e)))
      (λ e.
        if_ind P (is_named file buf) (λ k. rest ∙ ap is_none_left (sym (add_mark l _ e)))
          (λ k. flag_unsent buf _ _ e rest))

none_left : (bufs : List Bytes) → is_none_left bufs ≡ true → [] ≡ bufs
none_left [] e = refl
none_left (buf ∷ bufs) e = absurd (cc (e))

close_flo-entries :
    (io : Spooler) (flopath : Bytes) (r : Scanned)
    → r.empty_flo_flag ≡ is_none_left (unsent r.lines)
    → entries (close_flo io flopath r) ≡ unsent r.lines
unfolding close_flo entries
close_flo-entries io flopath r e =
    if_ind (λ (flo : FloFile). entries flo ≡ unsent r.lines)
      (r.empty_flo_flag && io.delete_ok flopath)
      (λ k. none_left (unsent r.lines) (sym e ∙ ground (arith, k))) (λ k. refl)

-- Where the flow file can be opened, remove_from_spool leaves exactly its entries that do not name the
-- file, in their order: it deletes a flow file only where no other entry is left. Where it cannot be
-- opened, all entries are left and the function fails, without an action on the file.
pub remove_from_spool-entries :
    (io : Spooler) (flopath : Bytes) (flo : FloFile) (file : Option Bytes) (action : ℕ) (s : Spool)
    → (entries (remove_from_spool io flopath flo file action s).0
        ≡ (if is_opened flo then others file (entries flo) else entries flo))
      × ((remove_from_spool io flopath flo file action s).2 ≡ is_opened flo)
      × LeavesSpool flo s (remove_from_spool io flopath flo file action s).1
unfolding remove_from_spool entries others
remove_from_spool-entries io flopath no_flo file action s = (refl, refl, tt)
remove_from_spool-entries io flopath (open_flo lines) file action s =
    (scan_flo-unsent file lines, refl, tt)
remove_from_spool-entries io flopath deleted_flo file action s = (refl, refl, refl)
remove_from_spool-entries io flopath (locked_flo lines) file action s = (refl, refl, refl)
remove_from_spool-entries io flopath (closed_flo lines) file action s = (
  close_flo-entries io flopath (scan_flo file lines) (scan_flo-is_none_left file lines)
      ∙ scan_flo-unsent file lines,
  refl,
  tt,
)
