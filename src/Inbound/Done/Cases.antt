-- ===== src/Inbound/Done/Cases.antt =====
-- inbound.c: the loops that a received file may come to, and the name behind the check of packets.
use mathlib.Core.List.{append_assoc}
use mathlib.Core.Path.{subst}
use binkd.Base.{
  ℕ, zero, suc, ◌-◌, ◌≤◌, Bool, true, false, not, ◌&&◌, [], ◌∷◌, ◌++◌, Option, none, some, Bytes,
  length, take, drop, ◌==◌, if◌then◌else◌, length-append, Bool-cases, ◌≡◌, ◌≢◌, ◌⊎◌, inl, inr, refl,
  ap, sym, ◌∙◌, if_ind, arith,
}
use binkd.Ftnq.{ispkt, isarcmail}
use binkd.Inbound.Name.{with_separator, safe_name, keeps_extension}
use binkd.Inbound.Rename.{rename_body}
use binkd.Inbound.Done.{
  PktCheck, asks_check, checks_header, extension, with_extension, check_pkthdr, Receipt, cursor_at,
  RenameEnd, rename_loop, overwrite_loop, real_name, give_name,
}
use binkd.Inbound.Done.Within.{NoSlash, NoSlash-append, strwipe-NoSlash}
use binkd.Inbound.Done.Pointers.{NoSlash-split, take-length}
use binkd.Protocol.State.{Tfile, State}

-- A body, and an extension of three bytes.
abbrev pub HasBody : Bytes → Type 0
HasBody s = (body ext : Bytes) × (s ≡ body ++ b'.' ∷ ext) × (length ext ≡ 3) × (body ≢ [])

-- The extension for packets that fail the check, if one is set: three bytes or more, no separator.
abbrev pub GoodBad : Option Bytes → Type 0
GoodBad none = Unit
GoodBad (some bad) = NoSlash bad × (3 ≤ length bad)

last_extension :
    (t : Bytes)
    → (extension t ≡ none) ⊎ ((u e : Bytes) × (extension t ≡ some e) × (t ≡ u ++ b'.' ∷ e))
unfolding extension
last_extension [] = inl refl
last_extension (c ∷ s) = elim (last_extension s) [
  | inr (u, e, p, q) ↦ inr (c ∷ u, e, rw p refl, ap (λ (t : Bytes). c ∷ t) q)
  | inl p ↦ elim (Bool-cases (c == b'.')) [
    | inl point ↦ inr ([], s, rw (p, point) refl, ap (λ (d : ℕ). d ∷ s) (ground (arith, point)))
    | inr other ↦ inl (rw (p, other) refl)
  ]
]

-- The last point is in the tail that starts with one.
extension_append :
    (pre t : Bytes)
    → (u e : Bytes) × (extension (pre ++ b'.' ∷ t) ≡ some e) × (b'.' ∷ t ≡ u ++ b'.' ∷ e)
unfolding extension
extension_append [] t = elim (last_extension t) [
  | inl p ↦ ([], t, rw p refl, refl)
  | inr (u, e, p, q) ↦ (b'.' ∷ u, e, rw p refl, ap (λ (s : Bytes). b'.' ∷ s) q)
]
extension_append (c ∷ pre) t = let (u, e, p, q) = extension_append pre t in (u, e, rw p refl, q)

with_extension_append :
    (bad w e : Bytes) → with_extension bad (w ++ e) (some e) ≡ w ++ take (length e) bad
with_extension_append bad w e =
    let at : length (w ++ e) - length e ≡ length w = omega (arith, length-append w e) in
    rw (at, take-length w e) refl

length-take : (n : ℕ) (s : Bytes) → n ≤ length s → length (take n s) ≡ n
length-take zero s h = refl
length-take (suc n) [] h = absurd (omega (arith, h))
length-take (suc n) (c ∷ s) h = omega (arith, length-take n s (omega (arith, h)))

take-NoSlash : (n : ℕ) (s : Bytes) → NoSlash s → NoSlash (take n s)
take-NoSlash zero s h = tt
take-NoSlash (suc n) [] h = tt
take-NoSlash (suc n) (c ∷ s) h = (h.0, take-NoSlash n s h.1)

-- Another text behind the last point keeps the point in front of the extension.
other_tail :
    (u e f ext : Bytes)
    → b'.' ∷ ext ≡ u ++ b'.' ∷ e
    → length f ≡ length e
    → (new : Bytes) × (u ++ b'.' ∷ f ≡ b'.' ∷ new) × (length new ≡ length ext)
other_tail [] e f ext q h = let same : ext ≡ e = cc (q) in (f, refl, h ∙ ap length (sym same))
other_tail (c ∷ u) e f ext q h =
    let point : c ≡ b'.' = cc (q) in
    let same : ext ≡ u ++ b'.' ∷ e = cc (q) in
    (
      u ++ b'.' ∷ f,
      ap (λ (d : ℕ). d ∷ (u ++ b'.' ∷ f)) point,
      omega (arith, length-append u (b'.' ∷ f), length-append u (b'.' ∷ e), ap length same, h),
    )

-- The name with the bad extension.
module _ (bad name_dir body ext : Bytes) (slash : NoSlash bad) (long : 3 ≤ length bad) where
  abbrev Replaced : Bytes → Type 0
  Replaced name =
      (new : Bytes) × (name ≡ name_dir ++ (body ++ b'.' ∷ new)) × (length new ≡ 3) × NoSlash new

  replaced :
      (u e : Bytes)
      → length ext ≡ 3
      → NoSlash ext
      → b'.' ∷ ext ≡ u ++ b'.' ∷ e
      → Replaced (with_extension bad (name_dir ++ (body ++ b'.' ∷ ext)) (some e))
  replaced u e three h q =
      let short : length e ≤ 3 = omega (arith, length-append u (b'.' ∷ e), ap length q, three) in
      let full = length-take (length e) bad (omega (arith, short, long)) in
      let (new, form, size) = other_tail u e (take (length e) bad) ext q full in
      let (front, rest) = NoSlash-split u (b'.' ∷ e) (subst NoSlash q ((refl, omega arith), h)) in
      let parts : NoSlash (u ++ b'.' ∷ take (length e) bad) =
        NoSlash-append u (b'.' ∷ take (length e) bad) front
          ((refl, omega arith), take-NoSlash (length e) bad slash) in
      let w = name_dir ++ (body ++ (u ++ b'.' ∷ [])) in
      let around : (t : Bytes) → name_dir ++ (body ++ (u ++ b'.' ∷ t)) ≡ w ++ t = λ t. sym (
        append_assoc name_dir (body ++ (u ++ b'.' ∷ [])) t
        ∙ ap (λ (x : Bytes). name_dir ++ x)
            (append_assoc body (u ++ b'.' ∷ []) t
              ∙ ap (λ (x : Bytes). body ++ x) (append_assoc u (b'.' ∷ []) t))) in
      let whole : name_dir ++ (body ++ b'.' ∷ ext) ≡ w ++ e =
        ap (λ (x : Bytes). name_dir ++ (body ++ x)) q ∙ around e in
      (
        new,
        ap (λ (x : Bytes). with_extension bad x (some e)) whole
            ∙ (with_extension_append bad w e
                ∙ (sym (around (take (length e) bad))
                    ∙ ap (λ (x : Bytes). name_dir ++ (body ++ x)) form)),
        size ∙ three,
        (subst NoSlash form parts).1,
      )

drop_one :
    (dir body t : Bytes) → body ≢ [] → (pre : Bytes) × (drop 1 (dir ++ (body ++ t)) ≡ pre ++ t)
drop_one [] [] t n = absurd (n refl)
drop_one [] (c ∷ body) t n = (body, refl)
drop_one (c ∷ dir) body t n = (dir ++ body, sym (append_assoc dir body t))

-- The check of a packet changes no more than the extension.
check_pkthdr-Replaced :
    (pkt : PktCheck) (dir body ext : Bytes)
    → GoodBad pkt.pkthdr_bad
    → body ≢ []
    → length ext ≡ 3
    → NoSlash ext
    → (new : Bytes) × (check_pkthdr pkt (dir ++ (body ++ b'.' ∷ ext)) ≡ dir ++ (body ++ b'.' ∷ new))
      × (length new ≡ 3)
      × NoSlash new
unfolding check_pkthdr
check_pkthdr-Replaced pkt dir body ext good n three h = by_bad pkt.pkthdr_bad good
  where
    name : Bytes
    name = dir ++ (body ++ b'.' ∷ ext)

    by_bad :
        (bad : Option Bytes)
        → GoodBad bad
        → (new : Bytes) × ((elim bad as (λ x. Bytes) [
          | none ↦ name
          | some ext' ↦
              if checks_header pkt (asks_check false pkt.nodes)
              then name
              else with_extension ext' name (extension (drop 1 name))
        ])
            ≡ dir ++ (body ++ b'.' ∷ new))
          × (length new ≡ 3)
          × NoSlash new
    by_bad none g = (ext, refl, three, h)
    by_bad (some bad) g =
        let (pre, front) = drop_one dir body (b'.' ∷ ext) n in
        let (u, e, p, q) = extension_append pre ext in
        let last : extension (drop 1 name) ≡ some e = ap extension front ∙ p in
        if_ind
          (λ (t : Bytes).
            (new : Bytes) × (t ≡ dir ++ (body ++ b'.' ∷ new)) × (length new ≡ 3) × NoSlash new)
          (checks_header pkt (asks_check false pkt.nodes)) (λ _. (ext, refl, three, h))
          (λ _. rw last (replaced bad dir body ext g.0 g.1 u e three h q))

pkt_false :
    (pmatch : Bytes → Bytes → Bool) (name : Bytes)
    → keeps_extension pmatch name ≡ false
    → ispkt pmatch name ≡ false
unfolding keeps_extension
pkt_false pmatch name h = ground (arith, h)

-- What holds behind each of the loops holds of the name that is given.
pub give_name_cases :
    (P : RenameEnd → Type 0) (fuel : ℕ) (io : Receipt) (file : Tfile) (s : State)
    → (keeps_extension io.pmatch_ncase file.netname ≡ false)
      ⊎ (GoodBad io.pkt.pkthdr_bad × HasBody (safe_name io.inboundcase file.netname))
    → P (overwrite_loop 11 io.rename_over (real_name io file s) 0)
    → (keeps_extension io.pmatch_ncase file.netname ≡ false
        → P (
            rename_loop fuel io.rename
              (cursor_at (length (safe_name io.inboundcase file.netname)) (real_name io file s))
              io.renamestyle
              (cursor_at 0 (real_name io file s))))
    → ((body ext new : Bytes)
        → safe_name io.inboundcase file.netname ≡ body ++ b'.' ∷ ext
        → length ext ≡ 3
        → length new ≡ 3
        → body ≢ []
        → NoSlash body
        → NoSlash new
        → keeps_extension io.pmatch_ncase file.netname ≡ true
        → P (
            rename_loop fuel io.rename
              (cursor_at (length (safe_name io.inboundcase file.netname)) (real_name io file s))
              rename_body
              (cursor_at 4 (with_separator s.inbound ++ (body ++ b'.' ∷ new)))))
    → P (give_name fuel io file s)
unfolding give_name real_name safe_name
give_name_cases P fuel io file s k over plain kept =
    let safe = safe_name io.inboundcase file.netname in
    let dir = with_separator s.inbound in
    let pkt = ispkt io.pmatch_ncase file.netname in
    let keep = keeps_extension io.pmatch_ncase file.netname in
    let checked : Bytes = if pkt then check_pkthdr io.pkt (dir ++ safe) else dir ++ safe in
    let restart = cursor_at (length safe) (dir ++ safe) in
    let unchecked : keep ≡ false → checked ≡ dir ++ safe =
      λ off. rw (pkt_false io.pmatch_ncase file.netname off) refl in
    let at_body : keep ≡ true
        → P (rename_loop fuel io.rename restart rename_body (cursor_at 4 checked)) =
      λ on. elim k [
        | inl off ↦ absurd (cc (on, off))
        | inr (good, (body, ext, e, three, n)) ↦
            let slash = subst NoSlash e (strwipe-NoSlash _) in
            let (front, rest) = NoSlash-split body (b'.' ∷ ext) slash in
            let Q : Bytes → Type 0 =
              λ t. P (rename_loop fuel io.rename restart rename_body (cursor_at 4 t)) in
            if_ind Q pkt
              (λ _.
                let (new, same, size, h) =
                  check_pkthdr-Replaced io.pkt dir body ext good n three rest.1 in
                subst Q (sym (ap (λ (t : Bytes). check_pkthdr io.pkt (dir ++ t)) e ∙ same))
                  (kept body ext new e three size n front h on))
              (λ _.
                subst Q (sym (ap (λ (t : Bytes). dir ++ t) e))
                  (kept body ext ext e three three n front rest.1 on))
      ] in
    if_ind P (io.overwrite file.netname && not pkt && not (isarcmail io.pmatch_ncase file.netname))
      (λ _. over)
      (λ _. if_ind P keep at_body (λ off.
        subst (λ (t : Bytes). P (rename_loop fuel io.rename restart io.renamestyle (cursor_at 0 t)))
          (sym (unchecked off)) (plain off)))
