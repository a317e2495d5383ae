-- ===== src/Inbound/Done/Pointers.antt =====
-- inbound.c: a pointer into a name behind the inbound directory.
use mathlib.Core.List.{append_assoc}
use mathlib.Core.Path.{subst}
use binkd.Base.{
  ℕ, ◌-◌, true, [], ◌∷◌, ◌++◌, Bytes, length, take, drop, length-append, ◌≡◌, ◌≢◌, refl, ap, sym,
  ◌∙◌, if_ind, arith,
}
use binkd.Inbound.Name.{ends_in_slash, with_separator}
use binkd.Inbound.Rename.{RenameStyle}
use binkd.Inbound.Done.{reverse_onto, cursor_at}
use binkd.Inbound.Done.Within.{NoSlash, CursorIn, Counts, EndsDir}

pub NoSlash-split : (s t : Bytes) → NoSlash (s ++ t) → NoSlash s × NoSlash t
NoSlash-split [] t h = (tt, h)
NoSlash-split (c ∷ s) t h = let (l, r) = NoSlash-split s t h.1 in ((h.0, l), r)

pub reverse_onto-NoSlash : (s t : Bytes) → NoSlash s → NoSlash t → NoSlash (reverse_onto s t)
unfolding reverse_onto
reverse_onto-NoSlash [] t h k = k
reverse_onto-NoSlash (c ∷ s) t h k = reverse_onto-NoSlash s (c ∷ t) h.1 (h.0, k)

pub reverse_onto-append :
    (s t acc : Bytes) → reverse_onto (s ++ t) acc ≡ reverse_onto t (reverse_onto s acc)
unfolding reverse_onto
reverse_onto-append [] t acc = refl
reverse_onto-append (c ∷ s) t acc = reverse_onto-append s t (c ∷ acc)

pub reverse_onto-twice :
    (s acc t : Bytes) → reverse_onto (reverse_onto s acc) t ≡ reverse_onto acc (s ++ t)
unfolding reverse_onto
reverse_onto-twice [] acc t = refl
reverse_onto-twice (c ∷ s) acc t = reverse_onto-twice s (c ∷ acc) t

reverse_onto-acc : (s acc : Bytes) → reverse_onto s acc ≡ reverse_onto s [] ++ acc
unfolding reverse_onto
reverse_onto-acc [] acc = refl
reverse_onto-acc (c ∷ s) acc =
    reverse_onto-acc s (c ∷ acc)
    ∙ sym (
        ap (λ (t : Bytes). t ++ acc) (reverse_onto-acc s (c ∷ []))
        ∙ append_assoc (reverse_onto s []) (c ∷ []) acc)

reverse_onto_more : (s acc : Bytes) (c : ℕ) → reverse_onto s (c ∷ acc) ≢ []
unfolding reverse_onto
reverse_onto_more [] acc c = λ e. cc (e)
reverse_onto_more (d ∷ s) acc c = reverse_onto_more s (c ∷ acc) d

pub reverse_onto_nonempty : (s : Bytes) → s ≢ [] → reverse_onto s [] ≢ []
unfolding reverse_onto
reverse_onto_nonempty [] n = absurd (n refl)
reverse_onto_nonempty (c ∷ s) n = reverse_onto_more s [] c

slash-EndsDir : (s acc : Bytes) → s ≢ [] → ends_in_slash s ≡ true → EndsDir (reverse_onto s acc)
unfolding reverse_onto
slash-EndsDir [] acc n h = absurd (n refl)
slash-EndsDir (c ∷ []) acc n h = ground (arith, h)
slash-EndsDir (c ∷ d ∷ s) acc n h = slash-EndsDir (d ∷ s) (c ∷ acc) (λ e. cc (e)) h

pub separator-EndsDir : (inbound : Bytes) → EndsDir (reverse_onto (with_separator inbound) [])
unfolding with_separator reverse_onto
separator-EndsDir [] = tt
separator-EndsDir (c ∷ s) =
    if_ind (λ (t : Bytes). EndsDir (reverse_onto t [])) (ends_in_slash (c ∷ s))
      (λ e. slash-EndsDir (c ∷ s) [] (λ k. cc (k)) e)
      (λ e. subst EndsDir (sym (reverse_onto-append (c ∷ s) (b'/' ∷ []) [])) refl)

pub take-length : (s t : Bytes) → take (length s) (s ++ t) ≡ s
take-length [] t = refl
take-length (c ∷ s) t = ap (λ (u : Bytes). c ∷ u) (take-length s t)

drop-length : (s t : Bytes) → drop (length s) (s ++ t) ≡ t
drop-length [] t = refl
drop-length (c ∷ s) t = drop-length s t

pub cursor_at_append :
    (s t : Bytes) → cursor_at (length t) (s ++ t) ≡ record { before = reverse_onto s []; after = t }
unfolding cursor_at
cursor_at_append s t =
    let at : length (s ++ t) - length t ≡ length s = omega (arith, length-append s t) in
    rw (at, take-length s t, drop-length s t) refl

-- The pointer stands behind `body` in the name.
pub cursor_at-CursorIn :
    (dir body rest : Bytes) (style : RenameStyle)
    → NoSlash body
    → NoSlash rest
    → Counts style (reverse_onto body []) rest
    → CursorIn (reverse_onto dir []) style (cursor_at (length rest) (dir ++ (body ++ rest)))
unfolding reverse_onto
cursor_at-CursorIn dir body rest style h k c =
    let e =
      ap (λ (t : Bytes). cursor_at (length rest) t) (sym (append_assoc dir body rest))
      ∙ cursor_at_append (dir ++ body) rest in
    subst (CursorIn (reverse_onto dir []) style) (sym e) (
      reverse_onto body [],
      reverse_onto-append dir body [] ∙ reverse_onto-acc body (reverse_onto dir []),
      reverse_onto-NoSlash body [] h tt,
      k,
      c,
    )
