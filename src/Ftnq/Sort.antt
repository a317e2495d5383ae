-- ===== src/Ftnq/Sort.antt =====
-- ftnq.c: the order in which the queue is sent.
use mathlib.Core.List.{Perm, perm_middle, append_assoc, append-nil}
use mathlib.Core.List.Perm
use binkd.Base.{
  ◌⊎◌, Bool, true, false, ◌||◌, List, [], ◌∷◌, some, Bytes, All, All-append, ◌≡◌, refl, sym, ◌∙◌,
  ap, Bool-cases, inl, inr, arith, ◌++◌,
}
use binkd.Base.Int.{ℤ, pos, minus_one, eqb_ℤ, eqb_ℤ_iff}
use binkd.Ftn.{FtnAddr, fa_isnull}
use binkd.Ftn.Compare.{o_stricmp, ftnaddress_cmp, same_address}
use binkd.Ftnq.{
  Ftnq, cmp_akas, cmp_address, sent_number, q_cmp, is_positive, q_insert, q_sort_from, q_sort,
}

module _ (pmatch_ncase : Bytes → Bytes → Bool) (akas : List FtnAddr) where
  q_insert-Perm :
      (q : Ftnq) (queue : List Ftnq) → Perm (q_insert pmatch_ncase akas q queue) (q ∷ queue)
  unfolding q_insert
  q_insert-Perm q [] = Perm.refl (q ∷ [])
  q_insert-Perm q (cur ∷ queue) = elim (Bool-cases (is_positive (q_cmp pmatch_ncase cur q akas))) [
    | inl e ↦ rw e (Perm.refl (q ∷ cur ∷ queue))
    | inr e ↦ rw e (Perm.trans (Perm.cons cur (q_insert-Perm q queue)) (Perm.swap q cur queue))
  ]

  q_sort_from-Perm :
      (queue sorted : List Ftnq)
      → Perm (q_sort_from pmatch_ncase akas sorted queue) (sorted ++ queue)
  unfolding q_sort_from
  q_sort_from-Perm [] sorted = rw (append-nil sorted) (Perm.refl sorted)
  q_sort_from-Perm (q ∷ queue) sorted =
      Perm.trans (q_sort_from-Perm queue (q_insert pmatch_ncase akas q sorted)) (
        Perm.trans (Perm.append_right queue (q_insert-Perm q sorted))
          (Perm.symm (perm_middle sorted queue)))

  -- q_sort keeps every element of the queue, as often as it is there, and adds none.
  pub q_sort-Perm : (queue : List Ftnq) → Perm (q_sort pmatch_ncase queue akas) queue
  unfolding q_sort
  q_sort-Perm [] = Perm.refl []
  q_sort-Perm (q ∷ queue) = q_sort_from-Perm queue (q ∷ [])

  -- No sent file stands behind one that is not.
  abbrev pub SentFirst : List Ftnq → Type 0
  SentFirst [] = Unit
  SentFirst (q ∷ queue) = ((q.sent ≡ true) ⊎ All (λ f. f.sent ≡ false) queue) × SentFirst queue

  unsent_rest :
      (q : Ftnq) (queue : List Ftnq)
      → SentFirst (q ∷ queue)
      → q.sent ≡ false
      → All (λ f. f.sent ≡ false) queue
  unsent_rest q queue (inl e, rest) s = absurd (cc (e, s))
  unsent_rest q queue (inr unsent, rest) s = unsent

  insert_unsent :
      (q : Ftnq) (queue : List Ftnq)
      → All (λ f. f.sent ≡ false) queue
      → q.sent ≡ false
      → All (λ f. f.sent ≡ false) (q_insert pmatch_ncase akas q queue)
  unfolding q_insert
  insert_unsent q [] h e = (e, tt)
  insert_unsent q (cur ∷ queue) h e =
      elim (Bool-cases (is_positive (q_cmp pmatch_ncase cur q akas))) [
        | inl p ↦ rw p (e, h)
        | inr p ↦ rw p (h.0, insert_unsent q queue h.1 e)
      ]

  cmp_sent_unsent :
      (a b : Ftnq)
      → a.sent ≡ true
      → b.sent ≡ false
      → is_positive (q_cmp pmatch_ncase a b akas) ≡ false
  unfolding q_cmp sent_number
  cmp_sent_unsent a b h k = rw (h, k) refl

  cmp_unsent_sent :
      (a b : Ftnq)
      → a.sent ≡ false
      → b.sent ≡ true
      → is_positive (q_cmp pmatch_ncase a b akas) ≡ true
  unfolding q_cmp sent_number
  cmp_unsent_sent a b h k = rw (h, k) refl

  cmp_sent :
      (a b : Ftnq)
      → a.sent ≡ true
      → b.sent ≡ true
      → is_positive (q_cmp pmatch_ncase a b akas) ≡ false
  unfolding q_cmp sent_number
  cmp_sent a b h k = rw (h, k) refl

  insert-SentFirst :
      (q : Ftnq) (queue : List Ftnq)
      → SentFirst queue
      → SentFirst (q_insert pmatch_ncase akas q queue)
  unfolding q_insert
  insert-SentFirst q [] h = (inr tt, tt)
  insert-SentFirst q (cur ∷ queue) h = elim (Bool-cases cur.sent) [
    | inl s ↦ elim (Bool-cases q.sent) [
      | inl t ↦ rw (cmp_sent cur q s t) (inl s, insert-SentFirst q queue h.1)
      | inr t ↦ rw (cmp_sent_unsent cur q s t) (inl s, insert-SentFirst q queue h.1)
    ]
    | inr s ↦ elim (Bool-cases q.sent) [
      | inl t ↦ rw (cmp_unsent_sent cur q s t) (inl t, h)
      | inr t ↦ elim (Bool-cases (is_positive (q_cmp pmatch_ncase cur q akas))) [
        | inl p ↦ rw p (inr (s, unsent_rest cur queue h s), h)
        | inr p ↦ rw p (
          inr (insert_unsent q queue (unsent_rest cur queue h s) t),
          insert-SentFirst q queue h.1,
        )
      ]
    ]
  ]

  sort_from-SentFirst :
      (queue sorted : List Ftnq)
      → SentFirst sorted
      → SentFirst (q_sort_from pmatch_ncase akas sorted queue)
  unfolding q_sort_from
  sort_from-SentFirst [] sorted h = h
  sort_from-SentFirst (q ∷ queue) sorted h =
      sort_from-SentFirst queue (q_insert pmatch_ncase akas q sorted) (insert-SentFirst q sorted h)

  -- In the queue that q_sort returns every file that is marked as sent stands in front of every
  -- file that is not.
  pub q_sort-SentFirst : (queue : List Ftnq) → SentFirst (q_sort pmatch_ncase queue akas)
  unfolding q_sort
  q_sort-SentFirst [] = tt
  q_sort-SentFirst (q ∷ queue) = sort_from-SentFirst queue (q ∷ []) (inr tt, tt)

o_stricmp_refl : (s : Bytes) → o_stricmp s s ≡ pos 0
unfolding o_stricmp
o_stricmp_refl [] = refl
o_stricmp_refl (c ∷ s) = ground (arith, o_stricmp_refl s)

eqb_ℤ_refl : (i : ℤ) → eqb_ℤ i i ≡ true
eqb_ℤ_refl i = (eqb_ℤ_iff i i).1 refl

same_address_refl : (a : FtnAddr) → same_address a a ≡ true
unfolding same_address ftnaddress_cmp eqb_ℤ
same_address_refl a =
    rw (o_stricmp_refl a.domain)
      (rw (eqb_ℤ_refl a.z, eqb_ℤ_refl a.net, eqb_ℤ_refl a.node, eqb_ℤ_refl a.p) refl)

-- Whether an address is among those of the session.
unfoldable pub is_aka : FtnAddr → List FtnAddr → Bool
is_aka a [] = false
is_aka a (aka ∷ akas) = same_address a aka || is_aka a akas

cmp_known :
    (a : FtnAddr) (akas : List FtnAddr) → is_aka a akas ≡ true → cmp_akas a a akas ≡ some minus_one
unfolding is_aka cmp_akas
cmp_known a [] h = absurd (cc (h))
cmp_known a (aka ∷ akas) h = ground (arith, cmp_known a akas)

module _ (pmatch_ncase : Bytes → Bytes → Bool) (akas : List FtnAddr) (a : FtnAddr) where
  -- A file for this very address that is not sent yet.
  abbrev pub IsUnsentFor : Ftnq → Type 0
  IsUnsentFor f = (f.fa ≡ a) × (f.sent ≡ false)

  cmp_same :
      (f g : Ftnq)
      → is_aka a akas ≡ true
      → fa_isnull a ≡ false
      → IsUnsentFor f
      → IsUnsentFor g
      → q_cmp pmatch_ncase f g akas ≡ minus_one
  unfolding q_cmp cmp_address
  cmp_same f g h k u v = rw (u.1, v.1, u.0, v.0, same_address_refl a, k, cmp_known a akas h) refl

  insert_same :
      (q : Ftnq) (queue : List Ftnq)
      → is_aka a akas ≡ true
      → fa_isnull a ≡ false
      → All IsUnsentFor queue
      → IsUnsentFor q
      → q_insert pmatch_ncase akas q queue ≡ queue ++ q ∷ []
  unfolding q_insert
  insert_same q [] h k us u = refl
  insert_same q (cur ∷ queue) h k us u =
      rw (cmp_same cur q h k us.0 u) (ap (◌∷◌ cur) (insert_same q queue h k us.1 u))

  sort_from_same :
      (queue sorted : List Ftnq)
      → is_aka a akas ≡ true
      → fa_isnull a ≡ false
      → All IsUnsentFor sorted
      → All IsUnsentFor queue
      → q_sort_from pmatch_ncase akas sorted queue ≡ sorted ++ queue
  unfolding q_sort_from
  sort_from_same [] sorted h k us vs = sym (append-nil sorted)
  sort_from_same (q ∷ queue) sorted h k us vs = rw (insert_same q sorted h k us vs.0) (
      sort_from_same queue (sorted ++ q ∷ []) h k
        (All-append IsUnsentFor sorted (q ∷ []) us (vs.0, tt)) vs.1
      ∙ append_assoc sorted (q ∷ []) queue)

  -- q_sort leaves a queue of files that are not sent, all for one address, as it is, whatever their
  -- types are, where that address is one of the session's and is not the null address.
  pub q_sort_same :
      (queue : List Ftnq)
      → is_aka a akas ≡ true
      → fa_isnull a ≡ false
      → All IsUnsentFor queue
      → q_sort pmatch_ncase queue akas ≡ queue
  unfolding q_sort
  q_sort_same [] h k us = refl
  q_sort_same (q ∷ queue) h k us = sort_from_same queue (q ∷ []) h k (us.0, tt) us.1
