-- ===== src/Ftnq/Flavour.antt =====
-- ftnq.h, ftnq.c: the priority of flavours.
use binkd.Base.{ℕ, suc, Option, none, some, [], ◌∷◌, Bytes, codes, ltb, ◌==◌, if◌then◌else◌}

-- The place that `strchr` finds, the terminator's too.
unfoldable pub strchr : Bytes → ℕ → Option ℕ
strchr [] c = if c == 0 then some 0 else none
strchr (d ∷ s) c =
    let rest : Option ℕ = elim (strchr s c) [ none ↦ none | some i ↦ some (suc i) ] in
    if c == d then some 0 else rest

-- The pointer as a number: 0 is `NULL`.
unfoldable pub rank : ℕ → ℕ
unfolding strchr
rank flvr = elim (strchr (codes "IiCcDdOoFfHh") flvr) [ none ↦ 0 | some i ↦ suc i ]

-- `MAXFLVR (a, b)`
unfoldable pub max_flvr : ℕ → ℕ → ℕ
unfolding rank
max_flvr a b = if ltb (rank a) (rank b) then a else b
