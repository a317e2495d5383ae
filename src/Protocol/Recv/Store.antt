-- ===== src/Protocol/Recv/Store.antt =====
-- protocol.c: the data blocks of a file build up its content.
use mathlib.Core.List.{append-nil}
use binkd.Base.{
  ℕ, zero, suc, ◌+◌, ◌≤◌, ◌<◌, Bool, true, false, List, [], ◌∷◌, ◌++◌, Bytes, length, length-append,
  take, drop, some, not, ◌&&◌, ◌==◌, ltb, Bool-cases, inl, inr, ◌≡◌, refl, ap, ◌∙◌, arith,
}
use binkd.Protocol.Env.{Env}
use binkd.Protocol.State.{File, write_at, State}
use binkd.Protocol.Recv.{store_block, after_write, complete_in}

take-length {ℓ} : {A : Type ℓ} (xs : List A) → take (length xs) xs ≡ xs
take-length [] = refl
take-length (x ∷ xs) = ap (◌∷◌ x) (take-length xs)

drop_beyond {ℓ} : {A : Type ℓ} (n : ℕ) (xs : List A) → length xs ≤ n → drop n xs ≡ []
drop_beyond zero [] h = refl
drop_beyond zero (x ∷ xs) h = absurd (omega arith)
drop_beyond (suc n) [] h = refl
drop_beyond (suc n) (x ∷ xs) h = drop_beyond n xs (omega arith)

-- A file that is open at its end, and a block behind it.
abbrev pub appended : File → Bytes → File
appended g block = record { content = g.content ++ block; offset = length (g.content ++ block) }

write_at_end :
    (g : File) (block : Bytes) → g.offset ≡ length g.content → write_at g block ≡ appended g block
write_at_end g block at_end =
    let whole = ap (λ (n : ℕ). take n g.content) at_end ∙ take-length g.content in
    let none_left : drop (g.offset + length block) g.content ≡ [] =
      drop_beyond (g.offset + length block) g.content (omega arith) in
    let len : g.offset + length block ≡ length (g.content ++ block) =
      omega (arith, length-append g.content block) in
    (λ i. record { content = whole i ++ (block ++ none_left i); offset = len i }) ∙ (λ i. record {
      content = g.content ++ append-nil block i;
      offset = length (g.content ++ block);
    })

module _ (env : Env) (g : File) (block : Bytes) (s : State) (at_end : g.offset ≡ length g.content)
    (disk : env.fwrite_ok s.in_file block ≡ true) where
  abbrev with_block : State
  with_block = record s { in_file = record s.in_file { f = some (appended g block) } }

  writes : (not (length block == 0) && not (env.fwrite_ok s.in_file block)) ≡ false
  writes = rw disk (elim (Bool-cases (length block == 0)) [
    | inl empty ↦ rw empty refl
    | inr full ↦ rw full refl
  ])

  store_block-after_write : store_block env g block s ≡ after_write env (appended g block) s
  unfolding store_block
  store_block-after_write =
      rw writes (ap (λ (f : File). after_write env f s) (write_at_end g block at_end))

  -- A block that leaves the file incomplete is written behind the content, and nothing else
  -- happens.
  pub store_block_more :
      length (g.content ++ block) < s.in_file.size
      → store_block env g block s
        ≡ (record s { in_file = record s.in_file { f = some (appended g block) } }, true)
  unfolding after_write
  store_block_more more =
      let short : (length (g.content ++ block) == s.in_file.size) ≡ false = ground arith in
      let within : ltb s.in_file.size (length (g.content ++ block)) ≡ false = ground arith in
      store_block-after_write ∙ rw short (rw within)

  -- The block that completes the file ends it.
  pub store_block_last :
      length (g.content ++ block) ≡ s.in_file.size
      → store_block env g block s
        ≡ complete_in env (record s { in_file = record s.in_file { f = some (appended g block) } })
  unfolding after_write
  store_block_last last =
      let full : (length (g.content ++ block) == s.in_file.size) ≡ true = ground arith in
      store_block-after_write ∙ rw full refl

  -- A file that grows beyond its size ends the session.
  pub store_block_beyond :
      s.in_file.size < length (g.content ++ block) → (store_block env g block s).1 ≡ false
  unfolding after_write
  store_block_beyond beyond =
      let longer : (length (g.content ++ block) == s.in_file.size) ≡ false = ground arith in
      let out : ltb s.in_file.size (length (g.content ++ block)) ≡ true = ground arith in
      ap (λ (r : State × Bool). r.1) store_block-after_write ∙ rw longer (rw out)
