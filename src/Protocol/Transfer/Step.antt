-- ===== src/Protocol/Transfer/Step.antt =====
-- protocol.c: one round of the transfer of a file.
use binkd.Base.{
  ℕ, zero, suc, ◌+◌, ◌≤◌, ◌<◌, Bool, true, false, ◌||◌, List, [], ◌∷◌, ◌++◌, Bytes, length,
  length-take, take, drop, some, none, if◌then◌else◌, ◌==◌, ◌≡◌, refl, sym, ap, ◌∙◌, arith,
}
use mathlib.Core.Path.{subst}
use binkd.Protocol.Env.{Env, Config}
use binkd.Protocol.Send.{mkhdr, seal, put_block, current_file_was_sent, send_file_block}
use binkd.Protocol.Send.Block.{
  next_size, next_block, advanced, length-next_block, send_file_block_next,
}
use binkd.Protocol.State.{max_blksize, File, Tfile, State}
use binkd.Protocol.Recv.{Commands, keep_error, store_block, complete_in}
use binkd.Protocol.Recv.Data.{recv_frame, recv_data_size}
use binkd.Protocol.Recv.Store.{appended, store_block_more, store_block_last}
use binkd.Protocol.Transfer.{transfer, Linked, Delivered}

take_nil {ℓ} : {A : Type ℓ} (n : ℕ) → take {A = A} n [] ≡ []
take_nil zero = refl
take_nil (suc n) = refl

take_add {ℓ} :
    {A : Type ℓ} (m n : ℕ) (xs : List A) → take m xs ++ take n (drop m xs) ≡ take (m + n) xs
take_add zero n xs = ap (λ (k : ℕ). take k xs) (omega arith)
take_add (suc m) n [] = take_nil n ∙ sym (take_nil (suc m + n))
take_add (suc m) n (x ∷ xs) = ap (◌∷◌ x) (take_add m n xs) ∙ ap (λ (k : ℕ). take k (x ∷ xs)) sum
  where
    sum : suc (m + n) ≡ suc m + n
    sum = omega arith

take_all {ℓ} : {A : Type ℓ} (n : ℕ) (xs : List A) → n ≡ length xs → take n xs ≡ xs
take_all zero [] h = refl
take_all zero (x ∷ xs) h = absurd (omega arith)
take_all (suc n) [] h = refl
take_all (suc n) (x ∷ xs) h = ap (◌∷◌ x) (take_all n xs (omega arith))

module _ (env : Env) (config : Config) (commands : Commands) where
  transfer_step :
      (n : ℕ) (f : File) (a s p : State) (r : State × Bool)
      → send_file_block env config f a ≡ (p, 1)
      → recv_frame env commands p.pending s ≡ r
      → transfer env config commands (suc n) (some f) a s ≡ (
          let b = record p { pending = [] } in
          if r.1 then transfer env config commands n b.out_file.f b r.0 else (b, r.0, r.1))
  transfer_step n f a s p r sent read = rw sent (rw read refl)

  module _ (f g : File) (a s : State) (l : Linked env f g a s) (progress : 0 < config.oblksize)
      (fits : config.oblksize ≤ max_blksize)
      (disk : (t : Tfile) (block : Bytes) → env.fwrite_ok t block ≡ true) where
    abbrev sz : ℕ
    sz = next_size config f a

    abbrev block : Bytes
    block = next_block config f a

    abbrev is_last : Bool
    is_last = sz == 0 || a.out_file.size == f.offset + sz

    room : f.offset ≤ a.out_file.size
    room = omega (arith, l.left, l.whole)

    len : length block ≡ sz
    len = length-next_block env config f a room l.whole

    content_next : g.content ++ block ≡ take (f.offset + sz) f.content
    content_next = ap (λ (c : Bytes). c ++ block) l.so_far ∙ take_add f.offset sz f.content

    length_next : length (g.content ++ block) ≡ f.offset + sz
    length_next =
        ap length content_next
        ∙ omega (arith, length-take (f.offset + sz) f.content, l.whole, l.left)

    send_next :
        (next : State)
        → (if is_last then current_file_was_sent (advanced config f a) else advanced config f a)
          ≡ next
        → send_file_block env config f a ≡ (put_block env sz block next, 1)
    send_next next e =
        send_file_block_next env config f a room l.whole l.plain
        ∙ ap (λ (u : State). (put_block env sz block u, 1)) e

    -- What the receiving side has read when it stores the block.
    abbrev read_state : State → State
    read_state u = record s {
      imsg = false;
      isize = some sz;
      ibuf = block;
      keys_in = (seal env u (mkhdr sz ++ block)).1;
    }

    recv_next :
        (u : State)
        → u.crypt_flag ≡ a.crypt_flag
        → u.keys_out ≡ a.keys_out
        → recv_frame env commands (put_block env sz block u).pending s
          ≡ keep_error (store_block env g block (read_state u))
    unfolding put_block
    recv_next u flag keys =
        recv_data_size env commands u s sz block g (flag ∙ l.flag) (keys ∙ l.keys) l.no_size
          l.no_bytes len (omega (arith, l.left, l.whole)) (omega arith) l.open_in

    abbrev next_file : File
    next_file = record f { offset = f.offset + sz }

    abbrev cleared : State → State
    cleared u = record (put_block env sz block u) { pending = [] }

    is_last-false : f.offset + sz < length f.content → is_last ≡ false
    is_last-false more =
        let some_bytes : (sz == 0) ≡ false = ground (arith, l.left, l.whole) in
        let short : (a.out_file.size == f.offset + sz) ≡ false = ground (arith, l.whole) in
        rw some_bytes short

    is_last-true : f.offset + sz ≡ length f.content → is_last ≡ true
    is_last-true last =
        let some_bytes : (sz == 0) ≡ false = ground (arith, progress, l.left, l.whole) in
        let full : (a.out_file.size == f.offset + sz) ≡ true = ground (arith, l.whole) in
        rw some_bytes full

    -- The receiving side after a block that is not the last.
    abbrev stored : State → State
    stored u = record (read_state u) {
      isize = none;
      ibuf = [];
      in_file = record s.in_file { f = some (appended g block) };
    }

    step_more :
        (n : ℕ)
        → f.offset + sz < length f.content
        → transfer env config commands (suc n) (some f) a s
          ≡ transfer env config commands n
              (some next_file)
              (cleared (advanced config f a))
              (stored (advanced config f a))
    unfolding put_block
    step_more n more =
        let u = advanced config f a in
        transfer_step n f a s (put_block env sz block u) (stored u, true)
          (send_next u
            (ap (λ (b : Bool). if b then current_file_was_sent u else u) (is_last-false more)))
          (recv_next u refl refl
            ∙ ap keep_error (
                store_block_more env g block (read_state u) l.at_end (disk s.in_file block)
                  (omega (arith, length_next, l.same_size))))

    linked_more :
        f.offset + sz < length f.content
        → Linked env next_file
            (appended g block)
            (cleared (advanced config f a))
            (stored (advanced config f a))
    unfolding put_block
    linked_more more = record {
      flag = l.flag;
      keys = refl;
      no_size = refl;
      no_bytes = refl;
      open_in = refl;
      whole = l.whole;
      same_size = l.same_size;
      at_end = refl;
      so_far = content_next;
      left = more;
      plain = l.plain;
    }

    -- The round before the last ones, and what the rounds that are left deliver.
    pub Delivered-more :
        (n : ℕ)
        → f.offset + sz < length f.content
        → (Linked env next_file
              (appended g block)
              (cleared (advanced config f a))
              (stored (advanced config f a))
            → Delivered env next_file
                (cleared (advanced config f a))
                (stored (advanced config f a))
                (transfer env config commands n
                  (some next_file)
                  (cleared (advanced config f a))
                  (stored (advanced config f a))))
        → Delivered env f a s (transfer env config commands (suc n) (some f) a s)
    unfolding put_block
    Delivered-more n more later =
        subst (λ x. Delivered env f a s x) (sym (step_more n more)) (later (linked_more more))

    after_last :
        (n : ℕ) (b : State) (r : State × Bool)
        → (if r.1 then transfer env config commands n none b r.0 else (b, r.0, r.1)) ≡ (b, r.0, r.1)
    after_last zero b (t, true) = refl
    after_last (suc n) b (t, true) = refl
    after_last n b (t, false) = refl

    -- The file behind its last block, and the receiving side before it completes the file.
    abbrev sent_state : State
    sent_state = current_file_was_sent (advanced config f a)

    abbrev full_state : State
    full_state = record (read_state sent_state) {
      in_file = record s.in_file { f = some (appended g block) };
    }

    step_last :
        (n : ℕ)
        → f.offset + sz ≡ length f.content
        → transfer env config commands (suc n) (some f) a s
          ≡ (let r = keep_error (complete_in env full_state) in (cleared sent_state, r.0, r.1))
    unfolding put_block current_file_was_sent
    step_last n last =
        let w = sent_state in
        let r = keep_error (complete_in env full_state) in
        let u = advanced config f a in
        transfer_step n f a s (put_block env sz block w) r
          (send_next w
            (ap (λ (b : Bool). if b then current_file_was_sent u else u) (is_last-true last)))
          (recv_next w refl refl
            ∙ ap keep_error (
                store_block_last env g block (read_state w) l.at_end (disk s.in_file block)
                  (omega (arith, length_next, l.same_size, last))))
        ∙ after_last n (cleared w) r

    pub Delivered-last :
        (n : ℕ)
        → f.offset + sz ≡ length f.content
        → Delivered env f a s (transfer env config commands (suc n) (some f) a s)
    unfolding put_block current_file_was_sent
    Delivered-last n last =
        let all = content_next ∙ take_all (f.offset + sz) f.content last in
        subst (λ x. Delivered env f a s x) (sym (step_last n last))
          (
            full_state,
            refl,
            (λ i. record s.in_file {
              f = some (record { content = all i; offset = length (all i) });
            }),
            refl,
            refl,
          )
