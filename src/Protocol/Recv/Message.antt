-- ===== src/Protocol/Recv/Message.antt =====
-- protocol.c: a message that one side queues by `msg_send2` reaches the handler of the other side.
use binkd.Base.{
  ℕ, suc, ◌+◌, ◌≤◌, ◌<◌, bit_or, Bool, true, false, List, [], ◌∷◌, ◌++◌, Bytes, All, length, take,
  drop, take-append-drop, length-take, length-append, some, none, ◌==◌, ltb, Bool-cases, inl, inr,
  ◌≡◌, ◌≢◌, refl, sym, ap, ◌∙◌, arith,
}
use binkd.Crypt.{Keys}
use binkd.Crypt.Stream.{decrypt_buf-encrypt_buf}
use binkd.Text.{c_string}
use binkd.Protocol.Env.{Env}
use binkd.Protocol.Send.{is_yes_crypt, mkhdr, frame, seal}
use binkd.Protocol.State.{max_blksize, m_max, State}
use binkd.Protocol.Recv.{
  Commands, drop_error, got_msg, got_block, handle_full, is_msg_hdr, hdr_size, got_header, unseal,
  put_bytes, handle_ibuf, recv_bytes,
}
use binkd.Protocol.Recv.Header.{hdr-mkhdr_msg}
use binkd.Protocol.Recv.Stream.{unseal-append, length-unseal}

append_split {ℓ} :
    {A : Type ℓ} (a b c d : List A) → length a ≡ length c → a ++ b ≡ c ++ d → (a ≡ c) × (b ≡ d)
append_split [] b [] d h e = (refl, e)
append_split [] b (y ∷ c) d h e = absurd (omega arith)
append_split (x ∷ a) b [] d h e = absurd (omega arith)
append_split (x ∷ a) b (y ∷ c) d h e =
    let rest = append_split a b c d (omega arith) (cc) in (cc (rest.0), rest.1)

c_string_nonzero : (s : Bytes) → All (λ c. c ≢ 0) s → c_string s ≡ s
unfolding c_string
c_string_nonzero [] h = refl
c_string_nonzero (c ∷ s) h =
    let nonzero : (c == 0) ≡ false = ground (arith, h.0) in
    rw nonzero (ap (◌∷◌ c) (c_string_nonzero s h.1))

pub unseal-seal :
    (env : Env) (a s : State) (buf : Bytes)
    → a.crypt_flag ≡ s.crypt_flag
    → a.keys_out ≡ s.keys_in
    → unseal env s (seal env a buf).0 ≡ (buf, (seal env a buf).1)
unfolding unseal seal
unseal-seal env a s buf flag keys =
    rw (← flag, ← keys)
      (elim (Bool-cases (is_yes_crypt a.crypt_flag)) [
        | inl on ↦ rw on (decrypt_buf-encrypt_buf env.wrap a.keys_out buf)
        | inr off ↦ rw off
      ])

handle_ibuf_hdr :
    (env : Env) (commands : Commands) (s : State) (hdr : Bytes)
    → s.isize ≡ none
    → s.ibuf ≡ hdr
    → length hdr ≡ 2
    → 0 < hdr_size hdr
    → handle_ibuf env commands s
      ≡ (record s { imsg = is_msg_hdr hdr; isize = some (hdr_size hdr); ibuf = [] }, true)
unfolding handle_ibuf handle_full
handle_ibuf_hdr env commands s hdr none_yet full two some_size =
    let full_hdr : (length hdr == 2) ≡ true = ground arith in
    let nonzero : (hdr_size hdr == 0) ≡ false = ground arith in
    rw none_yet (rw full (rw full_hdr (unfold got_header in rw nonzero)))

handle_ibuf_msg :
    (env : Env) (commands : Commands) (s : State) (m : ℕ) (text : Bytes)
    → s.isize ≡ some (length text + 1)
    → s.imsg ≡ true
    → s.ibuf ≡ m ∷ text
    → m ≤ m_max
    → All (λ c. c ≢ 0) text
    → handle_ibuf env commands s
      ≡ drop_error (commands m text (record s { msgs_in_batch = s.msgs_in_batch + 1 }))
unfolding handle_ibuf handle_full got_block got_msg
handle_ibuf_msg env commands s m text size msg full known h =
    let full_block : (suc (length text) == length text + 1) ≡ true = ground arith in
    let not_big : ltb m_max m ≡ false = ground arith in
    rw size
      (rw full (rw full_block (rw msg (rw (c_string_nonzero text h) (rw not_big (rw (← size)))))))

abbrev pub first_piece : Env → State → Bytes → Bytes
first_piece env s x = (unseal env s (take 2 x)).0

abbrev pub second_piece : Env → State → Bytes → Bytes × Keys
second_piece env s x = unseal env (record s { keys_in = (unseal env s (take 2 x)).1 }) (drop 2 x)

-- The two pieces of a sealed frame, as the receiver decrypts them.
module _ (env : Env) (s : State) (x hdr body : Bytes) (keys : Keys) where
  pub unseal_pieces :
      unseal env s x ≡ (hdr ++ body, keys)
      → length hdr ≡ 2
      → (first_piece env s x ≡ hdr) × (second_piece env s x ≡ (body, keys))
  unseal_pieces e two =
      let whole = ap (unseal env s) (take-append-drop 2 x) in
      let pieces = sym (unseal-append env s (take 2 x) (drop 2 x)) ∙ whole ∙ e in
      let len = length-unseal env s x in
      let first_len = length-unseal env s (take 2 x) in
      let split =
        append_split (first_piece env s x) (second_piece env s x).0 hdr body
          (omega (
            arith,
            first_len,
            len,
            length-take 2 x,
            length-append hdr body,
            ap (λ (p : Bytes × Keys). length p.0) e,
          ))
          (ap (λ (p : Bytes × Keys). p.0) pieces) in
      (split.0, λ i. (split.1 i, (pieces i).1))

pub recv_hdr :
    (env : Env) (commands : Commands) (s : State) (x hdr : Bytes)
    → s.isize ≡ none
    → s.ibuf ≡ []
    → first_piece env s x ≡ hdr
    → length hdr ≡ 2
    → 0 < hdr_size hdr
    → recv_bytes env commands (take 2 x) s ≡ (
      record s {
        imsg = is_msg_hdr hdr;
        isize = some (hdr_size hdr);
        ibuf = [];
        keys_in = (unseal env s (take 2 x)).1;
      },
      true,
    )
unfolding recv_bytes put_bytes
recv_hdr env commands s x hdr no_size no_bytes e two some_size =
    handle_ibuf_hdr env commands (put_bytes env (take 2 x) s) hdr no_size
      (ap (λ (l : Bytes). l ++ (unseal env s (take 2 x)).0) no_bytes ∙ e) two some_size

-- A session that waits for a header receives the frame of a message that the other side has queued:
-- the text holds no zero byte and, with the command's number, at most MAX_BLKSIZE bytes. The two
-- sides agree on encryption and on the keys. The header and the block may come in pieces of any
-- size (`recv_bytes-append`). The handler of the command is called with the text, and the keys of
-- the two sides agree again.
pub recv-msg_send2 :
    (env : Env) (commands : Commands) (a s : State) (m : ℕ) (text : Bytes)
    → a.crypt_flag ≡ s.crypt_flag
    → a.keys_out ≡ s.keys_in
    → s.isize ≡ none
    → s.ibuf ≡ []
    → m ≤ m_max
    → length text + 1 ≤ max_blksize
    → All (λ c. c ≢ 0) text
    → let (sealed, keys) = seal env a (frame m text) in
      let (t, read) = recv_bytes env commands (take 2 sealed) s in
      (read ≡ true)
      × (recv_bytes env commands (drop 2 sealed) t
          ≡ drop_error (
              commands m text (record s {
                imsg = true;
                isize = some (length text + 1);
                ibuf = m ∷ text;
                keys_in = keys;
                msgs_in_batch = s.msgs_in_batch + 1;
              })))
unfolding recv_bytes put_bytes
recv-msg_send2 env commands a s m text flag keys no_size no_bytes known fits nonzero =
    let x = (seal env a (frame m text)).0 in
    let hdr = mkhdr (bit_or (length text + 1) 0x8000) in
    let read = hdr-mkhdr_msg (length text + 1) fits in
    let pieces =
      unseal_pieces env s x hdr (m ∷ text) (seal env a (frame m text)).1
        (unfold frame in unseal-seal env a s (frame m text) flag keys) (unfold mkhdr in refl) in
    let first =
      recv_hdr env commands s x hdr no_size no_bytes pieces.0 (unfold mkhdr in refl)
        (omega (arith, read.1)) in
    let t = record s {
      imsg = is_msg_hdr hdr;
      isize = some (hdr_size hdr);
      ibuf = [];
      keys_in = (unseal env s (take 2 x)).1;
    } in
    let body =
      handle_ibuf_msg env commands (put_bytes env (drop 2 x) t) m text (ap some read.1) read.0
        (λ i. (pieces.1 i).0) known nonzero in
    (
      ap (λ (r : State × Bool). r.1) first,
      ap (λ (r : State × Bool). recv_bytes env commands (drop 2 x) r.0) first ∙ body ∙ (λ i.
          drop_error (
            commands m text (record s {
              imsg = read.0 i;
              isize = some (read.1 i);
              ibuf = (pieces.1 i).0;
              keys_in = (pieces.1 i).1;
              msgs_in_batch = s.msgs_in_batch + 1;
            }))),
    )
