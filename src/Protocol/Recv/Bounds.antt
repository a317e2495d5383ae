-- ===== src/Protocol/Recv/Bounds.antt =====
-- protocol.c: `recv_block` never reads more than the input buffer holds.
use binkd.Base.{
  ℕ, ◌+◌, ◌≤◌, ◌<◌, bit_xor, Bool, true, false, [], ◌∷◌, ◌++◌, Bytes, All, All-append, length,
  length-append, Option, none, some, if◌then◌else◌, ◌==◌, ltb, Bool-cases, inl, inr, ◌≡◌, refl,
  arith,
}
use binkd.Base.Bits.{bit_xor-lt}
use binkd.Crypt.{Keys, update_keys, decrypt_byte, decrypt_buf}
use binkd.Crypt.Stream.{decrypt_byte-lt}
use binkd.Text.{c_string}
use binkd.Protocol.Env.{Env}
use binkd.Protocol.Send.{is_yes_crypt}
use binkd.Protocol.State.{max_blksize, m_max, File, State}
use binkd.Protocol.Recv.{
  Commands, block_size, keep_error, drop_error, store_block, got_msg, got_block, got_data,
  handle_full, is_msg_hdr, hdr_size, got_header, unseal, put_bytes, handle_ibuf, recv_bytes,
}
use binkd.Protocol.Recv.Stream.{length-unseal}

-- The input buffer holds bytes of a header or block that is not complete, and the header or block
-- has at most MAX_BLKSIZE bytes.
abbrev pub BufferFits : State → Type 0
BufferFits s =
    All (λ (b : ℕ). b < 256) s.ibuf × (length s.ibuf < block_size s) × (block_size s ≤ max_blksize)

-- The session waits for a header.
abbrev AtHeader : State → Type 0
AtHeader s = (s.isize ≡ none) × (s.ibuf ≡ [])

keep_error-AtHeader : (r : State × Bool) → (keep_error r).1 ≡ true → AtHeader (keep_error r).0
keep_error-AtHeader (s, true) h = (refl, refl)
keep_error-AtHeader (s, false) h = absurd (cc (h))

drop_error-AtHeader : (r : State × Bool) → (drop_error r).1 ≡ true → AtHeader (drop_error r).0
drop_error-AtHeader (s, true) h = (refl, refl)
drop_error-AtHeader (s, false) h = absurd (cc (h))

-- Either result waits for a header.
if_AtHeader :
    (b : Bool) (x y : State × Bool)
    → (x.1 ≡ true → AtHeader x.0)
    → (y.1 ≡ true → AtHeader y.0)
    → (if b then x else y).1 ≡ true
    → AtHeader (if b then x else y).0
if_AtHeader true x y h k = h
if_AtHeader false x y h k = k

got_msg-AtHeader :
    (commands : Commands) (block : Bytes) (s : State)
    → (got_msg commands block s).1 ≡ true
    → AtHeader (got_msg commands block s).0
unfolding got_msg
got_msg-AtHeader commands [] s h = (refl, refl)
got_msg-AtHeader commands (m ∷ args) s h =
    if_AtHeader (ltb m_max m) _ (drop_error (commands m (c_string args) s)) (λ _. (refl, refl))
      (drop_error-AtHeader (commands m (c_string args) s)) h

got_data-AtHeader :
    (env : Env) (f : Option File) (block : Bytes) (s : State)
    → (got_data env f block s).1 ≡ true
    → AtHeader (got_data env f block s).0
unfolding got_data
got_data-AtHeader env none block s h = (refl, refl)
got_data-AtHeader env (some f) block s h = keep_error-AtHeader (store_block env f block s) h

got_block-AtHeader :
    (env : Env) (commands : Commands) (block : Bytes) (s : State)
    → (got_block env commands block s).1 ≡ true
    → AtHeader (got_block env commands block s).0
unfolding got_block
got_block-AtHeader env commands block s h =
    let t = record s { msgs_in_batch = s.msgs_in_batch + 1 } in
    if_AtHeader s.imsg (got_msg commands block t) (got_data env s.in_file.f block s)
      (got_msg-AtHeader commands block t) (got_data-AtHeader env s.in_file.f block s) h

AtHeader-BufferFits : (s : State) → AtHeader s → BufferFits s
AtHeader-BufferFits s (size, empty) = rw empty (rw size (tt, omega arith, omega arith))

-- A header of two bytes announces at most MAX_BLKSIZE bytes.
hdr_size-le : (hdr : Bytes) → All (λ (b : ℕ). b < 256) hdr → hdr_size hdr ≤ max_blksize
unfolding hdr_size
hdr_size-le [] h = omega arith
hdr_size-le (b ∷ []) h = omega arith
hdr_size-le (b ∷ c ∷ rest) h = omega (arith, h.1.0)

-- The header of a block with bytes.
new_block-BufferFits :
    (s : State) (msg : Bool) (size : ℕ)
    → size ≤ max_blksize
    → (size == 0) ≡ false
    → BufferFits (record s { imsg = msg; isize = some size; ibuf = [] })
new_block-BufferFits s msg size fits nonzero = (tt, ground arith, fits)

if_BufferFits :
    (b : Bool) (x y : State × Bool)
    → (b ≡ true → x.1 ≡ true → BufferFits x.0)
    → (b ≡ false → y.1 ≡ true → BufferFits y.0)
    → (if b then x else y).1 ≡ true
    → BufferFits (if b then x else y).0
if_BufferFits true x y h k = h refl
if_BufferFits false x y h k = k refl

got_header-BufferFits :
    (env : Env) (commands : Commands) (hdr : Bytes) (s : State)
    → All (λ (b : ℕ). b < 256) hdr
    → (got_header env commands hdr s).1 ≡ true
    → BufferFits (got_header env commands hdr s).0
unfolding got_header
got_header-BufferFits env commands hdr s bytes h =
    let t = record s { imsg = is_msg_hdr hdr; isize = some (hdr_size hdr) } in
    if_BufferFits (hdr_size hdr == 0) (got_block env commands [] t) (record t { ibuf = [] }, true)
      (λ _ k.
        AtHeader-BufferFits (got_block env commands [] t).0
          (got_block-AtHeader env commands [] t k))
      (λ nonzero _.
        new_block-BufferFits s (is_msg_hdr hdr) (hdr_size hdr) (hdr_size-le hdr bytes) nonzero)
      h

handle_full-BufferFits :
    (env : Env) (commands : Commands) (size : Option ℕ) (s : State)
    → All (λ (b : ℕ). b < 256) s.ibuf
    → (handle_full env commands size s).1 ≡ true
    → BufferFits (handle_full env commands size s).0
unfolding handle_full
handle_full-BufferFits env commands none s bytes h =
    got_header-BufferFits env commands s.ibuf s bytes h
handle_full-BufferFits env commands (some n) s bytes h =
    AtHeader-BufferFits (got_block env commands s.ibuf s).0
      (got_block-AtHeader env commands s.ibuf s h)

decrypt_buf-bytes :
    (wrap : ℕ) (keys : Keys) (buf : Bytes)
    → All (λ (b : ℕ). b < 256) buf
    → All (λ (b : ℕ). b < 256) (decrypt_buf wrap keys buf).0
unfolding decrypt_buf
decrypt_buf-bytes wrap keys [] h = tt
decrypt_buf-bytes wrap keys (b ∷ buf) h = (
  bit_xor-lt 8 b (decrypt_byte keys) h.0 (decrypt_byte-lt keys),
  decrypt_buf-bytes wrap (update_keys wrap keys (bit_xor b (decrypt_byte keys))) buf h.1,
)

unseal-bytes :
    (env : Env) (s : State) (buf : Bytes)
    → All (λ (b : ℕ). b < 256) buf
    → All (λ (b : ℕ). b < 256) (unseal env s buf).0
unfolding unseal
unseal-bytes env s buf h = elim (Bool-cases (is_yes_crypt s.crypt_flag)) [
  | inl on ↦ rw on (decrypt_buf-bytes env.wrap s.keys_in buf h)
  | inr off ↦ rw off h
]

-- `recv_block` asks for no more bytes than the current header or block still lacks. Where it goes
-- on after such bytes, in an encrypted session too and whatever the handlers of commands do, the
-- input buffer again holds less than the current header or block, which has at most MAX_BLKSIZE
-- bytes.
pub recv_bytes-BufferFits :
    (env : Env) (commands : Commands) (buf : Bytes) (s : State)
    → BufferFits s
    → All (λ (b : ℕ). b < 256) buf
    → length s.ibuf + length buf ≤ block_size s
    → (recv_bytes env commands buf s).1 ≡ true
    → BufferFits (recv_bytes env commands buf s).0
unfolding recv_bytes handle_ibuf put_bytes
recv_bytes-BufferFits env commands buf s (bytes, below, fits) new room h =
    let t = put_bytes env buf s in
    let plain = (unseal env s buf).0 in
    let all = All-append (λ (b : ℕ). b < 256) s.ibuf plain bytes (unseal-bytes env s buf new) in
    let len : length (s.ibuf ++ plain) ≡ length s.ibuf + length buf =
      omega (arith, length-append s.ibuf plain, length-unseal env s buf) in
    if_BufferFits (length (s.ibuf ++ plain) == block_size s) (handle_full env commands s.isize t)
      (t, true) (λ _ k. handle_full-BufferFits env commands s.isize t all k)
      (λ partial _. (all, ground arith, fits)) h
