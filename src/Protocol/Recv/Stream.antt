-- ===== src/Protocol/Recv/Stream.antt =====
-- protocol.c: `recv_block` reads the same blocks however the network cuts the stream.
use mathlib.Core.List.{append_assoc}
use binkd.Base.{
  ℕ, suc, ◌+◌, ◌<◌, true, false, [], ◌∷◌, ◌++◌, Bytes, length, length-append, ◌==◌, Bool-cases, inl,
  inr, bit_xor, ◌≡◌, refl, ap, arith,
}
use binkd.Crypt.{Keys, update_keys, decrypt_byte, decrypt_buf}
use binkd.Crypt.Stream.{decrypt_buf-append}
use binkd.Protocol.Env.{Env}
use binkd.Protocol.Send.{is_yes_crypt}
use binkd.Protocol.State.{State}
use binkd.Protocol.Recv.{Commands, block_size, unseal, put_bytes, handle_ibuf, recv_bytes}

length-decrypt_buf :
    (wrap : ℕ) (keys : Keys) (buf : Bytes) → length (decrypt_buf wrap keys buf).0 ≡ length buf
unfolding decrypt_buf
length-decrypt_buf wrap keys [] = refl
length-decrypt_buf wrap keys (b ∷ buf) =
    ap suc (length-decrypt_buf wrap (update_keys wrap keys (bit_xor b (decrypt_byte keys))) buf)

pub length-unseal : (env : Env) (s : State) (buf : Bytes) → length (unseal env s buf).0 ≡ length buf
unfolding unseal
length-unseal env s buf = ground (arith, length-decrypt_buf env.wrap s.keys_in buf)

pub unseal-append :
    (env : Env) (s : State) (xs ys : Bytes)
    → unseal env s (xs ++ ys) ≡ (
        let (p, keys) = unseal env s xs in
        let (q, keys') = unseal env (record s { keys_in = keys }) ys in (p ++ q, keys'))
unfolding unseal
unseal-append env s xs ys = elim (Bool-cases (is_yes_crypt s.crypt_flag)) [
  | inl on ↦ rw on (decrypt_buf-append env.wrap s.keys_in xs ys)
  | inr off ↦ rw off
]

put_bytes-append :
    (env : Env) (xs ys : Bytes) (s : State)
    → put_bytes env ys (put_bytes env xs s) ≡ put_bytes env (xs ++ ys) s
unfolding put_bytes
put_bytes-append env xs ys s = rw (unseal-append env s xs ys) (rw append_assoc refl)

length-put_bytes :
    (env : Env) (buf : Bytes) (s : State)
    → length (put_bytes env buf s).ibuf ≡ length s.ibuf + length buf
unfolding put_bytes
length-put_bytes env buf s =
    omega (arith, length-append s.ibuf (unseal env s buf).0, length-unseal env s buf)

handle_ibuf_partial :
    (env : Env) (commands : Commands) (s : State)
    → length s.ibuf < block_size s
    → handle_ibuf env commands s ≡ (s, true)
unfolding handle_ibuf
handle_ibuf_partial env commands s h =
    let short : (length s.ibuf == block_size s) ≡ false = ground arith in rw short

block_size-put_bytes :
    (env : Env) (buf : Bytes) (s : State) → block_size (put_bytes env buf s) ≡ block_size s
unfolding put_bytes
block_size-put_bytes env buf s = refl

-- Bytes that leave the header or block incomplete are put by, and nothing else happens.
pub recv_bytes_partial :
    (env : Env) (commands : Commands) (buf : Bytes) (s : State)
    → length s.ibuf + length buf < block_size s
    → recv_bytes env commands buf s ≡ (put_bytes env buf s, true)
unfolding recv_bytes
recv_bytes_partial env commands buf s h =
    handle_ibuf_partial env commands (put_bytes env buf s)
      (omega (arith, length-put_bytes env buf s, block_size-put_bytes env buf s))

-- Where the first piece leaves the header or block incomplete, receiving two pieces in turn is
-- receiving them at once, in an encrypted session too.
pub recv_bytes-append :
    (env : Env) (commands : Commands) (xs ys : Bytes) (s : State)
    → length s.ibuf + length xs < block_size s
    → recv_bytes env commands ys (recv_bytes env commands xs s).0
      ≡ recv_bytes env commands (xs ++ ys) s
recv_bytes-append env commands xs ys s h =
    rw (recv_bytes_partial env commands xs s h)
      (unfold recv_bytes in ap (handle_ibuf env commands) (put_bytes-append env xs ys s))
