-- ===== src/Crypt/Stream.antt =====
-- crypt.c: what one side encrypts the other side decrypts, in blocks of any size.
use binkd.Base.{ℕ, ◌<◌, bit_xor, [], ◌∷◌, ◌++◌, Bytes, ◌≡◌, refl, arith, All}
use binkd.Base.Bits.{bit_xor_cancel, bit_and_byte, bit_xor-lt}
use binkd.Crypt.{Keys, update_keys, decrypt_byte, decrypt_buf, encrypt_buf}

-- Decrypting what `encrypt_buf` wrote, from the same keys, gives back the buffer, and both sides
-- are then at the same keys, whatever the width of `unsigned long`.
pub decrypt_buf-encrypt_buf :
    (wrap : ℕ) (keys : Keys) (buf : Bytes)
    → decrypt_buf wrap keys (encrypt_buf wrap keys buf).0 ≡ (buf, (encrypt_buf wrap keys buf).1)
unfolding decrypt_buf encrypt_buf
decrypt_buf-encrypt_buf wrap keys [] = refl
decrypt_buf-encrypt_buf wrap keys (b ∷ buf) =
    rw bit_xor_cancel (rw (decrypt_buf-encrypt_buf wrap (update_keys wrap keys b) buf))

-- Encrypting two buffers in turn is encrypting them as one.
pub encrypt_buf-append :
    (wrap : ℕ) (keys : Keys) (xs ys : Bytes)
    → encrypt_buf wrap keys (xs ++ ys) ≡ (
        let (out, keys') = encrypt_buf wrap keys xs in
        let (out', keys'') = encrypt_buf wrap keys' ys in (out ++ out', keys''))
unfolding encrypt_buf
encrypt_buf-append wrap keys [] ys = refl
encrypt_buf-append wrap keys (x ∷ xs) ys =
    rw (encrypt_buf-append wrap (update_keys wrap keys x) xs ys)

-- Decrypting a received stream in two pieces, cut anywhere, gives what decrypting it whole gives.
pub decrypt_buf-append :
    (wrap : ℕ) (keys : Keys) (xs ys : Bytes)
    → decrypt_buf wrap keys (xs ++ ys) ≡ (
        let (out, keys') = decrypt_buf wrap keys xs in
        let (out', keys'') = decrypt_buf wrap keys' ys in (out ++ out', keys''))
unfolding decrypt_buf
decrypt_buf-append wrap keys [] ys = refl
decrypt_buf-append wrap keys (x ∷ xs) ys =
    rw (decrypt_buf-append wrap (update_keys wrap keys (bit_xor x (decrypt_byte keys))) xs ys)

pub decrypt_byte-lt : (keys : Keys) → decrypt_byte keys < 256
unfolding decrypt_byte
decrypt_byte-lt keys = rw bit_and_byte (omega arith)

-- An encrypted buffer of bytes is a buffer of bytes.
pub encrypt_buf-bytes :
    (wrap : ℕ) (keys : Keys) (buf : Bytes)
    → All (λ b. b < 256) buf
    → All (λ b. b < 256) (encrypt_buf wrap keys buf).0
unfolding encrypt_buf
encrypt_buf-bytes wrap keys [] h = h
encrypt_buf-bytes wrap keys (b ∷ buf) h = (
  bit_xor-lt 8 b (decrypt_byte keys) h.0 (decrypt_byte-lt keys),
  encrypt_buf-bytes wrap (update_keys wrap keys b) buf h.1,
)
