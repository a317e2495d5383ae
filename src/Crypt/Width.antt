-- ===== src/Crypt/Width.antt =====
-- crypt.c on machines whose `unsigned long` has 32 or 64 bits.
use binkd.Base.{
  ℕ, ◌+◌, ◌*◌, ◌/◌, ◌%◌, ◌^◌, bit_and, bit_xor, [], ◌∷◌, Bytes, get_or, ◌≡◌, refl, ap, ◌∙◌, arith,
}
use binkd.Base.Bits.{bit_and_byte, XorMod-byte}
use binkd.Crypt.{
  Keys, crc_32_tab, crc32, update_keys, update_keys_all, init_keys, decrypt_byte, encrypt_buf,
}

crc32_low_byte : (c b d : ℕ) → b % 256 ≡ d % 256 → crc32 c b ≡ crc32 c d
unfolding crc32
crc32_low_byte c b d h =
    let x = c % 2 ^ 32 in
    let same : bit_and (bit_xor x b) 0xff ≡ bit_and (bit_xor x d) 0xff =
      rw bit_and_byte (rw bit_and_byte (XorMod-byte x b x d refl h)) in
    ap (λ (i : ℕ). bit_xor (get_or crc_32_tab i 0) (c / 2 ^ 8)) same

crc32_eq : (x y b d : ℕ) → x ≡ y → b % 256 ≡ d % 256 → crc32 x b ≡ crc32 y d
crc32_eq x y b d e h = ap (λ (z : ℕ). crc32 z b) e ∙ crc32_low_byte y b d h

-- The keys of a 64-bit and of a 32-bit machine that have seen the same bytes.
record Same (k l : Keys) : Type 0 where
  key0_same : k.key0 ≡ l.key0
  key1_same : k.key1 % 2 ^ 32 ≡ l.key1 % 2 ^ 32
  key2_same : k.key2 ≡ l.key2

linear_same :
    (a b x y : ℕ)
    → a % 2 ^ 32 ≡ b % 2 ^ 32
    → x ≡ y
    → ((a + x) % 2 ^ 64 * 134775813 + 1) % 2 ^ 64 % 2 ^ 32
      ≡ ((b + y) % 2 ^ 32 * 134775813 + 1) % 2 ^ 32 % 2 ^ 32
linear_same a b x y h e = omega arith

shift_same :
    (a b : ℕ) → a % 2 ^ 32 ≡ b % 2 ^ 32 → a / 2 ^ 24 % 2 ^ 32 % 256 ≡ b / 2 ^ 24 % 2 ^ 32 % 256
shift_same a b h = omega arith

update_keys-Same :
    (k l : Keys) (c d : ℕ)
    → Same k l
    → c % 256 ≡ d % 256
    → Same (update_keys (2 ^ 64) k c) (update_keys (2 ^ 32) l d)
unfolding update_keys
update_keys-Same k l c d s h =
    let new0 = crc32_eq k.key0 l.key0 c d s.key0_same h in
    let low = ap (λ (x : ℕ). bit_and x 0xff) new0 in
    let new1 = linear_same k.key1 l.key1 _ _ s.key1_same low in
    record {
      key0_same = new0;
      key1_same = new1;
      key2_same = crc32_eq _ _ _ _ s.key2_same (shift_same _ _ new1);
    }

update_keys_all-Same :
    (k l : Keys) (passwd : Bytes)
    → Same k l
    → Same (update_keys_all (2 ^ 64) k passwd) (update_keys_all (2 ^ 32) l passwd)
unfolding update_keys_all
update_keys_all-Same k l [] s = s
update_keys_all-Same k l (c ∷ passwd) s =
    update_keys_all-Same (update_keys (2 ^ 64) k c) (update_keys (2 ^ 32) l c) passwd
      (update_keys-Same k l c c s refl)

decrypt_byte-Same : (k l : Keys) → Same k l → decrypt_byte k ≡ decrypt_byte l
unfolding decrypt_byte
decrypt_byte-Same k l s = rw s.key2_same

encrypt_buf-Same :
    (k l : Keys) (buf : Bytes)
    → Same k l
    → (encrypt_buf (2 ^ 64) k buf).0 ≡ (encrypt_buf (2 ^ 32) l buf).0
unfolding encrypt_buf
encrypt_buf-Same k l [] s = refl
encrypt_buf-Same k l (b ∷ buf) s = cc (
  decrypt_byte-Same k l s,
  encrypt_buf-Same (update_keys (2 ^ 64) k b) (update_keys (2 ^ 32) l b) buf
      (update_keys-Same k l b b s refl),
)

-- The bytes on the wire do not depend on the width of `unsigned long`: a 64-bit and a 32-bit
-- machine that start from the same password encrypt every buffer to the same bytes.
pub encrypt_buf_width :
    (passwd buf : Bytes)
    → (encrypt_buf (2 ^ 64) (init_keys (2 ^ 64) passwd) buf).0
      ≡ (encrypt_buf (2 ^ 32) (init_keys (2 ^ 32) passwd) buf).0
unfolding init_keys
encrypt_buf_width passwd buf = encrypt_buf-Same _ _ buf (
    update_keys_all-Same _ _ passwd
      (record { key0_same = refl; key1_same = refl; key2_same = refl }))

-- `update_keys` reads only the low byte of its argument, so the sign extension of a `char` that is
-- passed as an `int` does not change the keys.
pub update_keys_low_byte :
    (wrap : ℕ) (keys : Keys) (c d : ℕ)
    → c % 256 ≡ d % 256
    → update_keys wrap keys c ≡ update_keys wrap keys d
unfolding update_keys
update_keys_low_byte wrap keys c d h = rw (crc32_low_byte keys.key0 c d h)
