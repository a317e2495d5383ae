-- ===== src/Text/Quote.antt =====
-- tools.c: `strdequote` undoes `strquote`, and a quoted name holds no white space.
use binkd.Base.{
  ℕ, ◌/◌, ◌%◌, ◌<◌, Bool, true, false, ◌&&◌, ◌||◌, [], ◌∷◌, ◌++◌, Bytes, All, ◌==◌, Bool-cases, inl,
  inr, ◌≡◌, refl, ap, ◌∙◌, arith,
}
use binkd.Text.{
  isspace, iscntrl, isxdigit, xdigit_value, hex_digit, quote_byte, strquote, dequote_round,
  strdequote_from, strdequote,
}

hex_digit-isxdigit : (d : ℕ) → d < 16 → isxdigit (hex_digit d) ≡ true
unfolding isxdigit hex_digit
hex_digit-isxdigit d h = ground arith

xdigit_value-hex_digit : (d : ℕ) → d < 16 → xdigit_value (hex_digit d) ≡ d
unfolding xdigit_value hex_digit
xdigit_value-hex_digit d h = ground arith

dequote_round_plain : (c : ℕ) (s : Bytes) → (c == b'\\') ≡ false → dequote_round c s ≡ (c, 0)
unfolding dequote_round
dequote_round_plain c [] h = refl
dequote_round_plain c (d ∷ []) h = refl
dequote_round_plain c (d ∷ e ∷ []) h = rw h
dequote_round_plain c (d ∷ e ∷ f ∷ s) h = rw h

dequote_round_hex :
    (c : ℕ) (s : Bytes)
    → c < 256
    → dequote_round b'\\' (b'x' ∷ hex_digit (c / 16) ∷ hex_digit (c % 16) ∷ s) ≡ (c, 3)
unfolding dequote_round
dequote_round_hex c s h = ground (
  arith,
  hex_digit-isxdigit (c / 16),
  hex_digit-isxdigit (c % 16),
  xdigit_value-hex_digit (c / 16),
  xdigit_value-hex_digit (c % 16),
)

dequote-quote_byte :
    (sq_cntrl sq_space : Bool) (c : ℕ) (s : Bytes)
    → c < 256
    → strdequote_from 0 (quote_byte sq_cntrl sq_space c ++ s) ≡ c ∷ strdequote_from 0 s
unfolding strdequote_from quote_byte
dequote-quote_byte f g c s h =
    elim (Bool-cases ((f && iscntrl c) || (g && isspace c) || c == b'\\')) [
      | inl quoted ↦ rw quoted (rw (dequote_round_hex c s h))
      | inr plain ↦ rw plain (rw (dequote_round_plain c s (ground arith)))
    ]

-- `strdequote` gives back every byte string that `strquote` has quoted, whatever the flags.
pub strdequote-strquote :
    (sq_cntrl sq_space : Bool) (s : Bytes)
    → All (λ c. c < 256) s
    → strdequote (strquote sq_cntrl sq_space s) ≡ s
unfolding strdequote strquote
strdequote-strquote f g [] h = refl
strdequote-strquote f g (c ∷ s) h =
    dequote-quote_byte f g c (strquote f g s) h.0 ∙ ap (◌∷◌ c) (strdequote-strquote f g s h.1)
