-- ===== src/Ftn/Tokens.antt =====
-- ftnaddr.c: the tokens that the printed parts of an address give.
use binkd.Base.{
  ℕ, zero, suc, ◌+◌, ◌-◌, ◌*◌, ◌^◌, ◌≤◌, ◌<◌, ◌/◌, ◌%◌, Bool, true, false, List, [], ◌∷◌, ◌++◌,
  some, Bytes, All, All-append, length, length-append, ◌≡◌, refl, ◌∙◌, ap, sym, arith, ltb,
  if◌then◌else◌, Bool-cases, inl, inr,
}
use mathlib.Core.List.{append-nil}
use binkd.Base.Int.{pos}
use binkd.Text.{isdigit, isalpha}
use binkd.Ftn.Parse.{
  Token, t_null, t_sep, t_num, t_word, is_sep, is_word, read_num, read_word, max_domain, gettoken,
  gettokens, add_token,
}
use binkd.Ftn.Print.{print_dec, print_int}

unfoldable pub IsDigits : Bytes → Type 0
IsDigits s = All (λ c. isdigit c ≡ true) s

value : ℕ → Bytes → ℕ
value n [] = n
value n (c ∷ s) = value (n * 10 + (c - b'0')) s

value-append : (n d : ℕ) (s : Bytes) → value n (s ++ d ∷ []) ≡ value n s * 10 + (d - b'0')
unfolding value
value-append n d [] = refl
value-append n d (c ∷ s) = value-append (n * 10 + (c - b'0')) d s

digit_of : (n : ℕ) → isdigit (n % 10 + b'0') ≡ true
unfolding isdigit
digit_of n = ground arith

pub print_dec-IsDigits : (rounds n : ℕ) → IsDigits (print_dec rounds n)
unfolding print_dec IsDigits
print_dec-IsDigits zero n = tt
print_dec-IsDigits (suc rounds) n = elim (Bool-cases (ltb n 10)) [
  | inl e ↦ rw e (digit_of n, tt)
  | inr e ↦ rw e (
      All-append (λ c. isdigit c ≡ true) (print_dec rounds (n / 10)) ((n % 10 + b'0') ∷ [])
        (print_dec-IsDigits rounds (n / 10)) (digit_of n, tt))
]

value-print_dec : (rounds n : ℕ) → n < 10 ^ rounds → value 0 (print_dec rounds n) ≡ n
unfolding print_dec value
value-print_dec zero n h = omega arith
value-print_dec (suc rounds) n h = ground (
  arith,
  value-append 0 (n % 10 + b'0') (print_dec rounds (n / 10)),
  value-print_dec rounds (n / 10),
)

-- The text behind a number.
abbrev pub StopsNum : Bytes → Type 0
StopsNum [] = Unit
StopsNum (c ∷ s) = isdigit c ≡ false

read_num-digits :
    (n : ℕ) (s rest : Bytes)
    → IsDigits s
    → StopsNum rest
    → read_num n (s ++ rest) ≡ (value n s, rest)
unfolding read_num value IsDigits
read_num-digits n [] [] h k = refl
read_num-digits n [] (c ∷ rest) h k = rw k refl
read_num-digits n (c ∷ s) rest h k = rw h.0 (read_num-digits (n * 10 + (c - b'0')) s rest h.1 k)

-- A number that is printed is read back.
pub read_num-print_dec :
    (rounds n : ℕ) → n < 10 ^ rounds → read_num 0 (print_dec rounds n) ≡ (n, [])
read_num-print_dec rounds n h =
    let digits = print_dec rounds n in
    ap (read_num 0) (sym (append-nil digits))
    ∙ read_num-digits 0 digits [] (print_dec-IsDigits rounds n) tt
    ∙ ap (λ (m : ℕ). (m, [])) (value-print_dec rounds n h)

digit_starts : (c : ℕ) → isdigit c ≡ true → is_sep c ≡ false
unfolding isdigit
digit_starts c h = ground arith

alpha_starts : (c : ℕ) → isalpha c ≡ true → (is_sep c ≡ false) × (isdigit c ≡ false)
unfolding isdigit isalpha
alpha_starts c h = ground arith

first_test {ℓ} : {A : Type ℓ} (a : Bool) (x y : A) → a ≡ true → (if a then x else y) ≡ x
first_test a x y h = rw h refl

second_test {ℓ} :
    {A : Type ℓ} (a b : Bool) (x y z : A)
    → a ≡ false
    → b ≡ true
    → (if a then x else if b then y else z) ≡ y
second_test a b x y z h k = rw (h, k) refl

third_test {ℓ} :
    {A : Type ℓ} (a b c : Bool) (x y z w : A)
    → a ≡ false
    → b ≡ false
    → c ≡ true
    → (if a then x else if b then y else if c then z else w) ≡ z
third_test a b c x y z w h k l = rw (h, k, l) refl

gettoken_digits :
    (s rest : Bytes)
    → IsDigits s
    → 0 < length s
    → StopsNum rest
    → gettoken (s ++ rest) ≡ some (t_num (value 0 s), rest)
unfolding gettoken IsDigits
gettoken_digits [] rest h l k = absurd (omega arith)
gettoken_digits (c ∷ s) rest h l k =
    second_test (is_sep c) (isdigit c) _ _ _ (digit_starts c h.0) h.0
    ∙ ap (λ r. some (t_num r.0, r.1)) (read_num-digits 0 (c ∷ s) rest h k)

print_dec_nonempty : (rounds n : ℕ) → 0 < length (print_dec (suc rounds) n)
unfolding print_dec
print_dec_nonempty rounds n = omega (
  arith,
  length-append (if ltb n 10 then [] else print_dec rounds (n / 10)) ((n % 10 + b'0') ∷ []),
)

gettoken-print_int :
    (n : ℕ) (rest : Bytes)
    → n < 2 ^ 31
    → StopsNum rest
    → gettoken (print_int (pos n) ++ rest) ≡ some (t_num n, rest)
unfolding print_int
gettoken-print_int n rest h k =
    rw (gettoken_digits (print_dec 10 n) rest (print_dec-IsDigits 10 n) (print_dec_nonempty 9 n) k)
      (rw (value-print_dec 10 n (omega arith)) refl)

read_word_whole :
    (room : ℕ) (w : Bytes)
    → All (λ c. is_word c ≡ true) w
    → length w ≤ room
    → read_word room w ≡ (w, [])
unfolding read_word
read_word_whole zero [] h k = refl
read_word_whole (suc room) [] h k = refl
read_word_whole zero (c ∷ w) h k = absurd (omega arith)
read_word_whole (suc room) (c ∷ w) h k = rw h.0 (rw (read_word_whole room w h.1 (omega arith)) refl)

pub gettoken_word :
    (c : ℕ) (w : Bytes)
    → isalpha c ≡ true
    → All (λ d. is_word d ≡ true) (c ∷ w)
    → length (c ∷ w) ≤ max_domain
    → gettoken (c ∷ w) ≡ some (t_word (c ∷ w), [])
unfolding gettoken
gettoken_word c w h k l =
    third_test (is_sep c) (isdigit c) (isalpha c) _ _ _ _ (alpha_starts c h).0 (alpha_starts c h).1
      h
    ∙ ap (λ r. some (t_word r.0, r.1)) (read_word_whole max_domain (c ∷ w) k l)

pub gettoken_sep : (c : ℕ) (s : Bytes) → is_sep c ≡ true → gettoken (c ∷ s) ≡ some (t_sep c, s)
unfolding gettoken
gettoken_sep c s h = first_test (is_sep c) _ _ h

pub gettokens_step :
    (n : ℕ) (s rest : Bytes) (t : Token)
    → gettoken s ≡ some (t, rest)
    → gettokens (suc n) s ≡ add_token t (gettokens n rest)
unfolding gettokens
gettokens_step n s rest t h = rw (gettokens, h) refl

abbrev pub nulls : ℕ → List Token
nulls zero = []
nulls (suc n) = t_null ∷ nulls n

pub gettokens_end : (n : ℕ) → gettokens n [] ≡ some (nulls n)
unfolding gettokens gettoken
gettokens_end zero = refl
gettokens_end (suc n) = rw (gettokens_end n) refl

pub gettokens_num :
    (k n : ℕ) (rest : Bytes)
    → n < 2 ^ 31
    → StopsNum rest
    → gettokens (suc k) (print_int (pos n) ++ rest) ≡ add_token (t_num n) (gettokens k rest)
gettokens_num k n rest h stop =
    gettokens_step k (print_int (pos n) ++ rest) rest (t_num n) (gettoken-print_int n rest h stop)

pub gettokens_sep :
    (k c : ℕ) (rest : Bytes)
    → is_sep c ≡ true
    → gettokens (suc k) (c ∷ rest) ≡ add_token (t_sep c) (gettokens k rest)
gettokens_sep k c rest h = gettokens_step k (c ∷ rest) rest (t_sep c) (gettoken_sep c rest h)
