-- ===== src/Text/Args.antt =====
-- tools.c: what `parse_args` reads from the arguments that a sender has printed.
use binkd.Base.{
  ℕ, suc, ◌<◌, true, false, List, [], ◌∷◌, ◌++◌, Bytes, All, All-append, length, some, ◌≡◌, ◌≢◌,
  refl, ◌∙◌, arith,
}
use binkd.Text.{
  isspace, iscntrl, hex_digit, quote_byte, strquote, skip_space, take_word, tail_of, cons_word,
  parse_args, strdequote,
}
use binkd.Text.Quote.{strdequote-strquote}

-- A word: not empty, and with no white space.
abbrev pub IsWord : Bytes → Type 0
IsWord w = (w ≢ []) × All (λ c. isspace c ≡ false) w

-- The words of a command, as `"%s %s %s"` prints them.
abbrev pub join_words : List Bytes → Bytes
join_words [] = []
join_words (w ∷ []) = w
join_words (w ∷ v ∷ ws) = w ++ b' ' ∷ join_words (v ∷ ws)

take_word-append :
    (w : Bytes) (c : ℕ) (rest : Bytes)
    → All (λ c. isspace c ≡ false) w
    → isspace c ≡ true
    → take_word (w ++ c ∷ rest) ≡ (w, c ∷ rest)
unfolding take_word
take_word-append [] c rest h e = rw e
take_word-append (x ∷ w) c rest h e = rw h.0 (rw (take_word-append w c rest h.1 e))

take_word_whole : (w : Bytes) → All (λ c. isspace c ≡ false) w → take_word w ≡ (w, [])
unfolding take_word
take_word_whole [] h = refl
take_word_whole (x ∷ w) h = rw h.0 (rw (take_word_whole w h.1))

quote_byte_nonspace : (c : ℕ) → c < 256 → All (λ d. isspace d ≡ false) (quote_byte true true c)
unfolding quote_byte isspace iscntrl hex_digit
quote_byte_nonspace c h = ground arith

skip_space_word : (c : ℕ) (s : Bytes) → isspace c ≡ false → skip_space (c ∷ s) ≡ c ∷ s
unfolding skip_space
skip_space_word c s h = rw h

parse_args_step :
    (argc c : ℕ) (w rest src : Bytes)
    → take_word (skip_space src) ≡ (c ∷ w, rest)
    → parse_args (suc argc) src ≡ cons_word (c ∷ w) (parse_args argc (tail_of rest))
unfolding parse_args
parse_args_step argc c w rest src e = rw (e, parse_args) (rw e)

-- `parse_args` gives back exactly the words that were printed with one space between each two.
pub parse_args-join_words :
    (ws : List Bytes) → All IsWord ws → parse_args (length ws) (join_words ws) ≡ some (ws, [])
unfolding parse_args isspace
parse_args-join_words [] h = refl
parse_args-join_words ([] ∷ ws) h = absurd (h.0.0 refl)
parse_args-join_words ((c ∷ w) ∷ []) h =
    parse_args_step 0 c w [] (c ∷ w)
      (rw (skip_space_word c w h.0.1.0) (take_word_whole (c ∷ w) h.0.1))
parse_args-join_words ((c ∷ w) ∷ v ∷ ws) h =
    let more = join_words (v ∷ ws) in
    parse_args_step (length (v ∷ ws)) c w (b' ' ∷ more) (c ∷ (w ++ b' ' ∷ more)) (
      rw (skip_space_word c (w ++ b' ' ∷ more) h.0.1.0)
        (take_word-append (c ∷ w) b' ' more h.0.1 refl))
    ∙ rw (parse_args-join_words (v ∷ ws) h.1)

quote_byte-append_nonspace :
    (c : ℕ) (s : Bytes)
    → c < 256
    → All (λ d. isspace d ≡ false) s
    → All (λ d. isspace d ≡ false) (quote_byte true true c ++ s)
quote_byte-append_nonspace c s h t =
    All-append (λ d. isspace d ≡ false) (quote_byte true true c) s (quote_byte_nonspace c h) t

strquote_nonspace :
    (s : Bytes) → All (λ c. c < 256) s → All (λ d. isspace d ≡ false) (strquote true true s)
unfolding strquote
strquote_nonspace [] h = h
strquote_nonspace (c ∷ s) h =
    quote_byte-append_nonspace c (strquote true true s) h.0 (strquote_nonspace s h.1)

strquote-ne-nil : (s : Bytes) → s ≢ [] → strquote true true s ≢ []
unfolding strquote quote_byte
strquote-ne-nil [] h = h
strquote-ne-nil (c ∷ s) h = ground arith

-- The arguments of a file command: a name that the sender has quoted with both flags, and two
-- words more. The receiver reads the three words back, and `strdequote` restores the name.
pub parse_args-strquote :
    (name size time : Bytes)
    → name ≢ []
    → All (λ c. c < 256) name
    → IsWord size
    → IsWord time
    → (parse_args 3 (join_words (strquote true true name ∷ size ∷ time ∷ []))
        ≡ some (strquote true true name ∷ size ∷ time ∷ [], []))
      × (strdequote (strquote true true name) ≡ name)
parse_args-strquote name size time ne h hs ht = (
  parse_args-join_words (strquote true true name ∷ size ∷ time ∷ [])
      ((strquote-ne-nil name ne, strquote_nonspace name h), (hs, (ht, tt))),
  strdequote-strquote true true name h,
)
