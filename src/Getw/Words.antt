-- ===== src/Getw/Words.antt =====
-- getw.c: the words that are printed with single spaces are read back.
use binkd.Base.{
  ℕ, zero, suc, true, false, not, ◌&&◌, List, [], ◌∷◌, ◌++◌, Option, none, some, Bytes, All, ◌==◌,
  get_elem?, ◌≡◌, ◌≢◌, refl, ap, arith,
}
use mathlib.Core.List.{append_assoc}
use binkd.Text.Args.{join_words}
use binkd.Getw.{
  GetwFlags, is_in, def_fldsep, plain, goes, stops, plain_step, getw_step, Scanned, scanned,
  prepend, end_of_text, scan_word, skip_in, Getword, no_word, word, skip_one, one, no_more,
  one_word, getwordx2, getwordx,
}

-- A byte that stands for itself: no separator, no quote, and no backslash where it escapes.
abbrev pub PlainByte : GetwFlags → ℕ → Type 0
PlainByte flags c =
    (is_in def_fldsep c ≡ false) × ((c == b'"') ≡ false) × (not flags.noesc && c == 92 ≡ false)

abbrev pub PlainWord : GetwFlags → Bytes → Type 0
PlainWord flags w = (w ≢ []) × All (PlainByte flags) w

-- White space, as at the end of a line.
abbrev pub Blank : Bytes → Type 0
Blank = All (λ c. is_in def_fldsep c ≡ true)

module _ (flags : GetwFlags) where
  abbrev scan : Bytes → Scanned
  scan src = scan_word flags def_fldsep plain false src

  plain_step_byte :
      (c : ℕ) → PlainByte flags c → plain_step flags def_fldsep false c ≡ goes (c ∷ []) plain false
  unfolding plain_step
  plain_step_byte c h = ground (arith, h.0, h.1, h.2)

  plain_step_blank :
      (c : ℕ) → is_in def_fldsep c ≡ true → plain_step flags def_fldsep false c ≡ stops []
  unfolding plain_step
  plain_step_blank c h = ground (arith, h)

  scan_space : (src : Bytes) → scan (b' ' ∷ src) ≡ scanned [] (b' ' ∷ src)
  unfolding scan_word getw_step
  scan_space src = rw (plain_step_blank b' ' refl) refl

  scan-Blank : (end : Bytes) → Blank end → scan end ≡ scanned [] end
  unfolding scan_word end_of_text getw_step
  scan-Blank [] h = refl
  scan-Blank (c ∷ end) h = rw (plain_step_blank c h.0) refl

  scan_plain :
      (w rest : Bytes)
      → All (PlainByte flags) w
      → scan rest ≡ scanned [] rest
      → scan (w ++ rest) ≡ scanned w rest
  unfolding scan_word getw_step
  scan_plain [] rest h e = e
  scan_plain (c ∷ w) rest h e =
      rw (plain_step_byte c h.0) (ap (prepend (c ∷ [])) (scan_plain w rest h.1 e))

  skip-Blank : (end : Bytes) → Blank end → skip_in def_fldsep end ≡ []
  unfolding skip_in
  skip-Blank [] h = refl
  skip-Blank (c ∷ end) h = rw (h.0) (skip-Blank end h.1)

  skip_one-Blank : (end : Bytes) → Blank end → Blank (skip_one def_fldsep end)
  unfolding skip_one
  skip_one-Blank [] h = tt
  skip_one-Blank (c ∷ end) h = rw (h.0) h.1

  one_word-Blank : (end : Bytes) → Blank end → one_word flags def_fldsep def_fldsep end ≡ no_more
  unfolding one_word
  one_word-Blank end h = rw (skip-Blank end h) refl

  one_word_plain :
      (w rest : Bytes)
      → flags.hash ≡ false
      → PlainWord flags w
      → scan rest ≡ scanned [] rest
      → one_word flags def_fldsep def_fldsep (w ++ rest) ≡ one w rest
  unfolding one_word skip_in
  one_word_plain [] rest f h e = absurd (h.0 refl)
  one_word_plain (c ∷ w) rest f h e = rw (h.1.0.0, f) (rw (scan_plain (c ∷ w) rest h.1 e) refl)

  getwordx-Blank : (n : ℕ) (end : Bytes) → Blank end → getwordx flags n end ≡ no_word
  unfolding getwordx getwordx2
  getwordx-Blank zero end h = rw (one_word-Blank end h) refl
  getwordx-Blank (suc n) end h = rw (one_word-Blank end h) refl

abbrev pub word_of : Option Bytes → Getword
word_of none = no_word
word_of (some w) = word w

-- Words without white space, quotes and escapes that are printed with single spaces, and white space
-- behind them, are read back one by one, and no word more, where comments are off.
pub getwordx-join_words :
    (flags : GetwFlags) (n : ℕ) (ws : List Bytes) (end : Bytes)
    → flags.hash ≡ false
    → All (PlainWord flags) ws
    → Blank end
    → getwordx flags n (join_words ws ++ end) ≡ word_of (get_elem? ws n)
unfolding getwordx getwordx2 skip_one
getwordx-join_words flags n [] end f h b = getwordx-Blank flags n end b
getwordx-join_words flags zero (w ∷ []) end f h b =
    rw (one_word_plain flags w end f h.0 (scan-Blank flags end b)) refl
getwordx-join_words flags (suc n) (w ∷ []) end f h b =
    rw (one_word_plain flags w end f h.0 (scan-Blank flags end b))
      (getwordx-Blank flags n (skip_one def_fldsep end) (skip_one-Blank flags end b))
getwordx-join_words flags zero (w ∷ v ∷ ws) end f h b =
    let more = join_words (v ∷ ws) ++ end in
    rw (append_assoc w (b' ' ∷ join_words (v ∷ ws)) end)
      (rw (one_word_plain flags w (b' ' ∷ more) f h.0 (scan_space flags more)) refl)
getwordx-join_words flags (suc n) (w ∷ v ∷ ws) end f h b =
    let more = join_words (v ∷ ws) ++ end in
    rw (append_assoc w (b' ' ∷ join_words (v ∷ ws)) end) (
      rw (one_word_plain flags w (b' ' ∷ more) f h.0 (scan_space flags more))
        (getwordx-join_words flags n (v ∷ ws) end f h.1 b))
