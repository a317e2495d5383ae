-- ===== src/Protocol/Nul/Options.antt =====
-- protocol.c: which options of the remote are on behind M_NUL OPT.
use binkd.Base.{
  Bool, true, false, ◌&&◌, ◌||◌, List, [], ◌∷◌, ◌++◌, Bytes, codes, bytes_eq, ◌≡◌, refl, ap, sym,
  ◌∙◌, if_ind, Bool-cases, inl, inr,
}
use binkd.Text.{strquote}
use binkd.Protocol.Login.{any_word}
use binkd.Protocol.State.{State}
use binkd.Protocol.Nul.{
  Greetings, opt_nr, opt_nd, opt_nda, opt_crypt, opt_cram, opt_word, opt_words, after_prefix, nul,
  nul_text, nul_other, has_prefix,
}

-- The flags that an option turns on.
pub record Flags : Type 0 where
  pub nr : Bool
  pub nd : Bool
  pub nda : Bool
  pub crypt : Bool

abbrev pub flags_of : State → Flags
flags_of s = record {
  nr = s.nr_flag.we_nr;
  nd = s.nd_flag.we_nd;
  nda = s.nd_flag.can_nda;
  crypt = s.crypt_flag.they_crypt;
}

abbrev pub add_flags : List Bytes → Flags → Flags
add_flags ws f = record {
  nr = f.nr || any_word (codes "NR") ws;
  nd = f.nd || any_word (codes "ND") ws;
  nda = f.nda || any_word (codes "NDA") ws;
  crypt = f.crypt || any_word (codes "CRYPT") ws;
}

or_true : (b : Bool) → true ≡ b || true
or_true true = refl
or_true false = refl

or_false : (b : Bool) → b ≡ b || false
or_false true = refl
or_false false = refl

or_assoc : (a b c : Bool) → (a || b) || c ≡ a || (b || c)
or_assoc true b c = refl
or_assoc false b c = refl

abbrev on_nr : Bytes → Flags → Flags
on_nr w f = record f { nr = f.nr || bytes_eq w (codes "NR") }

opt_nr-flags_of : (w : Bytes) (s : State) → flags_of (opt_nr w s) ≡ on_nr w (flags_of s)
unfolding opt_nr
opt_nr-flags_of w s = elim (Bool-cases (bytes_eq w (codes "NR"))) [
  | inl e ↦ rw e (ap (λ (b : Bool). record (flags_of s) { nr = b }) (or_true (flags_of s).nr))
  | inr e ↦ rw e (ap (λ (b : Bool). record (flags_of s) { nr = b }) (or_false (flags_of s).nr))
]

abbrev on_nd : Bytes → Flags → Flags
on_nd w f = record f { nd = f.nd || bytes_eq w (codes "ND") }

opt_nd-flags_of : (w : Bytes) (s : State) → flags_of (opt_nd w s) ≡ on_nd w (flags_of s)
unfolding opt_nd
opt_nd-flags_of w s = elim (Bool-cases (bytes_eq w (codes "ND"))) [
  | inl e ↦ rw e (ap (λ (b : Bool). record (flags_of s) { nd = b }) (or_true (flags_of s).nd))
  | inr e ↦ rw e (ap (λ (b : Bool). record (flags_of s) { nd = b }) (or_false (flags_of s).nd))
]

abbrev on_nda : Bytes → Flags → Flags
on_nda w f = record f { nda = f.nda || bytes_eq w (codes "NDA") }

opt_nda-flags_of : (w : Bytes) (s : State) → flags_of (opt_nda w s) ≡ on_nda w (flags_of s)
unfolding opt_nda
opt_nda-flags_of w s = elim (Bool-cases (bytes_eq w (codes "NDA"))) [
  | inl e ↦ rw e (ap (λ (b : Bool). record (flags_of s) { nda = b }) (or_true (flags_of s).nda))
  | inr e ↦ rw e (ap (λ (b : Bool). record (flags_of s) { nda = b }) (or_false (flags_of s).nda))
]

abbrev on_crypt : Bytes → Flags → Flags
on_crypt w f = record f { crypt = f.crypt || bytes_eq w (codes "CRYPT") }

opt_crypt-flags_of : (w : Bytes) (s : State) → flags_of (opt_crypt w s) ≡ on_crypt w (flags_of s)
unfolding opt_crypt
opt_crypt-flags_of w s = elim (Bool-cases (bytes_eq w (codes "CRYPT"))) [
  | inl e ↦ rw e (ap (λ (b : Bool). record (flags_of s) { crypt = b }) (or_true (flags_of s).crypt))
  | inr e ↦
      rw e (ap (λ (b : Bool). record (flags_of s) { crypt = b }) (or_false (flags_of s).crypt))
]

opt_cram-flags_of :
    (io : Greetings) (w : Bytes) (s : State) → flags_of (opt_cram io w s) ≡ flags_of s
unfolding opt_cram
opt_cram-flags_of io w s =
    if_ind (λ (t : State). flags_of t ≡ flags_of s) (has_prefix (codes "CRAM-") w && io.may_md5)
      (λ e. refl) (λ e. refl)

abbrev on_word : Bytes → Flags → Flags
on_word w f = on_crypt w (on_nda w (on_nd w (on_nr w f)))

opt_word-flags_of :
    (io : Greetings) (w : Bytes) (s : State) → flags_of (opt_word io w s) ≡ on_word w (flags_of s)
unfolding opt_word
opt_word-flags_of io w s =
    opt_cram-flags_of io w _
    ∙ opt_crypt-flags_of w _
    ∙ ap (on_crypt w) (
        opt_nda-flags_of w _
        ∙ ap (on_nda w) (opt_nd-flags_of w _ ∙ ap (on_nd w) (opt_nr-flags_of w s)))

add_flags_cons :
    (w : Bytes) (ws : List Bytes) (f : Flags) → add_flags ws (on_word w f) ≡ add_flags (w ∷ ws) f
add_flags_cons w ws f =
    rw (or_assoc f.nr _ _, or_assoc f.nd _ _, or_assoc f.nda _ _, or_assoc f.crypt _ _) refl

add_flags_none : (f : Flags) → f ≡ add_flags [] f
add_flags_none f =
    rw (sym (or_false f.nr), sym (or_false f.nd), sym (or_false f.nda), sym (or_false f.crypt)) refl

opt_words-flags_of :
    (io : Greetings) (ws : List Bytes) (s : State)
    → flags_of (opt_words io ws s) ≡ add_flags ws (flags_of s)
unfolding opt_words
opt_words-flags_of io [] s = add_flags_none (flags_of s)
opt_words-flags_of io (w ∷ ws) s =
    opt_words-flags_of io ws (opt_word io w s)
    ∙ ap (add_flags ws) (opt_word-flags_of io w s)
    ∙ add_flags_cons w ws (flags_of s)

-- Behind M_NUL OPT each of the options NR, ND, NDA and CRYPT of the remote is on exactly where it was
-- on before or is a word of the text, whatever the other words are; the session goes on.
pub nul-flags_of :
    (io : Greetings) (buf options : Bytes) (s : State)
    → strquote true false buf ≡ codes "OPT " ++ options
    → (flags_of (nul io buf s).0 ≡ add_flags (io.words options) (flags_of s))
      × ((nul io buf s).1 ≡ true)
unfolding nul nul_text nul_other after_prefix
nul-flags_of io buf options s e = (
  ap (λ text. flags_of (nul_text io text s)) e ∙ opt_words-flags_of io (io.words options) s,
  refl,
)
