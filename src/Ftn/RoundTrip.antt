-- ===== src/Ftn/RoundTrip.antt =====
-- ftnaddr.c: an address is read back from its text.
use binkd.Base.{
  ℕ, suc, ◌^◌, ◌≤◌, ◌<◌, Bool, true, false, not, ◌||◌, List, [], ◌∷◌, ◌++◌, Option, none, some,
  Bytes, bytes_eq, All, length, ◌≡◌, refl, sym, ◌∙◌, ap, arith, if◌then◌else◌, Bool-cases, inl, inr,
}
use mathlib.Core.List.{append_assoc}
use binkd.Base.Int.{pos, eqb_ℤ}
use binkd.Text.{isdigit, isalpha}
use binkd.Ftn.{FtnAddr, is_unknown}
use binkd.Ftn.Domain.{FtnDomain}
use binkd.Ftn.Parse.{
  Token, t_sep, t_num, t_word, is_word, max_domain, gettokens, add_token, domain_name, parse_domain,
  parse_end, parse_tokens, parse_ftnaddress,
}
use binkd.Ftn.Print.{print_int, xftnaddress_to_str}
use binkd.Ftn.Tokens.{
  StopsNum, gettoken_word, gettoken_sep, gettokens_step, nulls, gettokens_end, gettokens_num,
  gettokens_sep,
}

-- A domain that the parser takes as one word and leaves as it is.
abbrev pub IsDomain : List FtnDomain → Bytes → Type 0
IsDomain domains [] = Unit
IsDomain domains (c ∷ w) =
    (isalpha c ≡ true)
    × All (λ d. is_word d ≡ true) (c ∷ w)
    × (length (c ∷ w) ≤ max_domain)
    × (domain_name (c ∷ w) domains ≡ c ∷ w)

domain_text : Bytes → Bytes
domain_text [] = []
domain_text (c ∷ w) = b'@' ∷ c ∷ w

domain_tokens : ℕ → Bytes → List Token
domain_tokens n [] = nulls (suc (suc n))
domain_tokens n (c ∷ w) = t_sep b'@' ∷ t_word (c ∷ w) ∷ nulls n

gettokens-domain_text :
    (domains : List FtnDomain) (n : ℕ) (w : Bytes)
    → IsDomain domains w
    → gettokens (suc (suc n)) (domain_text w) ≡ some (domain_tokens n w)
unfolding domain_text domain_tokens
gettokens-domain_text domains n [] h = gettokens_end (suc (suc n))
gettokens-domain_text domains n (c ∷ w) h =
    gettokens_step (suc n) (b'@' ∷ c ∷ w) (c ∷ w) (t_sep b'@') (gettoken_sep b'@' (c ∷ w) refl)
    ∙ ap (add_token (t_sep b'@')) (
        gettokens_step n (c ∷ w) [] (t_word (c ∷ w)) (gettoken_word c w h.0 h.1 h.2)
        ∙ ap (add_token (t_word (c ∷ w))) (gettokens_end n))

point_text : ℕ → Bool → Bytes
point_text p force = if not (eqb_ℤ (pos p) (pos 0)) || force then b'.' ∷ print_int (pos p) else []

address_text : ℕ → ℕ → ℕ → Bytes → Bytes
address_text z net node rest =
    print_int (pos z) ++ (b':' ∷ (print_int (pos net) ++ (b'/' ∷ (print_int (pos node) ++ rest))))

tokens_of : ℕ → ℕ → ℕ → List Token → List Token
tokens_of z net node ts = t_num z ∷ t_sep b':' ∷ t_num net ∷ t_sep b'/' ∷ t_num node ∷ ts

add_tokens : ℕ → ℕ → ℕ → Option (List Token) → Option (List Token)
add_tokens z net node none = none
add_tokens z net node (some ts) = some (tokens_of z net node ts)

gettokens-address_text :
    (k z net node : ℕ) (rest : Bytes) (ts : List Token)
    → z < 2 ^ 31
    → net < 2 ^ 31
    → node < 2 ^ 31
    → StopsNum rest
    → gettokens k rest ≡ some ts
    → gettokens (suc (suc (suc (suc (suc k))))) (address_text z net node rest)
      ≡ some (tokens_of z net node ts)
unfolding address_text tokens_of isdigit
gettokens-address_text k z net node rest ts hz hn hm stop e =
    let last : gettokens (suc k) (print_int (pos node) ++ rest) ≡ some (t_num node ∷ ts) =
      gettokens_num k node rest hm stop ∙ ap (add_token (t_num node)) e in
    let slash : gettokens (suc (suc k)) (b'/' ∷ (print_int (pos node) ++ rest))
        ≡ some (t_sep b'/' ∷ t_num node ∷ ts) =
      gettokens_sep (suc k) b'/' (print_int (pos node) ++ rest) refl
      ∙ ap (add_token (t_sep b'/')) last in
    let nets : gettokens (suc (suc (suc k)))
          (print_int (pos net) ++ (b'/' ∷ (print_int (pos node) ++ rest)))
        ≡ some (t_num net ∷ t_sep b'/' ∷ t_num node ∷ ts) =
      gettokens_num (suc (suc k)) net (b'/' ∷ (print_int (pos node) ++ rest)) hn refl
      ∙ ap (add_token (t_num net)) slash in
    let colon : gettokens (suc (suc (suc (suc k))))
          (b':' ∷ (print_int (pos net) ++ (b'/' ∷ (print_int (pos node) ++ rest))))
        ≡ some (t_sep b':' ∷ t_num net ∷ t_sep b'/' ∷ t_num node ∷ ts) =
      gettokens_sep (suc (suc (suc k))) b':'
        (print_int (pos net) ++ (b'/' ∷ (print_int (pos node) ++ rest))) refl
      ∙ ap (add_token (t_sep b':')) nets in
    gettokens_num (suc (suc (suc (suc k)))) z
      (b':' ∷ (print_int (pos net) ++ (b'/' ∷ (print_int (pos node) ++ rest)))) hz refl
    ∙ ap (add_token (t_num z)) colon

-- The tokens behind the node of an address that is printed whole.
point_tokens : ℕ → Bytes → List Token
point_tokens p w = t_sep b'.' ∷ t_num p ∷ domain_tokens 1 w

domain_stops : (w : Bytes) → StopsNum (domain_text w)
unfolding domain_text isdigit
domain_stops [] = tt
domain_stops (c ∷ w) = refl

gettokens-point :
    (domains : List FtnDomain) (p : ℕ) (w : Bytes)
    → p < 2 ^ 31
    → IsDomain domains w
    → gettokens 5 (b'.' ∷ (print_int (pos p) ++ domain_text w)) ≡ some (point_tokens p w)
unfolding point_tokens
gettokens-point domains p w h d =
    gettokens_sep 4 b'.' (print_int (pos p) ++ domain_text w) refl
    ∙ ap (add_token (t_sep b'.')) (
        gettokens_num 3 p (domain_text w) h (domain_stops w)
        ∙ ap (add_token (t_num p)) (gettokens-domain_text domains 1 w d))

-- An address with four known numbers.
abbrev pub whole : ℕ → ℕ → ℕ → ℕ → Bytes → FtnAddr
whole z net node p w = record { domain = w; z = pos z; net = pos net; node = pos node; p = pos p }

parse_tokens-point :
    (domains : List FtnDomain) (z net node p : ℕ) (w : Bytes)
    → IsDomain domains w
    → parse_tokens domains (tokens_of z net node (point_tokens p w)) ≡ some (whole z net node p w)
unfolding parse_tokens tokens_of point_tokens domain_tokens parse_domain parse_end bytes_eq
parse_tokens-point domains z net node p [] d = refl
parse_tokens-point domains z net node p (c ∷ w) d = rw d.3 refl

parse_tokens-boss :
    (domains : List FtnDomain) (z net node : ℕ) (w : Bytes)
    → IsDomain domains w
    → parse_tokens domains (tokens_of z net node (domain_tokens 3 w)) ≡ some (whole z net node 0 w)
unfolding parse_tokens tokens_of domain_tokens parse_domain parse_end bytes_eq
parse_tokens-boss domains z net node [] d = refl
parse_tokens-boss domains z net node (c ∷ w) d = rw d.3 refl

abbrev needs_point : FtnAddr → Bool → Bool
needs_point fa force = not (eqb_ℤ fa.p (pos 0)) || is_unknown fa.node || force

boss_zero :
    (z net node p : ℕ) (w : Bytes) (force : Bool)
    → needs_point (whole z net node p w) force ≡ false
    → p ≡ 0
unfolding eqb_ℤ
boss_zero z net node p w force h = ground arith

after_node : FtnAddr → Bool → Bytes
after_node fa force =
    (if needs_point fa force then b'.' ∷ print_int fa.p else []) ++ domain_text fa.domain

regroup :
    (c d : ℕ) (z net node point domain : Bytes)
    → z ++ c ∷ [] ++ net ++ d ∷ node ++ point ++ domain
      ≡ z ++ (c ∷ (net ++ (d ∷ (node ++ (point ++ domain)))))
regroup c d z net node point domain = simp (append_assoc) refl

domain_text_lem : (w : Bytes) → (if bytes_eq w [] then [] else b'@' ∷ w) ≡ domain_text w
unfolding bytes_eq domain_text
domain_text_lem [] = refl
domain_text_lem (c ∷ w) = refl

to_str_shape :
    (z net node p : ℕ) (w : Bytes) (force : Bool)
    → xftnaddress_to_str (whole z net node p w) force
      ≡ address_text z net node (after_node (whole z net node p w) force)
unfolding xftnaddress_to_str after_node address_text eqb_ℤ
to_str_shape z net node p w force =
    let point = if needs_point (whole z net node p w) force then b'.' ∷ print_int (pos p) else [] in
    ap
      (λ d.
        print_int (pos z)
        ++ b':' ∷ []
        ++ print_int (pos net)
        ++ b'/' ∷ print_int (pos node)
        ++ point
        ++ d)
      (domain_text_lem w)
    ∙ regroup b':' b'/' (print_int (pos z)) (print_int (pos net)) (print_int (pos node)) point
        (domain_text w)

parse_of :
    (domains : List FtnDomain) (s : Bytes) (ts : List Token) (fa : FtnAddr)
    → gettokens 10 s ≡ some ts
    → parse_tokens domains ts ≡ some fa
    → parse_ftnaddress s domains ≡ some fa
unfolding parse_ftnaddress
parse_of domains s ts fa e h = rw e h

stop_point : isdigit b'.' ≡ false
unfolding isdigit
stop_point = refl

-- parse_ftnaddress gives back an address from the text that xftnaddress_to_str has written, with
-- the point forced or not: the four numbers are known, and the domain is empty or a word of letters,
-- digits and `.-_` that begins with a letter and that the configuration does not rename.
pub parse_ftnaddress-xftnaddress_to_str :
    (domains : List FtnDomain) (z net node p : ℕ) (w : Bytes) (force : Bool)
    → z < 2 ^ 31
    → net < 2 ^ 31
    → node < 2 ^ 31
    → p < 2 ^ 31
    → IsDomain domains w
    → parse_ftnaddress (xftnaddress_to_str (whole z net node p w) force) domains
      ≡ some (whole z net node p w)
unfolding after_node
parse_ftnaddress-xftnaddress_to_str domains z net node p w force hz hn hm hp d =
    rw (to_str_shape z net node p w force)
      (elim (Bool-cases (needs_point (whole z net node p w) force)) [
        | inl e ↦ rw e (
            parse_of domains _ _ (whole z net node p w)
              (gettokens-address_text 5 z net node _ (point_tokens p w) hz hn hm stop_point
                (gettokens-point domains p w hp d))
              (parse_tokens-point domains z net node p w d))
        | inr e ↦ rw e (
            parse_of domains _ _ (whole z net node p w)
              (gettokens-address_text 5 z net node _ (domain_tokens 3 w) hz hn hm (domain_stops w)
                (gettokens-domain_text domains 3 w d))
              (parse_tokens-boss domains z net node w d
                ∙ ap (λ n. some (whole z net node n w)) (sym (boss_zero z net node p w force e))))
      ])
