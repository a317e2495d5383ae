-- ===== src/Tests/Calls.antt =====
-- protocol.c: the theorem on the addresses of a remote at a concrete call.
use binkd.Base.{true, false, [], ◌∷◌, ◌++◌, some, none, codes, bytes_eq, ◌≡◌, refl}
use binkd.Ftn.RoundTrip.{whole}
use binkd.Protocol.State.{State, md_on}
use binkd.Protocol.State.{p_secure}
use binkd.Protocol.Login.{is_cram, pwd}
use binkd.Protocol.Login.Digest.{pwd_digest}
use binkd.Protocol.Adr.{Peers, Peer, ip_unknown}
use binkd.Protocol.Adr.Accept.{adr}
use binkd.Protocol.Adr.Guard.{AcceptsGuarded, adr-AcceptsGuarded}
use binkd.Text.{same_letters, strquote, quote_byte, iscntrl}
use binkd.Protocol.Nul.{Greetings, nul}
use binkd.Protocol.Nul.Options.{flags_of, add_flags, nul-flags_of}
use binkd.Tests.{env, config, start}

abbrev peer : Peer
peer = record {
  listed = true;
  pwd = codes "pw";
  out_pwd = none;
  md_flag = md_on;
  nd_flag = false;
  nr_flag = false;
  restrict_ip = 0;
  has_pipe = false;
}

-- Every address is that of a node with the password "pw".
abbrev peers : Peers
peers = record {
  env = record env { words = λ text. text ∷ [] };
  domains = [];
  akas = [];
  get_node_info = λ fa. some peer;
  bsy_add = λ fas fa. true;
  source_ip = λ fa. ip_unknown;
  add_shared_akas = λ text. text;
  remote_fa = none;
  uses_proxy = false;
  delay_adr = false;
  akamask = [];
  to_md_flag = true;
  no_md5 = false;
}

abbrev called : State
called = record start { expected_pwd = codes "-" }

-- The address is taken, with the password of its node.
adr_run :
    (adr peers config (codes "2:5047/13.1@net") called).0.fa ≡ whole 2 5047 13 1 (codes "net") ∷ []
unfolding adr bytes_eq
adr_run = refl

adr_accepts : (adr peers config (codes "2:5047/13.1@net") called).1 ≡ true
unfolding adr bytes_eq
adr_accepts = refl

adr-AcceptsGuarded_example :
    AcceptsGuarded peers (adr peers config (codes "2:5047/13.1@net") called)
adr-AcceptsGuarded_example =
    adr-AcceptsGuarded peers config (codes "2:5047/13.1@net") called refl refl

abbrev greetings : Greetings
greetings = record {
  words = λ text. codes "ND" ∷ codes "CRYPT" ∷ codes "GZ" ∷ [];
  atoi = λ text. 1;
  md_get_challenge = λ word. none;
  may_md5 = false;
}

options_quoted : strquote true false (codes "OPT ND CRYPT GZ") ≡ codes "OPT " ++ codes "ND CRYPT GZ"
unfolding strquote quote_byte iscntrl
options_quoted = refl

nul-flags_of_example :
    (flags_of (nul greetings (codes "OPT ND CRYPT GZ") start).0
      ≡ add_flags (codes "ND" ∷ codes "CRYPT" ∷ codes "GZ" ∷ []) (flags_of start))
    × ((nul greetings (codes "OPT ND CRYPT GZ") start).1 ≡ true)
nul-flags_of_example =
    nul-flags_of greetings (codes "OPT ND CRYPT GZ") (codes "ND CRYPT GZ") start options_quoted

-- No password is left to expect, and a challenge was sent.
abbrev refused : State
refused = record start { expected_pwd = []; md_challenge = some (codes "c") }

cram_word : is_cram (codes "CRAM-") ≡ true
unfolding is_cram same_letters bytes_eq
cram_word = refl

empty_digest : same_letters (env.md_build_digest [] (codes "c")) (codes "CRAM-") ≡ true
unfolding same_letters bytes_eq
empty_digest = refl

pwd_digest_example :
    ((pwd env config (codes "CRAM-") refused).0.security ≡ p_secure)
    × ((pwd env config (codes "CRAM-") refused).1 ≡ true)
pwd_digest_example =
    pwd_digest env config (codes "CRAM-") (codes "c") refused refl refl (λ e. cc (e)) cram_word refl
      empty_digest
