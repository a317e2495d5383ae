-- ===== src/Protocol/Adr/Accept.antt =====
-- protocol.c: the handlers of M_ADR, M_ERR and M_BSY, and `send_ADR`.
use binkd.Base.{
  Bool, true, false, not, ◌&&◌, ◌||◌, List, [], ◌∷◌, ◌++◌, Option, none, some, Bytes, codes,
  bytes_eq, if◌then◌else◌,
}
use binkd.Base.Int.{pos, minus_one, eqb_ℤ}
use binkd.Ftn.{FtnAddr}
use binkd.Ftn.Compare.{same_address}
use binkd.Ftn.Print.{xftnaddress_to_str}
use binkd.Text.{strquote}
use binkd.Protocol.Env.{Env, Config}
use binkd.Protocol.Send.{msg_send2, bad_try_to}
use binkd.Protocol.Start.{is_some, do_prescan, out_pwd_of}
use binkd.Protocol.State.{m_adr, m_pwd, m_err, m_bsy, Node, State, md_on}
use binkd.Protocol.Adr.{Peers, AkaMask, Seen, Checked, all_seen, gave_up, check_words, is_open}

-- `!ftnamask_cmpm (mask, cnt, fa)`
unfoldable pub mask_matches : Env → Bytes → List FtnAddr → Bool
unfolding xftnaddress_to_str
mask_matches env mask [] = false
mask_matches env mask (fa ∷ fas) =
    env.pmatch_ncase mask (xftnaddress_to_str fa true) || mask_matches env mask fas

unfoldable pub hide_aka : FtnAddr → List FtnAddr → List FtnAddr
unfolding same_address
hide_aka fa [] = []
hide_aka fa (aka ∷ akas) =
    let rest = hide_aka fa akas in if same_address aka fa then rest else aka ∷ rest

unfoldable pub is_presented : FtnAddr → List FtnAddr → Bool
unfolding same_address
is_presented fa [] = false
is_presented fa (aka ∷ akas) = same_address aka fa || is_presented fa akas

unfoldable pub present_aka : FtnAddr → List FtnAddr → List FtnAddr
unfolding is_presented
present_aka fa akas = if is_presented fa akas then akas else akas ++ fa ∷ []

-- The own addresses that a remote with the given addresses is told.
unfoldable pub apply_masks : Env → List FtnAddr → List AkaMask → List FtnAddr → List FtnAddr
unfolding mask_matches hide_aka present_aka
apply_masks env remote [] akas = akas
apply_masks env remote (ps ∷ masks) akas =
    let matches = mask_matches env ps.mask remote in
    let applies = if ps.negated then not matches else matches in
    let changed = if ps.hides then hide_aka ps.fa akas else present_aka ps.fa akas in
    apply_masks env remote masks (if applies then changed else akas)

unfoldable pub akas_text : List FtnAddr → Bytes
unfolding xftnaddress_to_str
akas_text [] = []
akas_text (aka ∷ akas) = b' ' ∷ (xftnaddress_to_str aka false ++ akas_text akas)

-- It is called once in a session.
unfoldable pub send_adr : Peers → State → State
unfolding apply_masks akas_text msg_send2
send_adr peers s =
    let remote : List FtnAddr = elim s.to [ none ↦ s.fa | some node ↦ node.fa ∷ [] ] in
    msg_send2 peers.env m_adr (akas_text (apply_masks peers.env remote peers.akamask peers.akas)) []
      s

-- The passwords of this call are checked against those of the secure nodes.
abbrev pub expects_pwd : State → Bool
expects_pwd s = not (bytes_eq s.expected_pwd []) && not (is_open s.expected_pwd)

-- The modes that the nodes ask for, on an incoming call.
abbrev add_modes : Bool → Bool → State → State
add_modes nd nr s = record s {
  nd_flag = record s.nd_flag { they_nd = s.nd_flag.they_nd || nd };
  nr_flag = record s.nr_flag { want_nr = s.nr_flag.want_nr || nr };
}

unfoldable pub agree_modes : Seen → State → State
agree_modes t s =
    if expects_pwd s
    then add_modes t.secure_nd t.secure_nr s
    else add_modes t.unsecure_nd t.unsecure_nr s

unfoldable pub answer_call : Peers → Seen → State
unfolding send_adr agree_modes
answer_call peers t = agree_modes t (if peers.delay_adr then send_adr peers t.state else t.state)

abbrev send_pwd : Env → Bytes → State → State
send_pwd env pwd s = msg_send2 env m_pwd pwd [] s

-- The password, on an outgoing call: its digest where a challenge was sent.
unfoldable pub send_password : Peers → Node → State → State × Bool
unfolding msg_send2
send_password peers node s =
    let plain = send_pwd peers.env (out_pwd_of node) s in
    elim s.md_challenge [
      | some challenge ↦ (
        record (send_pwd peers.env (peers.env.md_build_digest (out_pwd_of node) challenge) s) {
          md_flag = md_on;
        },
        true,
      )
      | none ↦
          if peers.to_md_flag && not peers.no_md5
          then (bad_try_to (codes "CRAM-MD5 is not supported by remote") s, false)
          else (plain, true)
    ]

unfoldable pub finish_adr : Peers → Config → Seen → Option Node → State × Bool
unfolding answer_call do_prescan send_password
finish_adr peers config t none = (answer_call peers t, true)
finish_adr peers config t (some node) =
    send_password peers node (do_prescan peers.env config t.state)

abbrev pub no_akas_text : Bytes
no_akas_text = codes "No AKAs in common domains or all AKAs are busy"

-- The tests behind the loop, where an address is left.
unfoldable pub accept_akas : Peers → Config → Seen → State × Bool
unfolding finish_adr msg_send2
accept_akas peers config t =
    let s = t.state in
    if is_some s.to && not t.main_aka_ok
    then (bad_try_to (codes "Remote has no needed AKA") s, false)
    else if eqb_ℤ t.ip_verified minus_one
    then (msg_send2 peers.env m_err (codes "Bad remote IP") [] s, false)
    else finish_adr peers config t s.to

unfoldable pub accept_adr : Peers → Config → Seen → List FtnAddr → State × Bool
unfolding accept_akas msg_send2
accept_adr peers config t [] = (msg_send2 peers.env m_bsy no_akas_text [] t.state, false)
accept_adr peers config t (fa ∷ others) = accept_akas peers config t

-- On an outgoing call the password of the node is expected.
abbrev pub expect_own : Option Node → State → State
expect_own none s = s
expect_own (some node) s = record s { expected_pwd = out_pwd_of node }

abbrev pub first_seen : State → Seen
first_seen s = record {
  state = expect_own s.to s;
  ip_verified = pos 0;
  main_aka_ok = false;
  secure_nd = false;
  secure_nr = false;
  unsecure_nd = false;
  unsecure_nr = false;
  busy = [];
}

unfoldable pub end_adr : Peers → Config → Checked → State × Bool
unfolding accept_adr
end_adr peers config (all_seen t) = accept_adr peers config t t.state.fa
end_adr peers config (gave_up s) = (s, false)

unfoldable pub adr_words : Peers → Config → List Bytes → State → State × Bool
unfolding end_adr check_words
adr_words peers config [] s = (s, false)
adr_words peers config (w ∷ words) s =
    end_adr peers config (check_words peers (w ∷ words) (first_seen s))

unfoldable pub adr : Peers → Config → Bytes → State → State × Bool
unfolding adr_words
adr peers config text s = adr_words peers config (peers.env.words (peers.add_shared_akas text)) s

-- M_ERR and M_BSY of the remote end the session.
unfoldable pub r_error : Bytes → State → State × Bool
unfolding strquote
r_error text s = (bad_try_to (strquote true false text) s, false)

unfoldable pub bsy : Bytes → State → State × Bool
unfolding strquote
bsy text s = (bad_try_to (strquote true false text) s, false)
