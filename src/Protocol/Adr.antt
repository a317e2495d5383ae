-- ===== src/Protocol/Adr.antt =====
-- protocol.c: the checks of the addresses in M_ADR.
pub mod Accept
pub mod Password
pub mod Guard
use binkd.Base.{
  ℕ, Bool, true, false, not, ◌&&◌, ◌||◌, List, [], ◌∷◌, ◌++◌, Option, none, some, Bytes, codes,
  bytes_eq, ◌==◌, if◌then◌else◌,
}
use binkd.Base.Int.{ℤ, pos, negsuc, minus_one, eqb_ℤ}
use binkd.Ftn.{FtnAddr, is_4d}
use binkd.Ftn.Compare.{same_address}
use binkd.Ftn.Domain.{FtnDomain, get_matched_domain}
use binkd.Ftn.Parse.{parse_ftnaddress}
use binkd.Ftn.Print.{xftnaddress_to_str}
use binkd.Text.{strquote}
use binkd.Protocol.Env.{Env, Config}
use binkd.Protocol.Send.{msg_send2, bad_try_to}
use binkd.Protocol.Start.{is_some, do_prescan, out_pwd_of}
use binkd.Protocol.State.{m_adr, m_pwd, m_err, m_bsy, Node, NrFlag, NdFlag, State, MdFlag, or_md}

-- The fields of `FTN_NODE` that the handler reads.
pub record Peer : Type 0 where
  pub listed : Bool
  pub pwd : Bytes
  pub out_pwd : Option Bytes
  pub md_flag : MdFlag
  pub nd_flag : Bool
  pub nr_flag : Bool
  pub restrict_ip : ℕ
  pub has_pipe : Bool

-- How the address of the connection compares with the hosts of a node: it is one of them, none of
-- them resolves, it is none of them, or it is not known.
pub data SourceIp : Type 0 where
  ip_match ip_unresolved ip_differs ip_unknown : SourceIp

-- `akachain`: an address to hide or to present where the mask matches the remote, or does not.
pub record AkaMask : Type 0 where
  pub hides : Bool
  pub negated : Bool
  pub mask : Bytes
  pub fa : FtnAddr

-- What the handler takes from the configuration, the network and the busy flags.
pub record Peers : Type 0 where
  pub env : Env
  pub domains : List FtnDomain
  pub akas : List FtnAddr  -- `config->pAddr`
  pub get_node_info : FtnAddr → Option Peer
  pub bsy_add : List FtnAddr → FtnAddr → Bool  -- after the addresses added so far
  pub source_ip : FtnAddr → SourceIp
  pub add_shared_akas : Bytes → Bytes  -- the text with the shared addresses
  pub remote_fa : Option FtnAddr
  pub uses_proxy : Bool
  pub delay_adr : Bool
  pub akamask : List AkaMask
  pub to_md_flag : Bool  -- `to->MD_flag` is MD_ON
  pub no_md5 : Bool

-- The variables of the loop over the addresses, with those that are busy.
pub record Seen : Type 0 where
  pub state : State
  pub ip_verified : ℤ
  pub main_aka_ok : Bool
  pub secure_nd : Bool
  pub secure_nr : Bool
  pub unsecure_nd : Bool
  pub unsecure_nr : Bool
  pub busy : List FtnAddr

-- What a check of an address comes to: it goes on, the address is dropped, or the session is.
pub data AddressCheck : Type 0 where
  goes_on skips : Seen → AddressCheck
  ends : State → AddressCheck

abbrev pub is_open : Bytes → Bool
is_open pwd = bytes_eq pwd (codes "-")

abbrev pub is_disabled : Bytes → Bool
is_disabled pwd = bytes_eq pwd (codes "!")

-- The address does not come from where its node may call from.
unfoldable pub refuse_ip : Peers → Peer → Seen → AddressCheck
unfolding msg_send2
refuse_ip peers pn t =
    if not (is_open pn.pwd) && not (is_some t.state.to)
    then ends (msg_send2 peers.env m_err (codes "Bad source IP") [] t.state)
    else skips (record t {
      ip_verified = if eqb_ℤ t.ip_verified (pos 0) then minus_one else t.ip_verified;
    })

unfoldable pub compare_ip : Peers → Peer → Seen → SourceIp → AddressCheck
unfolding refuse_ip
compare_ip peers pn t ip_match = goes_on (record t { ip_verified = pos 2 })
compare_ip peers pn t ip_differs = refuse_ip peers pn t
compare_ip peers pn t _ = if pn.restrict_ip == 2 then refuse_ip peers pn t else goes_on t

unfoldable pub check_ip : Peers → FtnAddr → Option Peer → Seen → AddressCheck
unfolding compare_ip
check_ip peers fa none t = goes_on t
check_ip peers fa (some pn) t =
    if not (pn.restrict_ip == 0)
      && (not (is_some t.state.to) || (not pn.has_pipe && not peers.uses_proxy))
    then compare_ip peers pn t (peers.source_ip fa)
    else goes_on (record t { ip_verified = pos 1 })

-- The address that was given on the command line.
unfoldable pub is_remote_fa : Peers → FtnAddr → Bool
unfolding same_address
is_remote_fa peers fa = elim peers.remote_fa [ none ↦ false | some remote ↦ same_address remote fa ]

abbrev pub expect : Bytes → Seen → Seen
expect pwd t = record t { state = record t.state { expected_pwd = pwd } }

abbrev pub add_md : MdFlag → Seen → Seen
add_md md t = record t { state = record t.state { md_flag = or_md t.state.md_flag md } }

-- The password of a node against the one that is expected so far.
unfoldable pub match_pwd : Peers → FtnAddr → MdFlag → Bytes → Seen → AddressCheck
unfolding is_remote_fa
match_pwd peers fa md pwd t =
    let expected = t.state.expected_pwd in
    if is_disabled pwd && not (is_remote_fa peers fa)
    then skips (expect [] t)
    else if is_open expected || is_disabled expected
    then goes_on (add_md md (expect pwd t))
    else if bytes_eq expected pwd || is_disabled pwd
    then goes_on (add_md md t)
    else skips (if is_some t.state.to then t else expect [] t)

unfoldable pub match_given : Peers → FtnAddr → MdFlag → Option Bytes → Seen → AddressCheck
unfolding match_pwd
match_given peers fa md none t = goes_on t
match_given peers fa md (some pwd) t =
    if is_open pwd then goes_on t else match_pwd peers fa md pwd t

unfoldable pub check_node_pwd : Peers → FtnAddr → Option Peer → Seen → AddressCheck
unfolding match_given
check_node_pwd peers fa none t = goes_on t
check_node_pwd peers fa (some pn) t =
    let pwd = if is_some t.state.to then pn.out_pwd else some pn.pwd in
    if bytes_eq t.state.expected_pwd [] then goes_on t else match_given peers fa pn.md_flag pwd t

abbrev pub is_main : Option Node → FtnAddr → Bool
is_main none fa = false
is_main (some node) fa = same_address fa node.fa

-- The node has a password.
abbrev pub is_guarded : Option Peer → Bool
is_guarded none = false
is_guarded (some pn) = not (is_open pn.pwd)

-- The address is taken for the session, if it is not busy.
unfoldable pub take_address : Peers → FtnAddr → Option Peer → Seen → AddressCheck
unfolding msg_send2 xftnaddress_to_str same_address
take_address peers fa pn t =
    let text = codes "Secure AKA " ++ (xftnaddress_to_str fa false ++ codes " busy") in
    if peers.bsy_add t.state.fa fa
    then goes_on (record t {
      state = record t.state { fa = t.state.fa ++ fa ∷ [] };
      main_aka_ok = t.main_aka_ok || is_main t.state.to fa;
    })
    else if is_guarded pn && not (is_some t.state.to)
    then ends (msg_send2 peers.env m_bsy text [] t.state)
    else goes_on (record t { busy = t.busy ++ fa ∷ [] })

-- The modes of a node that calls.
unfoldable pub node_modes : Option Peer → Seen → Seen
node_modes none t = t
node_modes (some pn) t =
    let secure = not (is_open pn.pwd) in
    let nr = pn.nd_flag || pn.nr_flag in
    if is_some t.state.to then t else record t {
      secure_nd = t.secure_nd || (secure && pn.nd_flag);
      secure_nr = t.secure_nr || (secure && nr);
      unsecure_nd = t.unsecure_nd || (not secure && pn.nd_flag);
      unsecure_nr = t.unsecure_nr || (not secure && nr);
    }

abbrev pub then_check : AddressCheck → (Seen → AddressCheck) → AddressCheck
then_check (goes_on t) next = next t
then_check (skips t) next = skips t
then_check (ends s) next = ends s

abbrev set_listed : Option Peer → Seen → Seen
set_listed none t = t
set_listed (some pn) t = record t {
  state = record t.state { listed_flag = t.state.listed_flag || pn.listed };
}

-- One address, with its domain.
unfoldable pub check_address : Peers → FtnAddr → Option Peer → Seen → AddressCheck
unfolding check_ip check_node_pwd take_address node_modes
check_address peers fa pn t = then_check (check_ip peers fa pn t) λ u.
    then_check (check_node_pwd peers fa pn (set_listed pn u))
      λ v. then_check (take_address peers fa pn v) λ w. goes_on (node_modes pn w)

unfoldable pub with_domain : Peers → FtnAddr → FtnAddr
unfolding get_matched_domain
with_domain peers fa =
    if bytes_eq fa.domain []
    then record fa { domain = get_matched_domain fa.z peers.akas peers.domains }
    else fa

unfoldable pub check_parsed : Peers → Option FtnAddr → Seen → AddressCheck
unfolding check_address with_domain msg_send2 is_4d
check_parsed peers none t = ends (msg_send2 peers.env m_err (codes "Bad address") [] t.state)
check_parsed peers (some parsed) t =
    let fa = with_domain peers parsed in
    if is_4d parsed
    then check_address peers fa (peers.get_node_info fa) t
    else ends (msg_send2 peers.env m_err (codes "Bad address") [] t.state)

-- The loop over the words; the session ends, or goes on with its variables.
pub data Checked : Type 0 where
  all_seen : Seen → Checked
  gave_up : State → Checked

abbrev pub go_through : (Seen → Checked) → AddressCheck → Checked
go_through rest (goes_on t) = rest t
go_through rest (skips t) = rest t
go_through rest (ends s) = gave_up s

unfoldable pub check_words : Peers → List Bytes → Seen → Checked
unfolding check_parsed parse_ftnaddress
check_words peers [] t = all_seen t
check_words peers (w ∷ words) t =
    go_through (λ u. check_words peers words u)
      (check_parsed peers (parse_ftnaddress w peers.domains) t)
