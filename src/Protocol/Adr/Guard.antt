-- ===== src/Protocol/Adr/Guard.antt =====
-- protocol.c: an address that is taken for an incoming session is guarded by the password that the
-- session expects.
use mathlib.Core.Path.{subst}
use binkd.Base.{
  Bool, true, false, not, ◌&&◌, List, [], ◌∷◌, Option, none, some, Bytes, All, All-append, bytes_eq,
  bytes_eq_iff, if◌then◌else◌, ◌≡◌, inl, inr, refl, sym, if_ind,
}
use binkd.Base.Int.{minus_one, eqb_ℤ}
use binkd.Ftn.{FtnAddr, is_4d}
use binkd.Ftn.Parse.{parse_ftnaddress}
use binkd.Protocol.Env.{Config}
use binkd.Protocol.Send.{msg_send2}
use binkd.Protocol.Start.{is_some}
use binkd.Protocol.State.{Node, State}
use binkd.Protocol.Adr.{
  Peer, Peers, Seen, AddressCheck, goes_on, skips, ends, is_open, check_ip, match_given,
  check_node_pwd, take_address, node_modes, is_guarded, set_listed, check_address, with_domain,
  check_parsed, Checked, all_seen, gave_up, go_through, check_words,
}
use binkd.Protocol.Adr.Accept.{
  adr, adr_words, end_adr, accept_adr, accept_akas, expects_pwd, first_seen, expect_own, finish_adr,
  agree_modes, answer_call, send_adr,
}
use binkd.Protocol.Adr.Password.{
  GuardedPeer, Guarded, IsGuarded, Leaves, check_ip-Leaves, LeavesGuarded, match_pwd-LeavesGuarded,
  LeavesWith, then_check-Leaves, Leaves-LeavesWith,
}

module _ (peers : Peers) where
  LeavesGuarded-LeavesWith :
      (pn : Option Peer) (r : AddressCheck)
      → LeavesGuarded peers pn r
      → LeavesWith
          (λ t. IsGuarded peers t.state × GuardedPeer t.state.expected_pwd pn)
          (IsGuarded peers)
          r
  LeavesGuarded-LeavesWith pn (goes_on t) h = h
  LeavesGuarded-LeavesWith pn (skips t) h = h
  LeavesGuarded-LeavesWith pn (ends s) h = h

  check_node_pwd-LeavesGuarded :
      (fa : FtnAddr) (pn : Option Peer) (t : Seen)
      → IsGuarded peers t.state
      → LeavesGuarded peers pn (check_node_pwd peers fa pn t)
  unfolding check_node_pwd match_given
  check_node_pwd-LeavesGuarded fa none t h = (h, tt)
  check_node_pwd-LeavesGuarded fa (some pn) t h =
      let P = LeavesGuarded peers (some pn) in
      if_ind P (bytes_eq t.state.expected_pwd [])
        (λ e. (h, inr (inr (inl ((bytes_eq_iff t.state.expected_pwd []).0 e)))))
        (λ e.
          subst
            (λ (to : Option Node).
              P (
                match_given peers fa pn.md_flag (if is_some to then pn.out_pwd else some pn.pwd) t))
            (sym h.0)
            (if_ind P (is_open pn.pwd) (λ k. (h, inl k))
              (λ k. match_pwd-LeavesGuarded peers fa pn t h)))

  set_listed-IsGuarded :
      (pn : Option Peer) (t : Seen)
      → IsGuarded peers t.state
      → IsGuarded peers (set_listed pn t).state
  set_listed-IsGuarded none t h = h
  set_listed-IsGuarded (some pn) t h = h

  node_modes-IsGuarded :
      (pn : Option Peer) (t : Seen)
      → IsGuarded peers t.state
      → IsGuarded peers (node_modes pn t).state
  unfolding node_modes
  node_modes-IsGuarded none t h = h
  node_modes-IsGuarded (some pn) t h =
      if_ind (λ (u : Seen). IsGuarded peers u.state) (is_some t.state.to) (λ e. h) (λ e. h)

  take_address-Leaves :
      (fa : FtnAddr) (pn : Option Peer) (t : Seen)
      → IsGuarded peers t.state
      → Guarded peers t.state.expected_pwd fa
      → Leaves (IsGuarded peers) (take_address peers fa pn t)
  unfolding take_address
  take_address-Leaves fa pn t h g =
      let P = Leaves (IsGuarded peers) in
      if_ind P (peers.bsy_add t.state.fa fa)
        (λ e.
          (h.0, All-append (Guarded peers t.state.expected_pwd) t.state.fa (fa ∷ []) h.1 (g, tt)))
        (λ e. if_ind P (is_guarded pn && not (is_some t.state.to)) (λ k. tt) (λ k. h))

  check_address-Leaves :
      (fa : FtnAddr) (t : Seen)
      → IsGuarded peers t.state
      → Leaves (IsGuarded peers) (check_address peers fa (peers.get_node_info fa) t)
  unfolding check_address
  check_address-Leaves fa t h =
      let pn = peers.get_node_info fa in
      let P = IsGuarded peers in
      let own = λ (u : Seen). P u.state in
      then_check-Leaves own P (check_ip peers fa pn t) _
        (Leaves-LeavesWith P (check_ip peers fa pn t) (check_ip-Leaves P peers fa pn t h))
        (λ u hu.
          then_check-Leaves (λ v. P v.state × GuardedPeer v.state.expected_pwd pn) P
            (check_node_pwd peers fa pn (set_listed pn u)) _
            (LeavesGuarded-LeavesWith pn (check_node_pwd peers fa pn (set_listed pn u))
              (check_node_pwd-LeavesGuarded fa pn (set_listed pn u) (set_listed-IsGuarded pn u hu)))
            (λ v hv.
              then_check-Leaves own P (take_address peers fa pn v) _
                (Leaves-LeavesWith P (take_address peers fa pn v)
                  (take_address-Leaves fa pn v hv.0 hv.1))
                (λ w hw. node_modes-IsGuarded pn w hw)))

  check_parsed-Leaves :
      (parsed : Option FtnAddr) (t : Seen)
      → IsGuarded peers t.state
      → Leaves (IsGuarded peers) (check_parsed peers parsed t)
  unfolding check_parsed
  check_parsed-Leaves none t h = tt
  check_parsed-Leaves (some parsed) t h =
      if_ind (Leaves (IsGuarded peers)) (is_4d parsed)
        (λ e. check_address-Leaves (with_domain peers parsed) t h) (λ e. tt)

  -- The loop leaves guarded addresses, where the session is not dropped.
  abbrev SeenGuarded : Checked → Type 0
  SeenGuarded (all_seen t) = IsGuarded peers t.state
  SeenGuarded (gave_up s) = Unit

  go_through-SeenGuarded :
      (rest : Seen → Checked) (r : AddressCheck)
      → Leaves (IsGuarded peers) r
      → ((t : Seen) → IsGuarded peers t.state → SeenGuarded (rest t))
      → SeenGuarded (go_through rest r)
  go_through-SeenGuarded rest (goes_on t) h k = k t h
  go_through-SeenGuarded rest (skips t) h k = k t h
  go_through-SeenGuarded rest (ends s) h k = tt

  check_words-SeenGuarded :
      (words : List Bytes) (t : Seen)
      → IsGuarded peers t.state
      → SeenGuarded (check_words peers words t)
  unfolding check_words
  check_words-SeenGuarded [] t h = h
  check_words-SeenGuarded (w ∷ words) t h =
      go_through-SeenGuarded (λ u. check_words peers words u)
        (check_parsed peers (parse_ftnaddress w peers.domains) t)
        (check_parsed-Leaves (parse_ftnaddress w peers.domains) t h)
        (λ u. check_words-SeenGuarded words u)

  -- Every address that is taken for the session is guarded, unless the session is dropped.
  abbrev pub AcceptsGuarded : State × Bool → Type 0
  AcceptsGuarded (u, true) = IsGuarded peers u
  AcceptsGuarded (u, false) = Unit

  send_adr-IsGuarded : (s : State) → IsGuarded peers s → IsGuarded peers (send_adr peers s)
  unfolding send_adr msg_send2
  send_adr-IsGuarded s h = h

  agree_modes-IsGuarded :
      (t : Seen) (s : State) → IsGuarded peers s → IsGuarded peers (agree_modes t s)
  unfolding agree_modes
  agree_modes-IsGuarded t s h = if_ind (IsGuarded peers) (expects_pwd s) (λ e. h) (λ e. h)

  answer_call-IsGuarded :
      (t : Seen) → IsGuarded peers t.state → IsGuarded peers (answer_call peers t)
  unfolding answer_call
  answer_call-IsGuarded t h =
      agree_modes-IsGuarded t (if peers.delay_adr then send_adr peers t.state else t.state)
        (if_ind (IsGuarded peers) peers.delay_adr (λ e. send_adr-IsGuarded t.state h) (λ e. h))

  finish_adr-AcceptsGuarded :
      (config : Config) (t : Seen) (to : Option Node)
      → to ≡ none
      → IsGuarded peers t.state
      → AcceptsGuarded (finish_adr peers config t to)
  unfolding finish_adr
  finish_adr-AcceptsGuarded config t none e h = answer_call-IsGuarded t h
  finish_adr-AcceptsGuarded config t (some node) e h = absurd (cc (e))

  accept_adr-AcceptsGuarded :
      (config : Config) (t : Seen) (fas : List FtnAddr)
      → IsGuarded peers t.state
      → AcceptsGuarded (accept_adr peers config t fas)
  unfolding accept_adr accept_akas
  accept_adr-AcceptsGuarded config t [] h = tt
  accept_adr-AcceptsGuarded config t (fa ∷ others) h =
      if_ind AcceptsGuarded (is_some t.state.to && not t.main_aka_ok) (λ e. tt)
        (λ e.
          if_ind AcceptsGuarded (eqb_ℤ t.ip_verified minus_one) (λ k. tt)
            (λ k. finish_adr-AcceptsGuarded config t t.state.to h.0 h))

  end_adr-AcceptsGuarded :
      (config : Config) (r : Checked) → SeenGuarded r → AcceptsGuarded (end_adr peers config r)
  unfolding end_adr
  end_adr-AcceptsGuarded config (all_seen t) h = accept_adr-AcceptsGuarded config t t.state.fa h
  end_adr-AcceptsGuarded config (gave_up s) h = tt

  expect_own-IsGuarded :
      (to : Option Node) (s : State)
      → s.to ≡ to
      → to ≡ none
      → s.fa ≡ []
      → IsGuarded peers (expect_own to s)
  expect_own-IsGuarded none s e n f = (e, subst (All (Guarded peers s.expected_pwd)) (sym f) tt)
  expect_own-IsGuarded (some node) s e n f = absurd (cc (n))

  adr_words-AcceptsGuarded :
      (config : Config) (words : List Bytes) (s : State)
      → s.to ≡ none
      → s.fa ≡ []
      → AcceptsGuarded (adr_words peers config words s)
  unfolding adr_words
  adr_words-AcceptsGuarded config [] s e f = tt
  adr_words-AcceptsGuarded config (w ∷ words) s e f =
      end_adr-AcceptsGuarded config (check_words peers (w ∷ words) (first_seen s))
        (check_words-SeenGuarded (w ∷ words) (first_seen s) (expect_own-IsGuarded s.to s refl e f))

  -- When M_ADR of an incoming call is accepted, every address that was taken for the session belongs
  -- to a node without a password, or with the disabled one "!", or with the very password that is
  -- expected now, unless the expected password is empty. No address was taken before.
  pub adr-AcceptsGuarded :
      (config : Config) (text : Bytes) (s : State)
      → s.to ≡ none
      → s.fa ≡ []
      → AcceptsGuarded (adr peers config text s)
  unfolding adr
  adr-AcceptsGuarded config text s e f =
      adr_words-AcceptsGuarded config (peers.env.words (peers.add_shared_akas text)) s e f
