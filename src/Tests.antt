-- ===== src/Tests.antt =====
-- Concrete sessions, at which the theorems apply; small functions stand for the surroundings.
mod Addresses
mod Busy
mod Calls
mod Events
mod Ftnnode
mod Inbound
mod Queue
mod Session
use binkd.Base.{
  ◌^◌, ◌≤◌, ◌<◌, ◌↔◌, ◌⊎◌, bytes_eq, true, false, [], ◌∷◌, ◌++◌, codes, All, length, take, drop,
  some, none, bit_or, ◌≡◌, ◌≢◌, refl, arith, inl, inr, bytes_eq_iff,
}
use binkd.Base.Int.{pos}
use binkd.Crypt.{Keys, decrypt_buf, encrypt_buf, init_keys, update_keys}
use binkd.Crypt.Stream.{decrypt_buf-encrypt_buf, decrypt_buf-append, encrypt_buf-bytes}
use binkd.Crypt.Width.{encrypt_buf_width, update_keys_low_byte}
use binkd.Ftn.{fa_zero}
use binkd.Text.{isspace, strquote, strdequote, parse_args}
use binkd.Text.Quote.{strdequote-strquote}
use binkd.Text.Args.{IsWord, join_words, parse_args-join_words, parse_args-strquote}
use binkd.Protocol.Env.{Env, Config}
use binkd.Protocol.State.{
  m_nul, m_err, File, tf_zero, no_crypt, yes_crypt, p_null, p_secure, p_na, Node, State, md_on,
  md_old,
}
use binkd.Protocol.Send.{msg_send2, seal, frame, mkhdr, moved, send_block, is_yes_crypt}
use binkd.Protocol.Send.Queue.{Sends, send_block-Sends, send_block_stuck}
use binkd.Protocol.Recv.{
  Commands, drop_error, recv_bytes, is_msg_hdr, hdr_size, put_bytes, handle_ibuf, handle_full,
  got_header, unseal,
}
use binkd.Protocol.Recv.Header.{hdr-mkhdr_msg}
use binkd.Protocol.Recv.Stream.{recv_bytes-append}
use binkd.Protocol.Recv.Bounds.{BufferFits, recv_bytes-BufferFits}
use binkd.Protocol.Recv.Message.{recv-msg_send2}
use binkd.Protocol.Transfer.{transfer, Linked, Delivered}
use binkd.Protocol.Transfer.Whole.{transfer-Delivered}
use binkd.Protocol.Got.{got}
use binkd.Protocol.Got.Safety.{RemovesByWords, got-RemovesByWords}
use binkd.Protocol.Skip.{skip}
use binkd.Protocol.Skip.Safety.{skip-KeepsSpool}
use binkd.Protocol.Get.{get, get_open}
use binkd.Protocol.Get.Safety.{WithinFile, get-KeepsSpool, get_open-WithinFile}
use binkd.Protocol.Offer.{eob, accept_offset}
use binkd.Protocol.Offer.Safety.{BatchEnds, eob-BatchEnds, accept_offset-at_end}
use binkd.Protocol.Start.{complete_login, may_crypt, start_session, start_crypt, do_prescan}
use binkd.Text.{same_letters}
use binkd.Protocol.Login.{
  pwd, check_pwd, good, pwd_from, enter_pwd, is_cram, check_plain, judge, accept_pwd, auto_nr,
  send_answer, agree_flags, mark_md,
}
use binkd.Protocol.Login.Check.{Authentic}
use binkd.Protocol.Login.Password.{Refused, pwd-Authentic, pwd-Refused}
use binkd.Protocol.Start.Encryption.{complete_login-agree, complete_login-crypt_flag}
use binkd.Protocol.Tfiles.Spool.{KeepsSpool}

abbrev env : Env
env = record {
  wrap = 2 ^ 32;
  strtoumax = length;
  safe_atol = length;
  print_umax = λ n. n ∷ [];
  status_ok = λ status fa. true;
  fopen_rb = λ path. none;
  fseek_ok = λ f offset. true;
  fwrite_ok = λ f block. true;
  fclose_ok = λ f. true;
  inb_done_ok = λ f s. true;
  ispkt = λ name. false;
  pmatch_ncase = λ mask name. false;
  inb_test = λ f inbound. false;
  inb_fopen = λ s. none;
  share_pkt = λ s block. block;
  words = λ text. [];
  ibox = λ fa. none;
  inb_has_partials = λ inbound. false;
  q_scan_addrs = λ s. [];
  trf_text = λ q. codes "0 0";
  md_build_digest = λ pwd challenge. codes "CRAM-" ++ pwd;
  stale = λ n. [];
  exiting = false;
}

abbrev config : Config
config = record {
  oblksize = 2;
  send_if_pwd = false;
  prescan = false;
  skipmask = [];
  inbound = codes "in";
  inbound_nonsecure = codes "in-nonsecure";
}

abbrev zero_keys : Keys
zero_keys = record { key0 = 0; key1 = 0; key2 = 0 }

-- An incoming session before the login, which expects the password "pw".
abbrev start : State
start = record {
  to = none;
  expected_pwd = codes "pw";
  pending = [];
  ibuf = [];
  isize = none;
  imsg = false;
  msgs = [];
  in_file = tf_zero;
  out_file = tf_zero;
  sent_fls = [];
  q = [];
  fa = [];
  skip_all_flag = false;
  r_skipped_flag = false;
  listed_flag = false;
  inbound = [];
  io_error = false;
  msgs_in_batch = 0;
  minor = 1;
  major = 1;
  files_sent = 0;
  bytes_sent = 0;
  local_eob = false;
  remote_eob = false;
  get_file_balance = pos 0;
  off_req_sent = false;
  security = p_null;
  state_ext = p_na;
  nr_flag = record { want_nr = false; we_nr = false; they_nr = false };
  nd_flag = record { we_nd = false; they_nd = false; can_nda = false };
  md_flag = md_old;
  md_challenge = none;
  waiting_for_got = false;
  send_eof = false;
  in_complete = tf_zero;
  nd_addr = fa_zero;
  crypt_flag = no_crypt;
  keys_out = zero_keys;
  keys_in = zero_keys;
  delay_eob = 0;
  buggy_nr = false;
  effects = [];
}

abbrev commands : Commands
commands m args s = (s, true)

abbrev crypting : State
crypting = record start {
  crypt_flag = yes_crypt;
  keys_out = init_keys (2 ^ 32) (codes "pw");
  keys_in = init_keys (2 ^ 32) (codes "pw");
}

-- Three bytes go in blocks of two, in an encrypted session.
abbrev whole_file : File
whole_file = record { content = codes "abc"; offset = 0 }

abbrev new_file : File
new_file = record { content = []; offset = 0 }

abbrev sender : State
sender = record crypting {
  out_file = record tf_zero { netname = codes "f"; size = 3; f = some whole_file };
}

abbrev receiver : State
receiver = record crypting {
  in_file = record tf_zero { netname = codes "f"; size = 3; f = some new_file };
}

abbrev link : Linked env whole_file new_file sender receiver
link = record {
  flag = refl;
  keys = refl;
  no_size = refl;
  no_bytes = refl;
  open_in = refl;
  whole = refl;
  same_size = refl;
  at_end = refl;
  so_far = refl;
  left = omega arith;
  plain = refl;
}

transfer-Delivered_example :
    Delivered env whole_file sender receiver
      (transfer env config commands 3 (some whole_file) sender receiver)
transfer-Delivered_example =
    transfer-Delivered env config commands 3 whole_file new_file sender receiver link (omega arith)
      (omega arith) (λ t block. refl) (omega arith)

recv-msg_send2_example :
    (let (sealed, keys) = seal env crypting (frame m_err (codes "no")) in
      let (t, read) = recv_bytes env commands (take 2 sealed) crypting in
      (read ≡ true)
      × (recv_bytes env commands (drop 2 sealed) t
          ≡ drop_error (
              commands m_err (codes "no") (record crypting {
                imsg = true;
                isize = some 3;
                ibuf = m_err ∷ codes "no";
                keys_in = keys;
                msgs_in_batch = 1;
              }))))
recv-msg_send2_example =
    recv-msg_send2 env commands crypting crypting m_err (codes "no") refl refl refl refl
      (omega arith) (omega arith) (λ e. omega (arith, e), (λ e. omega (arith, e), tt))

-- A file that was sent, and the command that acknowledges it.
abbrev sent_session : State
sent_session = record start {
  sent_fls = record tf_zero { path = codes "/out/f"; netname = codes "f"; size = 1; time = 2 } ∷ [];
}

got-RemovesByWords_example :
    RemovesByWords env
      (parse_args 3 (codes "f x xx"))
      sent_session
      (got env (codes "f x xx") sent_session).0
got-RemovesByWords_example = got-RemovesByWords env (codes "f x xx") sent_session

get_open-WithinFile_example :
    (let (t, rc) = get_open env (codes "f") 2 whole_file sender in
      WithinFile t.out_file × ((rc ≡ true) ↔ (2 ≤ 3) × (true ≡ true)))
get_open-WithinFile_example = get_open-WithinFile env (codes "f") 2 whole_file sender

accept_offset-at_end_example :
    (let (t, rc) = accept_offset env false 0 new_file receiver in
      (t.in_file.f ≡ none)
      ⊎ ((t.in_file ≡ receiver.in_file) × (false ≡ false) × (new_file.offset ≡ new_file.offset)))
accept_offset-at_end_example = accept_offset-at_end env false 0 new_file receiver

-- A caller and an answering side that agree on encryption.
abbrev wishes : State
wishes = record start {
  crypt_flag = record { we_crypt = true; they_crypt = true; yes_crypt = false };
  security = p_secure;
  md_flag = md_on;
  md_challenge = some (codes "c");
}

abbrev node : Node
node = record { fa = fa_zero; out_pwd = some (codes "pw") }

abbrev calling : State
calling = record wishes { to = some node; expected_pwd = codes "pw" }

calling_may : may_crypt calling ≡ true
unfolding may_crypt bytes_eq
calling_may = refl

wishes_may : may_crypt wishes ≡ true
unfolding may_crypt bytes_eq
wishes_may = refl

complete_login-agree_example :
    (let caller = (complete_login env config calling).0 in
      let answer = (complete_login env config wishes).0 in
      (caller.keys_out ≡ answer.keys_in)
      × (caller.keys_in ≡ answer.keys_out)
      × (is_yes_crypt caller.crypt_flag ≡ true)
      × (is_yes_crypt answer.crypt_flag ≡ true))
complete_login-agree_example =
    complete_login-agree env config config node calling wishes refl refl calling_may wishes_may refl

complete_login-crypt_flag_example :
    is_yes_crypt (complete_login env config wishes).0.crypt_flag ≡ true
unfolding bytes_eq
complete_login-crypt_flag_example = complete_login-crypt_flag env config wishes

secure_by_pw : (pwd env config (codes "pw") start).0.security ≡ p_secure
unfolding pwd pwd_from enter_pwd is_cram same_letters bytes_eq check_pwd check_plain judge
    accept_pwd start_session complete_login start_crypt may_crypt auto_nr do_prescan send_answer
    msg_send2 agree_flags mark_md
secure_by_pw = refl

wrong_no : ¬ Authentic env start (codes "no")
unfolding bytes_eq
wrong_no (expected, inl e) = cc ((bytes_eq_iff (codes "pw") (codes "!")).1 e)
wrong_no (expected, inr (inl (flag, given, e))) = cc ((bytes_eq_iff (codes "pw") (codes "no")).1 e)
wrong_no (expected, inr (inr (challenge, e, h))) = cc (e)

pwd-Authentic_example :
    Authentic env start (codes "pw") × ((pwd env config (codes "pw") start).1 ≡ true)
pwd-Authentic_example = pwd-Authentic env config (codes "pw") start refl refl secure_by_pw

pwd-Refused_example : Refused start (pwd env config (codes "no") start)
pwd-Refused_example = pwd-Refused env config (codes "no") start refl refl (λ e. cc (e)) wrong_no

-- Two messages wait.
abbrev queued : State
queued = record start {
  msgs =
      record { t = m_nul; sz = 4; s = some (codes "abcd") }
      ∷ record { t = m_err; sz = 3; s = some (codes "xyz") }
      ∷ [];
}

send_block-Sends_example : Sends queued (send_block env config (moved 0) queued)
send_block-Sends_example =
    send_block-Sends env config (moved 0) queued refl (λ e. cc (e))
      ((refl, omega arith, omega arith), ((refl, omega arith, omega arith), tt))

abbrev too_long : State
too_long = record start { msgs = record { t = m_nul; sz = 0x8000; s = some [] } ∷ [] }

send_block_stuck_example : send_block env config (moved 0) too_long ≡ (too_long, 1)
send_block_stuck_example =
    send_block_stuck env config (moved 0) too_long m_nul 0x8000 [] [] refl refl (omega arith)
      (omega arith)

decrypt_buf-encrypt_buf_example :
    decrypt_buf (2 ^ 32) zero_keys (encrypt_buf (2 ^ 32) zero_keys (codes "ab")).0
    ≡ (codes "ab", (encrypt_buf (2 ^ 32) zero_keys (codes "ab")).1)
decrypt_buf-encrypt_buf_example = decrypt_buf-encrypt_buf (2 ^ 32) zero_keys (codes "ab")

-- The first byte of a header has come.
abbrev in_header : State
in_header = record start { ibuf = 128 ∷ [] }

recv_bytes-BufferFits_example : BufferFits (recv_bytes env commands (2 ∷ []) in_header).0
unfolding recv_bytes put_bytes handle_ibuf handle_full got_header hdr_size unseal
recv_bytes-BufferFits_example =
    recv_bytes-BufferFits env commands (2 ∷ []) in_header
      ((omega arith, tt), omega arith, omega arith) (omega arith, tt) (omega arith) refl

recv_bytes-append_example :
    recv_bytes env commands (2 ∷ []) (recv_bytes env commands (128 ∷ []) start).0
    ≡ recv_bytes env commands (128 ∷ 2 ∷ []) start
recv_bytes-append_example = recv_bytes-append env commands (128 ∷ []) (2 ∷ []) start (omega arith)

f_IsWord : IsWord (codes "f")
unfolding isspace
f_IsWord = (λ e. cc (e), (refl, tt))

size_IsWord : IsWord (codes "12")
unfolding isspace
size_IsWord = (λ e. cc (e), (refl, (refl, tt)))

parse_args-strquote_example :
    (parse_args 3 (join_words (strquote true true (codes "a b") ∷ codes "f" ∷ codes "12" ∷ []))
      ≡ some (strquote true true (codes "a b") ∷ codes "f" ∷ codes "12" ∷ [], []))
    × (strdequote (strquote true true (codes "a b")) ≡ codes "a b")
parse_args-strquote_example =
    parse_args-strquote (codes "a b") (codes "f") (codes "12") (λ e. cc (e))
      (omega arith, (omega arith, (omega arith, tt))) f_IsWord size_IsWord
