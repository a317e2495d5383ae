-- ===== src/Lib.antt =====
-- binkd is a mailer of FidoNet: two nodes exchange files over TCP by the protocol binkp. This library
-- models one session of that protocol and the code that it stands on.
--
-- The parts and their files:
--   Base: names of the libraries passed on, Boolean tests, lists, bits and integers.
--   Crypt: crypt.c and the macro CRC32 of crypt.h (`update_keys`, `init_keys`, `decrypt_byte`,
--     `decrypt_buf`, `encrypt_buf`, under their names). Crypt/Stream and Crypt/Width prove.
--   Text: strquote, strdequote, parse_args and o_stricmp of tools.c. Text/Quote, Text/Args prove.
--   Ftn: the address record of btypes.h and the macros of ftnaddr.h. Ftn/Compare, Parse, Print:
--     ftnaddress_cmp, parse_ftnaddress, xftnaddress_to_str, ftnaddress_to_domain and
--     ftnaddress_to_filename_ of ftnaddr.c, under their names. Ftn/Domain: ftndom.c and
--     exp_ftnaddress. Ftn/Tokens and Ftn/RoundTrip prove.
--   Ftnq: FTNQ of btypes.h, and q_sort, q_cmp, select_next_file and q_freq_num of ftnq.c.
--     Ftnq/Flavour: MAXFLVR. Ftnq/Nodes: q_not_empty and q_next_node. Ftnq/Tries: read_try,
--     write_try, bad_try, good_try, remove_try and hold_node. Ftnq/Sort, Nodes/Choice, Nodes/Calls
--     and Tries/Counts prove, and Tries/Standing proves over sequences of calls.
--   Flo: the lines of a flow file, by readflo.c. Flo/Spool: remove_from_spool and perform_action of
--     protocol.c, where the reads and writes of an open flow file succeed; Spool/Entries proves.
--   Ftnnode: add_node and get_node_info of ftnnode.c. Ftnnode/Node: FTN_NODE of btypes.h. Ftnnode/Edit:
--     the settings that add_node changes. Ftnnode/Passwords and Ftnnode/Lookup prove.
--   Getw: getwordx2 of getw.c for the two flags of a session, a word with its separators `one_word`,
--     the loop over a word `scan_word`. Getw/Words proves.
--   Inbound: inbound.c. Inbound/Name: the name of a received file, with strwipe and makeinboundcase of
--     tools.c. Inbound/Partial: the .hr and .dt files; find_tmp_name, whose loop is `search_hr` and
--     what it does with an entry `act_on`. Inbound/Rename: next_inb_filename. Inbound/Done: inb_done
--     with check_pkthdr, and inb_test. Inbound/Open: inb_fopen. Rename/Count,
--     Partial/Foreign, Partial/Resume, Done/Ends, Done/Search, Done/Cases, Done/Within, Done/Pointers and
--     Done/Given prove.
--   Events: evt_queue, evt_test and evt_set of srif.c; Events/Once proves.
--   Busy: bsy.c, under its names, and create_sem_file of tools.c. Busy/Paths, Busy/Count and
--     Busy/Exclusive prove, over any sequence of what any number of processes do.
--   Protocol/State: STATE, TFILE, BMSG and the flag words of protoco2.h, btypes.h, protocol.h.
--   Protocol/Env: what a session takes from outside, and the settings that it reads.
--   Protocol/Send: mkhdr, msg_send2, current_file_was_sent and send_block of protocol.c. The handler
--     of the output buffer is `flush`, of the queue `send_msgs`, of a file `send_file_block`.
--   Protocol/Recv: recv_block of protocol.c. `put_bytes` decrypts what has come, `handle_ibuf`
--     handles a header or block that is complete, `store_block` writes a data block.
--   Protocol/Tfiles: tfile_cmp of prothlp.c; ND_set_status, remove_from_sent_files_queue,
--     parse_msg_args and close_partial of protocol.c.
--   Protocol/Got, Skip, Get: the handlers GOT, SKIP and GET. Protocol/Offer: start_file_recv,
--     skip_test and EOB.
--   Protocol/Start: do_prescan and complete_login. Protocol/Login: PWD and OK, with proofs in
--     Login/Check, Login/Password and Login/Digest.
--   Protocol/Adr: ADR of protocol.c up to its tests of the accepted addresses; the loop over the
--     addresses is `check_words`, a round of it `check_address`. Adr/Accept: the rest of ADR,
--     send_ADR, RError and BSY. Adr/Password and Adr/Guard prove.
--   Protocol/Nul: NUL of protocol.c; the loop over the options is `opt_words`. Nul/Options proves.
--   Protocol/Transfer: the calls of send_block and recv_block that move one file.
--   Protocol/Outgoing: start_file_transfer of protocol.c. `flo_from` is its loop over the lines of a
--     flow file, `send_out` its end, where M_FILE is sent.
--   Protocol/Session: the main loop of protocol(). `refill` is the inner loop that looks for the next
--     file, `start_round` a round up to `select`, `finish_select` what follows it.
--     Session/Refill, Session/Batch and Session/Ready prove.
--   Tests: a concrete session at which the theorems with hypotheses apply.
--
-- How they interact: the handlers take a session and give the session with a Boolean, false where
-- the source returns 0 and the session is dropped. They queue messages by `msg_send2`; `send_block`
-- moves the queue and then the file in transfer to the output buffer, and `recv_block` of the other
-- side hands each message to its handler through the table `Commands`. What a session does to the
-- rest of the program and to the disk is appended to `effects`, in order.
--
-- Conventions: a byte is its number, a C string the bytes before its terminator, an open stream its
-- content with the offset. Sizes and offsets are natural numbers, which are taken to be below
-- 2 ^ 63: a larger number from the remote, which boff_t turns negative, is outside the model. A time
-- is the pattern of a time_t, and tfile_cmp compares the low 32 bits, an int. A .hr file has its
-- extension in small letters, as binkd writes it, or the file system does not tell the case of letters. The cipher keeps its wrap-around written out, with the modulus of
-- unsigned long as the parameter `wrap`. The build is the one without WITH_ZLIB,
-- WITH_BZLIB2, WITH_PERL, BW_LIM and AMIGA.
--
-- Loops are structural recursion on the list that they walk. The loop of SKIP runs on the first
-- length of the queue, which never grows there. `transfer` has a number of rounds: as many as bytes
-- are left are enough, since each block has at least one byte. `refill` has fuel: one round for each
-- file that is not sent, one for the end and for each line of its flow file, and one more are enough.
-- The search for a free name, `rename_loop`, has one for each try: `tries_of` counts them from the
-- digits of the name. inb_done takes it as a parameter.
--
-- Parameters, in the record `Env`: the number formats of the C library, the file system, the MD5
-- digest, and the functions of inbound.c, pmatch.c, getw.c and the search of the outbound that a
-- session calls (the theorems on Inbound and Getw speak of the code behind some of them); in `Files`
-- and `Hooks`, what the main loop takes beside them, in `Greetings` and `Peers` the nodes, the busy flags and the address of the connection. The theorems hold for every
-- such record but for the hypotheses that they name.
--
-- Not modelled: log calls and progress output; the statistics of a session; compression; the Perl
-- hooks; the limit of the buffer in msg_sendf, which only the M_ERR texts of GET could reach; the
-- start and end of a session; the banner; the names that M_NUL only logs or shows, and EXTCMD; the
-- words %VAR% of getwordx; the search of the outbound, the
-- configuration, sockets and processes. MD5 and pmatch are copies of other programs' code.
pub mod Base
pub mod Busy
pub mod Events
pub mod Crypt
pub mod Text
pub mod Getw
pub mod Ftn
pub mod Ftnq
pub mod Flo
pub mod Ftnnode
pub mod Inbound
pub mod Protocol
pub mod Tests
