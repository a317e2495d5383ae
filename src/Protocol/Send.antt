-- ===== src/Protocol/Send.antt =====
-- protocol.c: the queue of messages and `send_block`, which moves messages and file blocks to the
-- output buffer and the buffer to the peer.
pub mod Queue
pub mod Block
use binkd.Base.{
  ℕ, suc, ◌+◌, ◌-◌, ◌/◌, ◌%◌, ◌^◌, min, bit_or, Bool, true, false, not, ◌&&◌, ◌||◌, List, [], ◌∷◌,
  ◌++◌, Option, none, some, Bytes, codes, take, drop, length, ltb, leb, ◌==◌, if◌then◌else◌,
}
use binkd.Crypt.{Keys, encrypt_buf}
use binkd.Protocol.Env.{Env, Config}
use binkd.Protocol.State.{max_blksize, File, Tfile, tf_zero, Bmsg, CryptFlag, State, bad_try, emit}

-- The two bytes of `u`; a `char` keeps the low 8 bits.
unfoldable pub mkhdr : ℕ → Bytes
mkhdr u = u / 2 ^ 8 % 256 ∷ u % 256 ∷ []

-- `state->crypt_flag == YES_CRYPT`
abbrev pub is_yes_crypt : CryptFlag → Bool
is_yes_crypt c = c.yes_crypt && not c.we_crypt && not c.they_crypt

-- `if (crypt_flag == YES_CRYPT) encrypt_buf (buf, ..., keys_out)`
unfoldable pub seal : Env → State → Bytes → Bytes × Keys
seal env s buf =
    if is_yes_crypt s.crypt_flag then encrypt_buf env.wrap s.keys_out buf else (buf, s.keys_out)

-- The frame of a message before it is encrypted.
unfoldable pub frame : ℕ → Bytes → Bytes
unfolding mkhdr
frame m text = mkhdr (bit_or (length text + 1) 0x8000) ++ m ∷ text

unfoldable pub msg_send2 : Env → ℕ → Bytes → Bytes → State → State
unfolding seal
msg_send2 env m s1 s2 s =
    let text = s1 ++ s2 in
    let (sealed, keys) = seal env s (frame m text) in
    record s {
      msgs = s.msgs ++ record { t = m; sz = length text + 3; s = some sealed } ∷ [];
      keys_out = keys;
      msgs_in_batch = s.msgs_in_batch + 1;
    }

-- `bad_try (&state->to->fa, error, ...)`, on an outgoing call.
abbrev pub bad_try_to : Bytes → State → State
bad_try_to error s = elim s.to [ none ↦ s | some node ↦ emit (bad_try node.fa error) s ]

unfoldable pub current_file_was_sent : State → State
current_file_was_sent s = record s {
  sent_fls = s.sent_fls ++ record s.out_file { f = none } ∷ [];
  out_file = tf_zero;
  waiting_for_got = if s.nd_flag.we_nd then true else s.waiting_for_got;
}

-- What a call of `send` or `write` answers, and likewise `recv` or `read`.
pub data Sent : Type 0 where
  moved : ℕ → Sent
  would_block failed : Sent

-- The rest of the output buffer is written; `n` bytes of it are taken.
unfoldable pub flush : Env → Sent → State → State × ℕ
flush env (moved n) s =
    if n == length s.pending
    then (record s { pending = [] }, 1)
    else if n == 0
    then (s, 2)
    else (record s { pending = drop n s.pending }, 1)
flush env would_block s = (s, 2)
flush env failed s =
    let t = record s { io_error = true } in
    (if env.exiting then t else bad_try_to (codes "send") t, 0)

-- The loop that copies whole messages to the output buffer, `oleft` bytes of which are used.
pub data Packed : Type 0 where
  -- a message that fits no frame: the bytes copied before it, and the queue left
  too_big : Bytes → List Bmsg → Packed
  -- the bytes copied, the queue left, and whether the loop came to its end
  packed : Bytes → List Bmsg → Bool → Packed

abbrev pub keep : Bmsg → Packed → Packed
keep m (too_big out left) = too_big out (m ∷ left)
keep m (packed out left done) = packed out (m ∷ left) done

abbrev pub put : Bytes → Bmsg → Packed → Packed
put bytes m (too_big out left) = too_big (bytes ++ out) (record m { s = none } ∷ left)
put bytes m (packed out left done) = packed (bytes ++ out) (record m { s = none } ∷ left) done

unfoldable pub pack : ℕ → List Bmsg → Packed
pack oleft [] = packed [] [] true
pack oleft (m ∷ msgs) =
    let skipped = keep m (pack oleft msgs) in
    let room = λ (bytes : Bytes). put bytes m (pack (oleft + m.sz) msgs) in
    elim m.s [
      | none ↦ skipped
      | some bytes ↦
          let copied = room bytes in
          if ltb max_blksize (m.sz - 2)
          then too_big [] (m ∷ msgs)
          else if ltb max_blksize (oleft + m.sz)
          then packed [] (m ∷ msgs) false
          else copied
    ]

-- The end of the copying: at a message that is too big `optr` is left behind the bytes copied.
unfoldable pub put_packed : Env → Packed → State → State × ℕ
put_packed env (too_big out left) s =
    (record s { pending = env.stale (length out); msgs = left }, 0)
put_packed env (packed out left done) s =
    (record s { pending = out; msgs = if done then [] else left }, 1)

unfoldable pub send_msgs : Env → State → State × ℕ
unfolding pack put_packed
send_msgs env s = put_packed env (pack 0 s.msgs) s

-- `fread` of at most `n` bytes.
abbrev pub read_at : File → ℕ → Bytes × File
read_at f n =
    let bytes = take n (drop f.offset f.content) in
    (bytes, record f { offset = f.offset + length bytes })

-- The first block of a mail packet gets its destination from `share_pkt`.
abbrev pub patch_block : Env → State → ℕ → ℕ → Bytes → Bytes
patch_block env s offset sz block =
    if offset == sz && leb 60 sz && env.ispkt s.out_file.netname
    then env.share_pkt s block
    else block

-- A block is put to the output buffer behind its header.
unfoldable pub put_block : Env → ℕ → Bytes → State → State
unfolding seal mkhdr
put_block env sz block s =
    let (sealed, keys) = seal env s (mkhdr sz ++ block) in
    record s { pending = sealed; keys_out = keys }

unfoldable pub send_file_block : Env → Config → File → State → State × ℕ
unfolding put_block current_file_was_sent
send_file_block env config f s =
    let sz = min config.oblksize (s.out_file.size - f.offset) in
    let (block, f') = read_at f sz in
    let t = record s { out_file = record s.out_file { f = some f' } } in
    if ltb (length block) sz
    then (t, 0)
    else let u = if sz == 0 || s.out_file.size == f'.offset then current_file_was_sent t else t in
      (put_block env sz (patch_block env s f'.offset sz block) u, 1)

unfoldable pub send_eof_block : Env → State → State × ℕ
unfolding put_block
send_eof_block env s = (put_block env 0 [] (record s { send_eof = false }), 1)

-- There is a block to send: a file in transfer that waits for no answer, or an end of file.
abbrev pub may_send_block : State → Bool
may_send_block s = elim s.out_file.f [
  | none ↦ s.send_eof
  | some f ↦ not s.off_req_sent && not s.waiting_for_got || s.send_eof
]

abbrev pub send_next : Env → Config → State → State × ℕ
send_next env config s =
    if may_send_block s
    then elim s.out_file.f [ none ↦ send_eof_block env s | some f ↦ send_file_block env config f s ]
    else (s, 1)

-- The choice by what waits in the output buffer and in the queue of messages.
unfoldable pub send_from : Env → Config → Sent → Bytes → List Bmsg → State → State × ℕ
unfolding flush send_msgs send_file_block send_eof_block
send_from env config sent (b ∷ rest) msgs s = flush env sent s
send_from env config sent [] (m ∷ msgs) s = send_msgs env s
send_from env config sent [] [] s = send_next env config s

-- The result is 0 for an error, 2 where the peer takes nothing, else 1.
unfoldable pub send_block : Env → Config → Sent → State → State × ℕ
unfolding send_from
send_block env config sent s = send_from env config sent s.pending s.msgs s
