-- ===== src/Protocol/Recv.antt =====
-- protocol.c: `recv_block`, which reads headers and blocks from the peer, hands commands to their
-- handlers and writes file blocks.
pub mod Header
pub mod Stream
pub mod Message
pub mod Data
pub mod Store
pub mod Bounds
use binkd.Base.{
  ℕ, zero, suc, ◌+◌, ◌-◌, ◌*◌, ◌/◌, ◌%◌, ◌^◌, Bool, true, false, not, ◌&&◌, ◌||◌, List, [], ◌∷◌,
  ◌++◌, Option, none, some, Bytes, codes, length, get_or, ltb, leb, ◌==◌, if◌then◌else◌,
}
use binkd.Crypt.{Keys, decrypt_buf}
use binkd.Text.{c_string}
use binkd.Protocol.Env.{Env}
use binkd.Protocol.Send.{is_yes_crypt, bad_try_to}
use binkd.Protocol.Tfiles.{send_tfile, finish_file}
use binkd.Protocol.State.{m_got, m_max, File, write_at, Tfile, tf_zero, State}

-- What a call of `recv` or `read` answers; no bytes at all mean a closed connection.
pub data Received : Type 0 where
  got : Bytes → Received
  blocked broken : Received

-- `sz`: how long the current header or block is.
abbrev pub block_size : State → ℕ
block_size s = elim s.isize [ none ↦ 2 | some n ↦ n ]

-- All bytes of the incoming file are there.
unfoldable pub complete_in : Env → State → State × Bool
unfolding finish_file send_tfile
complete_in env s =
    let closed = record s { in_file = record s.in_file { f = none } } in
    let renamed =
      if s.nd_flag.they_nd
      then (record closed { in_complete = closed.in_file }, true)
      else finish_file env closed.in_file closed in
    if not (env.fclose_ok s.in_file)
    then (closed, false)
    else if not renamed.1
    then renamed
    else (record (send_tfile env m_got closed.in_file renamed.0) { in_file = tf_zero }, true)

-- What follows the write of a block; the file is now at `f.offset`.
unfoldable pub after_write : Env → File → State → State × Bool
unfolding complete_in
after_write env f s =
    let t = record s { in_file = record s.in_file { f = some f } } in
    if f.offset == s.in_file.size
    then complete_in env t
    else if ltb s.in_file.size f.offset
    then (t, false)
    else (t, true)

-- A data block for the open file `f`.
unfoldable pub store_block : Env → File → Bytes → State → State × Bool
unfolding after_write
store_block env f block s =
    if not (length block == 0) && not (env.fwrite_ok s.in_file block)
    then (s, false)
    else after_write env (write_at f block) s

-- `isize = -1; iread = 0`
abbrev pub next_header : State → State
next_header s = record s { isize = none; ibuf = [] }

abbrev pub keep_error : State × Bool → State × Bool
keep_error (s, true) = (next_header s, true)
keep_error (s, false) = (s, false)

-- A handler that returns 0 leaves `isize` alone.
abbrev pub drop_error : State × Bool → State × Bool
drop_error (s, true) = (next_header s, true)
drop_error (s, false) = (record s { ibuf = [] }, false)

-- The table `commands`: number, argument and state.
abbrev pub Commands : Type 0
Commands = ℕ → Bytes → State → State × Bool

unfoldable pub got_msg : Commands → Bytes → State → State × Bool
unfolding c_string
got_msg commands [] s = (next_header s, true)
got_msg commands (m ∷ args) s =
    let run = commands m (c_string args) s in
    if ltb m_max m then (next_header s, true) else drop_error run

-- A data block that no file is open for is ignored.
unfoldable pub got_data : Env → Option File → Bytes → State → State × Bool
unfolding store_block
got_data env none block s = (next_header s, true)
got_data env (some f) block s = keep_error (store_block env f block s)

unfoldable pub got_block : Env → Commands → Bytes → State → State × Bool
unfolding got_msg got_data
got_block env commands block s =
    if s.imsg
    then got_msg commands block (record s { msgs_in_batch = s.msgs_in_batch + 1 })
    else got_data env s.in_file.f block s

-- The two bytes of a header: message or data, and the size of the block.
unfoldable pub is_msg_hdr : Bytes → Bool
is_msg_hdr hdr = leb 128 (get_or hdr 0 0)

unfoldable pub hdr_size : Bytes → ℕ
hdr_size hdr = get_or hdr 0 0 % 128 * 2 ^ 8 + get_or hdr 1 0

unfoldable pub got_header : Env → Commands → Bytes → State → State × Bool
unfolding got_block is_msg_hdr hdr_size
got_header env commands hdr s =
    let size = hdr_size hdr in
    let t = record s { imsg = is_msg_hdr hdr; isize = some size } in
    if size == 0 then got_block env commands [] t else (record t { ibuf = [] }, true)

unfoldable pub unseal : Env → State → Bytes → Bytes × Keys
unseal env s buf =
    if is_yes_crypt s.crypt_flag then decrypt_buf env.wrap s.keys_in buf else (buf, s.keys_in)

-- The connection is lost.
unfoldable pub io_failure : Env → Bytes → State → State × Bool
io_failure env error s =
    let t = record s { io_error = true } in (if env.exiting then t else bad_try_to error t, false)

abbrev closed_error : Bytes
closed_error = codes "connection closed by foreign host"

-- The bytes read are decrypted and put behind those of `ibuf`.
unfoldable pub put_bytes : Env → Bytes → State → State
unfolding unseal
put_bytes env buf s =
    let (plain, keys) = unseal env s buf in record s { ibuf = s.ibuf ++ plain; keys_in = keys }

-- What a complete buffer holds: a header where no size is known, else a block.
unfoldable pub handle_full : Env → Commands → Option ℕ → State → State × Bool
unfolding got_header got_block
handle_full env commands none s = got_header env commands s.ibuf s
handle_full env commands (some n) s = got_block env commands s.ibuf s

-- A header or block that is complete is handled.
unfoldable pub handle_ibuf : Env → Commands → State → State × Bool
unfolding handle_full
handle_ibuf env commands s =
    if length s.ibuf == block_size s then handle_full env commands s.isize s else (s, true)

unfoldable pub recv_bytes : Env → Commands → Bytes → State → State × Bool
unfolding put_bytes handle_ibuf
recv_bytes env commands buf s = handle_ibuf env commands (put_bytes env buf s)

-- `no == 0 && sz > 0` at the end of the function.
abbrev check_closed : Env → Bool → State × Bool → State × Bool
check_closed env closed (s, false) = (s, false)
check_closed env false (s, true) = (s, true)
check_closed env true (s, true) = io_failure env closed_error s

unfoldable pub recv_block : Env → Commands → Received → State → State × Bool
unfolding recv_bytes io_failure
recv_block env commands (got buf) s =
    check_closed env (length buf == 0 && ltb 0 (block_size s)) (recv_bytes env commands buf s)
recv_block env commands blocked s = (s, true)
recv_block env commands broken s = io_failure env (codes "recv") s
