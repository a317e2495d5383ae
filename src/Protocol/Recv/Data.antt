-- ===== src/Protocol/Recv/Data.antt =====
-- protocol.c: a data block, from the output buffer of one side to the open file of the other.
use binkd.Base.{
  ℕ, ◌≤◌, ◌<◌, Bool, true, false, [], ◌++◌, Bytes, length, take, drop, some, none, ◌==◌, ◌≡◌, refl,
  ap, ◌∙◌, arith,
}
use binkd.Protocol.Env.{Env}
use binkd.Protocol.Send.{mkhdr, seal}
use binkd.Protocol.State.{max_blksize, File, State}
use binkd.Protocol.Recv.{
  Commands, keep_error, store_block, got_block, handle_full, got_data, is_msg_hdr, hdr_size, unseal,
  put_bytes, handle_ibuf, recv_bytes,
}
use binkd.Protocol.Recv.Header.{hdr-mkhdr_data}
use binkd.Protocol.Recv.Message.{unseal-seal, unseal_pieces, recv_hdr}

-- The header and then the block of a frame are received.
abbrev pub recv_frame : Env → Commands → Bytes → State → State × Bool
recv_frame env commands x s =
    recv_bytes env commands (drop 2 x) (recv_bytes env commands (take 2 x) s).0

handle_ibuf_data :
    (env : Env) (commands : Commands) (s : State) (block : Bytes) (g : File)
    → s.isize ≡ some (length block)
    → s.imsg ≡ false
    → s.ibuf ≡ block
    → s.in_file.f ≡ some g
    → handle_ibuf env commands s ≡ keep_error (store_block env g block s)
unfolding handle_ibuf handle_full got_block got_data
handle_ibuf_data env commands s block g size is_data full open_file =
    let full_block : (length block == length block) ≡ true = ground arith in
    rw size (
      rw full (
        rw full_block
          (rw is_data (rw open_file (rw (← size, ← open_file, ← is_data, ← full) refl)))))

-- A session that waits for a header receives the frame of a data block that the other side has put
-- to its output buffer, and the block is stored.
pub recv-data :
    (env : Env) (commands : Commands) (a s : State) (block : Bytes) (g : File)
    → a.crypt_flag ≡ s.crypt_flag
    → a.keys_out ≡ s.keys_in
    → s.isize ≡ none
    → s.ibuf ≡ []
    → 0 < length block
    → length block ≤ max_blksize
    → s.in_file.f ≡ some g
    → recv_frame env commands (seal env a (mkhdr (length block) ++ block)).0 s
      ≡ keep_error (
          store_block env g block (record s {
            imsg = false;
            isize = some (length block);
            ibuf = block;
            keys_in = (seal env a (mkhdr (length block) ++ block)).1;
          }))
unfolding recv_bytes put_bytes
recv-data env commands a s block g flag keys no_size no_bytes some_bytes fits open_file =
    let hdr = mkhdr (length block) in
    let x = (seal env a (hdr ++ block)).0 in
    let read = hdr-mkhdr_data (length block) fits in
    let pieces =
      unseal_pieces env s x hdr block (seal env a (hdr ++ block)).1
        (unseal-seal env a s (hdr ++ block) flag keys) (unfold mkhdr in refl) in
    let first =
      recv_hdr env commands s x hdr no_size no_bytes pieces.0 (unfold mkhdr in refl)
        (omega (arith, read.1)) in
    let t = record s {
      imsg = is_msg_hdr hdr;
      isize = some (hdr_size hdr);
      ibuf = [];
      keys_in = (unseal env s (take 2 x)).1;
    } in
    ap (λ (r : State × Bool). recv_bytes env commands (drop 2 x) r.0) first
    ∙ handle_ibuf_data env commands (put_bytes env (drop 2 x) t) block g (ap some read.1) read.0
        (λ i. (pieces.1 i).0) open_file
    ∙ (λ i. keep_error (
        store_block env g block (record s {
          imsg = read.0 i;
          isize = some (read.1 i);
          ibuf = (pieces.1 i).0;
          keys_in = (pieces.1 i).1;
        })))

-- The same where the size of the block is given.
pub recv_data_size :
    (env : Env) (commands : Commands) (a s : State) (sz : ℕ) (block : Bytes) (g : File)
    → a.crypt_flag ≡ s.crypt_flag
    → a.keys_out ≡ s.keys_in
    → s.isize ≡ none
    → s.ibuf ≡ []
    → length block ≡ sz
    → 0 < sz
    → sz ≤ max_blksize
    → s.in_file.f ≡ some g
    → recv_frame env commands (seal env a (mkhdr sz ++ block)).0 s
      ≡ keep_error (
          store_block env g block (record s {
            imsg = false;
            isize = some sz;
            ibuf = block;
            keys_in = (seal env a (mkhdr sz ++ block)).1;
          }))
recv_data_size env commands a s sz block g flag keys no_size no_bytes len some_bytes fits
      open_file =
    rw (← len) (
      recv-data env commands a s block g flag keys no_size no_bytes (omega (arith, len))
        (omega (arith, len)) open_file)
