-- ===== src/Protocol/Transfer.antt =====
-- protocol.c: a whole file, from `send_block` of one side to `recv_block` of the other. The main loop
-- of a session calls the two over and over; `transfer` is the sequence of these calls for the data
-- blocks of one file, with each output buffer delivered whole.
pub mod Step
pub mod Whole
use mathlib.Core.List.{append-nil, append_assoc}
use binkd.Base.{
  ℕ, zero, suc, ◌+◌, ◌-◌, ◌≤◌, ◌<◌, min, Bool, true, false, ◌&&◌, ◌||◌, List, [], ◌∷◌, ◌++◌, Bytes,
  length, length-append, length-take, take, drop, take-append-drop, Option, some, none,
  if◌then◌else◌, ◌==◌, Bool-cases, inl, inr, ◌≡◌, refl, sym, ap, ◌∙◌, arith,
}
use mathlib.Core.Path.{subst}
use binkd.Protocol.Env.{Env, Config}
use binkd.Protocol.Send.{mkhdr, seal, put_block, current_file_was_sent, send_file_block}
use binkd.Protocol.Send.Block.{
  next_size, next_block, advanced, length-next_block, send_file_block_next,
}
use binkd.Protocol.State.{max_blksize, File, Tfile, State}
use binkd.Protocol.Recv.{Commands, keep_error, store_block, complete_in}
use binkd.Protocol.Recv.Data.{recv_frame, recv_data_size}
use binkd.Protocol.Recv.Store.{appended, store_block_more, store_block_last}

-- The rounds that are left, the file open on the sending side, that side and the receiving side.
abbrev pub transfer :
    Env → Config → Commands → ℕ → Option File → State → State → State × State × Bool
transfer env config commands zero f a s = (a, s, true)
transfer env config commands (suc n) none a s = (a, s, true)
transfer env config commands (suc n) (some f) a s =
    let (p, rc) = send_file_block env config f a in
    let b = record p { pending = [] } in
    let (t, read) = recv_frame env commands p.pending s in
    let rest = transfer env config commands n b.out_file.f b t in
    if rc == 1 && read then rest else (b, t, read)

-- Between two frames of a file: the two sides agree on encryption, and the receiving side has the
-- bytes before the offset of the sending side.
pub record Linked (env : Env) (f g : File) (a s : State) : Type 0 where
  pub flag : a.crypt_flag ≡ s.crypt_flag
  pub keys : a.keys_out ≡ s.keys_in
  pub no_size : s.isize ≡ none
  pub no_bytes : s.ibuf ≡ []
  pub open_in : s.in_file.f ≡ some g
  pub whole : a.out_file.size ≡ length f.content
  pub same_size : s.in_file.size ≡ length f.content
  pub at_end : g.offset ≡ length g.content
  pub so_far : g.content ≡ take f.offset f.content
  pub left : f.offset < length f.content
  pub plain : env.ispkt a.out_file.netname ≡ false

-- The receiving side has completed the file with the content of the sent one, and the sending side
-- waits for its M_GOT.
abbrev pub Delivered : Env → File → State → State → State × State × Bool → Type 0
Delivered env f a s (b, u, read) =
    (t : State) × ((u, read) ≡ keep_error (complete_in env t))
    × (t.in_file
        ≡ record s.in_file { f = some (record { content = f.content; offset = length f.content }) })
    × (b.sent_fls ≡ a.sent_fls ++ record a.out_file { f = none } ∷ [])
    × (b.out_file.f ≡ none)
