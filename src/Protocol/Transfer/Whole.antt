-- ===== src/Protocol/Transfer/Whole.antt =====
-- protocol.c: the transfer of a whole file.
use binkd.Base.{
  ℕ, zero, suc, ◌+◌, ◌≤◌, ◌<◌, true, Bytes, length, some, ◌==◌, Bool-cases, inl, inr, ◌≡◌, arith,
}
use binkd.Protocol.Env.{Env, Config}
use binkd.Protocol.Send.Block.{next_size}
use binkd.Protocol.State.{max_blksize, File, Tfile, State}
use binkd.Protocol.Recv.{Commands}
use binkd.Protocol.Transfer.{transfer, Linked, Delivered}
use binkd.Protocol.Transfer.Step.{Delivered-more, Delivered-last}

-- A file is transferred whole. Between two frames of the file the receiving side holds the bytes
-- before the sending side's offset and the two sides agree on encryption (`Linked`); blocks are
-- of 1 to MAX_BLKSIZE bytes, the file is no packet and is as long as announced, and the receiver's
-- disk takes every block. Then after at most as many rounds as bytes are left the receiving side
-- completes the file with exactly the content of the sent one, in an encrypted session too, and the
-- sending side has put the file to the queue of those that wait for M_GOT.
pub transfer-Delivered :
    (env : Env) (config : Config) (commands : Commands) (n : ℕ) (f g : File) (a s : State)
    → Linked env f g a s
    → 0 < config.oblksize
    → config.oblksize ≤ max_blksize
    → ((t : Tfile) (block : Bytes) → env.fwrite_ok t block ≡ true)
    → length f.content ≤ f.offset + n
    → Delivered env f a s (transfer env config commands n (some f) a s)
transfer-Delivered env config commands zero f g a s l progress fits disk enough =
    absurd (omega (arith, l.left))
transfer-Delivered env config commands (suc n) f g a s l progress fits disk enough =
    elim (Bool-cases (f.offset + next_size config f a == length f.content)) [
      | inl last ↦ Delivered-last env config commands f g a s l progress fits disk n (ground arith)
      | inr more ↦
          let left : f.offset + next_size config f a < length f.content =
            ground (arith, l.whole, l.left) in
          Delivered-more env config commands f g a s l progress fits disk n left (λ next.
            transfer-Delivered env config commands n _ _ _ _ next progress fits disk
              (omega (arith, l.left, l.whole)))
    ]
