-- ===== src/Protocol/Recv/Header.antt =====
-- protocol.c: the header that `mkhdr` writes is the header that `recv_block` reads.
use binkd.Base.{ℕ, ◌≤◌, bit_or, true, false, ◌≡◌, arith}
use binkd.Base.Bits.{bit_or_high}
use binkd.Protocol.Send.{mkhdr}
use binkd.Protocol.Recv.{is_msg_hdr, hdr_size}
use binkd.Protocol.State.{max_blksize}

-- A data block of at most MAX_BLKSIZE bytes is announced as data, with its size.
pub hdr-mkhdr_data :
    (sz : ℕ) → sz ≤ max_blksize → (is_msg_hdr (mkhdr sz) ≡ false) × (hdr_size (mkhdr sz) ≡ sz)
unfolding mkhdr is_msg_hdr hdr_size
hdr-mkhdr_data sz h = ground arith

-- A message of at most MAX_BLKSIZE bytes is announced as a message, with its size.
pub hdr-mkhdr_msg :
    (sz : ℕ)
    → sz ≤ max_blksize
    → (is_msg_hdr (mkhdr (bit_or sz 0x8000)) ≡ true) × (hdr_size (mkhdr (bit_or sz 0x8000)) ≡ sz)
unfolding mkhdr is_msg_hdr hdr_size
hdr-mkhdr_msg sz h = rw (bit_or_high 15 sz (omega arith)) (ground arith)
