-- ===== src/Protocol/Send/Block.antt =====
-- protocol.c: the data blocks of a file that `send_block` puts to the output buffer.
use binkd.Base.{
  ℕ, ◌+◌, ◌-◌, ◌≤◌, min, Bool, true, false, ◌&&◌, ◌||◌, Bytes, take, drop, length, length-take,
  length-drop, some, if◌then◌else◌, ◌==◌, ltb, leb, ◌≡◌, refl, arith,
}
use binkd.Protocol.Env.{Env, Config}
use binkd.Protocol.Send.{patch_block, put_block, current_file_was_sent, send_file_block}
use binkd.Protocol.State.{File, State}

-- The size of the next block, and its bytes.
abbrev pub next_size : Config → File → State → ℕ
next_size config f s = min config.oblksize (s.out_file.size - f.offset)

abbrev pub next_block : Config → File → State → Bytes
next_block config f s = take (next_size config f s) (drop f.offset f.content)

-- The file behind the block.
abbrev pub advanced : Config → File → State → State
advanced config f s = record s {
  out_file = record s.out_file { f = some (record f { offset = f.offset + next_size config f s }) };
}

patch_block_plain :
    (env : Env) (s : State) (offset sz : ℕ) (block : Bytes)
    → env.ispkt s.out_file.netname ≡ false
    → patch_block env s offset sz block ≡ block
patch_block_plain env s offset sz block plain = rw plain (go (offset == sz) (leb 60 sz))
  where
    go : (a b : Bool) → (if a && b && false then env.share_pkt s block else block) ≡ block
    go true true = refl
    go true false = refl
    go false b = refl

module _ (env : Env) (config : Config) (f : File) (s : State) (room : f.offset ≤ s.out_file.size)
    (whole : s.out_file.size ≡ length f.content) where
  pub length-next_block : length (next_block config f s) ≡ next_size config f s
  length-next_block = omega (
    arith,
    whole,
    room,
    length-take (next_size config f s) (drop f.offset f.content),
    length-drop f.offset f.content,
  )

  -- What `send_block` does with a file that is not shorter than it was announced.
  pub send_file_block_next :
      env.ispkt s.out_file.netname ≡ false
      → send_file_block env config f s ≡ (
          let next = advanced config f s in
          let last =
            next_size config f s == 0 || s.out_file.size == f.offset + next_size config f s in
          (
            put_block env
                (next_size config f s)
                (next_block config f s)
                (if last then current_file_was_sent next else next),
            1,
          ))
  unfolding send_file_block
  send_file_block_next plain =
      let len = length-next_block in
      let enough : ltb (length (next_block config f s)) (next_size config f s) ≡ false =
        ground arith in
      rw enough (
        rw
          (patch_block_plain env s (f.offset + length (next_block config f s))
            (next_size config f s) (next_block config f s) plain)
          (rw len refl))
