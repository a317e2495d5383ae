-- ===== src/Protocol/Send/Queue.antt =====
-- protocol.c: no message of the queue is lost, doubled or reordered on its way to the output buffer,
-- and the buffer is never filled beyond MAX_BLKSIZE.
use mathlib.Core.List.{append_assoc}
use binkd.Base.{
  ℕ, ◌+◌, ◌-◌, ◌≤◌, ◌<◌, true, false, List, [], ◌∷◌, ◌++◌, Bytes, All, length, length-append,
  Option, some, none, ltb, Bool-cases, inl, inr, ◌≡◌, ◌≢◌, refl, sym, ap, ◌∙◌, arith,
}
use binkd.Protocol.Env.{Env, Config}
use binkd.Protocol.Send.{
  Sent, Packed, too_big, packed, keep, put, pack, put_packed, send_msgs, send_from, send_block,
}
use binkd.Protocol.State.{max_blksize, Bmsg, State}

-- The bytes of the messages that are still to be sent.
abbrev pub unsent : List Bmsg → Bytes
unsent [] = []
unsent (m ∷ msgs) = elim m.s [ none ↦ unsent msgs | some bytes ↦ bytes ++ unsent msgs ]

-- `sz` is the length of the frame, which fits the output buffer.
abbrev pub Fits : Bmsg → Type 0
Fits m = elim m.s [
  | none ↦ Unit {0}
  | some bytes ↦ (m.sz ≡ length bytes) × (m.sz ≤ max_blksize) × (0 < m.sz)
]

-- What the loop promises of its result.
abbrev Packs : ℕ → List Bmsg → Packed → Type 0
Packs oleft msgs (too_big out left) = ⊥
Packs oleft msgs (packed out left done) =
    (out ++ unsent left ≡ unsent msgs)
    × (oleft + length out ≤ max_blksize)
    × (done ≡ true → unsent left ≡ [])
    × All Fits left

keep-Packs :
    (oleft sz : ℕ) (t : ℕ) (msgs : List Bmsg) (p : Packed)
    → Packs oleft msgs p
    → Packs oleft
        (record { t = t; sz = sz; s = none } ∷ msgs)
        (keep (record { t = t; sz = sz; s = none }) p)
keep-Packs oleft sz t msgs (too_big out left) h = h
keep-Packs oleft sz t msgs (packed out left done) h = (h.0, h.1, h.2, (tt, h.3))

put-Packs :
    (oleft sz t : ℕ) (bytes : Bytes) (msgs : List Bmsg) (p : Packed)
    → sz ≡ length bytes
    → Packs (oleft + sz) msgs p
    → Packs oleft
        (record { t = t; sz = sz; s = some bytes } ∷ msgs)
        (put bytes (record { t = t; sz = sz; s = some bytes }) p)
put-Packs oleft sz t bytes msgs (too_big out left) e h = h
put-Packs oleft sz t bytes msgs (packed out left done) e h = (
  append_assoc bytes out (unsent left) ∙ ap (λ (l : Bytes). bytes ++ l) h.0,
  omega (arith, h.1, length-append bytes out),
  h.2,
  (tt, h.3),
)

pack_one :
    (oleft t sz : ℕ) (o : Option Bytes) (msgs : List Bmsg)
    → oleft ≤ max_blksize
    → All Fits (record { t = t; sz = sz; s = o } ∷ msgs)
    → ((used : ℕ) → used ≤ max_blksize → Packs used msgs (pack used msgs))
    → Packs oleft
        (record { t = t; sz = sz; s = o } ∷ msgs)
        (pack oleft (record { t = t; sz = sz; s = o } ∷ msgs))
unfolding pack
pack_one oleft t sz none msgs room h ih =
    keep-Packs oleft sz t msgs (pack oleft msgs) (ih oleft room)
pack_one oleft t sz (some bytes) msgs room h ih =
    let small : ltb max_blksize (sz - 2) ≡ false = ground arith in
    rw small (elim (Bool-cases (ltb max_blksize (oleft + sz))) [
      | inl full ↦ rw full (refl, omega arith, λ e. cc, h)
      | inr space ↦ rw space (
          put-Packs oleft sz t bytes msgs (pack (oleft + sz) msgs) h.0.0
            (ih (oleft + sz) (ground arith)))
    ])

pack-Packs :
    (oleft : ℕ) (msgs : List Bmsg)
    → oleft ≤ max_blksize
    → All Fits msgs
    → Packs oleft msgs (pack oleft msgs)
pack-Packs oleft [] room h = unfold pack in (refl, omega arith, λ _. refl, tt)
pack-Packs oleft (m ∷ msgs) room h =
    pack_one oleft m.t m.sz m.s msgs room h (λ used fits. pack-Packs used msgs fits h.1)

-- Where something waits, the loop copies something.
abbrev Progress : List Bmsg → Packed → Type 0
Progress msgs (too_big out left) = Unit
Progress msgs (packed out left done) = unsent msgs ≢ [] → out ≢ []

pack_one-Progress :
    (t sz : ℕ) (o : Option Bytes) (msgs : List Bmsg)
    → All Fits (record { t = t; sz = sz; s = o } ∷ msgs)
    → Progress msgs (pack 0 msgs)
    → Progress
        (record { t = t; sz = sz; s = o } ∷ msgs)
        (pack 0 (record { t = t; sz = sz; s = o } ∷ msgs))
unfolding pack
pack_one-Progress t sz none msgs h ih = keep_progress (pack 0 msgs) ih
  where
    keep_progress :
        (p : Packed)
        → Progress msgs p
        → Progress
            (record { t = t; sz = sz; s = none } ∷ msgs)
            (keep (record { t = t; sz = sz; s = none }) p)
    keep_progress (too_big out left) k = k
    keep_progress (packed out left done) k = k
pack_one-Progress t sz (some []) msgs h ih = absurd (omega arith)
pack_one-Progress t sz (some (b ∷ bytes)) msgs h ih =
    let small : ltb max_blksize (sz - 2) ≡ false = ground arith in
    let space : ltb max_blksize (0 + sz) ≡ false = ground arith in
    rw small (rw space (put_progress (pack (0 + sz) msgs)))
  where
    put_progress :
        (p : Packed)
        → Progress
            (record { t = t; sz = sz; s = some (b ∷ bytes) } ∷ msgs)
            (put (b ∷ bytes) (record { t = t; sz = sz; s = some (b ∷ bytes) }) p)
    put_progress (too_big out left) = tt
    put_progress (packed out left done) = λ _ e. cc

pack-Progress : (msgs : List Bmsg) → All Fits msgs → Progress msgs (pack 0 msgs)
pack-Progress [] h = unfold pack in λ none_left. absurd (none_left refl)
pack-Progress (m ∷ msgs) h = pack_one-Progress m.t m.sz m.s msgs h (pack-Progress msgs h.1)

-- What `send_block` promises where the output buffer is empty and messages wait: it reports no
-- error, the buffer and the queue left hold the same bytes in the same order, the buffer stays
-- within MAX_BLKSIZE, something is put to it if a message is unsent, and the queue left fits the
-- buffer again.
pub record Sends (s : State) (r : State × ℕ) : Type 0 where
  pub no_error : r.1 ≡ 1
  pub conserves : r.0.pending ++ unsent r.0.msgs ≡ unsent s.msgs
  pub within_buffer : length r.0.pending ≤ max_blksize
  pub progress : unsent s.msgs ≢ [] → r.0.pending ≢ []
  pub still_fits : All Fits r.0.msgs

put_packed-Sends :
    (env : Env) (s : State) (p : Packed)
    → Packs 0 s.msgs p
    → Progress s.msgs p
    → Sends s (put_packed env p s)
unfolding put_packed
put_packed-Sends env s (too_big out left) k pr = absurd k
put_packed-Sends env s (packed out left true) k pr = record {
  no_error = refl;
  conserves = ap (λ (l : Bytes). out ++ l) (sym (k.2 refl)) ∙ k.0;
  within_buffer = omega (arith, k.1);
  progress = pr;
  still_fits = tt;
}
put_packed-Sends env s (packed out left false) k pr = record {
  no_error = refl;
  conserves = k.0;
  within_buffer = omega (arith, k.1);
  progress = pr;
  still_fits = k.3;
}

send_msgs-Sends : (env : Env) (s : State) → All Fits s.msgs → Sends s (send_msgs env s)
unfolding send_msgs
send_msgs-Sends env s h =
    put_packed-Sends env s (pack 0 s.msgs) (pack-Packs 0 s.msgs (omega arith) h)
      (pack-Progress s.msgs h)

send_from-send_msgs :
    (env : Env) (config : Config) (sent : Sent) (s : State) (msgs : List Bmsg)
    → msgs ≢ []
    → send_from env config sent [] msgs s ≡ send_msgs env s
unfolding send_from
send_from-send_msgs env config sent s [] h = absurd (h refl)
send_from-send_msgs env config sent s (m ∷ rest) h = refl

send_block-send_msgs :
    (env : Env) (config : Config) (sent : Sent) (s : State)
    → s.pending ≡ []
    → s.msgs ≢ []
    → send_block env config sent s ≡ send_msgs env s
unfolding send_block
send_block-send_msgs env config sent s empty some_msg =
    ap (λ (l : Bytes). send_from env config sent l s.msgs s) empty
    ∙ send_from-send_msgs env config sent s s.msgs some_msg

-- Where the output buffer is empty and messages wait that each fit it, `send_block` copies a prefix
-- of the queue to the buffer, as `Sends` says.
pub send_block-Sends :
    (env : Env) (config : Config) (sent : Sent) (s : State)
    → s.pending ≡ []
    → s.msgs ≢ []
    → All Fits s.msgs
    → Sends s (send_block env config sent s)
send_block-Sends env config sent s empty some_msg h =
    rw (send_block-send_msgs env config sent s empty some_msg) (send_msgs-Sends env s h)

pack_stuck :
    (oleft t sz : ℕ) (bytes : Bytes) (msgs : List Bmsg)
    → max_blksize < sz
    → sz ≤ max_blksize + 2
    → pack oleft (record { t = t; sz = sz; s = some bytes } ∷ msgs)
      ≡ packed [] (record { t = t; sz = sz; s = some bytes } ∷ msgs) false
unfolding pack
pack_stuck oleft t sz bytes msgs over under =
    let small : ltb max_blksize (sz - 2) ≡ false = ground arith in
    let full : ltb max_blksize (oleft + sz) ≡ true = ground arith in rw small (rw full)

-- The test for a message that is too big leaves out its header, and the test for free space counts
-- it. A message of MAX_BLKSIZE + 1 or + 2 bytes at the head of the queue is then neither sent nor
-- reported: `send_block` succeeds and changes nothing, however often it is called.
pub send_block_stuck :
    (env : Env) (config : Config) (sent : Sent) (s : State) (t sz : ℕ) (bytes : Bytes)
    (msgs : List Bmsg)
    → s.pending ≡ []
    → s.msgs ≡ record { t = t; sz = sz; s = some bytes } ∷ msgs
    → max_blksize < sz
    → sz ≤ max_blksize + 2
    → send_block env config sent s ≡ (s, 1)
unfolding send_msgs put_packed
send_block_stuck env config sent s t sz bytes msgs empty queue over under =
    send_block-send_msgs env config sent s empty (λ e. cc)
    ∙ ap (λ (l : List Bmsg). put_packed env (pack 0 l) s) queue
    ∙ ap (λ (p : Packed). put_packed env p s) (pack_stuck 0 t sz bytes msgs over under)
    ∙ (λ i. (record s { pending = sym empty i; msgs = sym queue i }, 1))
