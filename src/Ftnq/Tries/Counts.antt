-- ===== src/Ftnq/Tries/Counts.antt =====
-- ftnq.c: the counts of calls are read back, and enough bad calls in a row put a node on hold.
use binkd.Base.{
  ℕ, zero, suc, ◌+◌, ◌*◌, ◌/◌, ◌%◌, ◌^◌, ◌<◌, true, false, some, Bytes, leb, ltb, ◌==◌, ◌≡◌, refl,
  ◌∙◌, arith,
}
use binkd.Ftnq.Tries.{TryConfig, TryFiles, write_try, scan_try, read_try, hold_node, bad_try}

-- The counts can be kept.
pub record CanWrite (config : TryConfig) (s : TryFiles) : Type 0 where
  pub counted : 0 < config.tries
  pub named : s.is_named ≡ true
  pub writable : s.fopen_ok ≡ true

two_bytes : (n : ℕ) → n % 256 + n / 256 % 256 * 256 ≡ n % 2 ^ 16
two_bytes n = omega arith

-- read_try gives the two counts that write_try has written, without their bits from 2 ^ 16 on, where
-- the address has a file name, calls are counted and the file can be written.
pub read_try-write_try :
    (config : TryConfig) (nok nbad : ℕ) (comment : Bytes) (unset : ℕ × ℕ) (s : TryFiles)
    → CanWrite config s
    → read_try (write_try config (nok, nbad) comment s) unset ≡ (nok % 2 ^ 16, nbad % 2 ^ 16)
unfolding read_try write_try scan_try
read_try-write_try config nok nbad comment unset s c =
    let counted : ltb 0 config.tries ≡ true = ground (arith, c.counted) in
    rw (counted, c.named, c.writable) (rw (two_bytes nok, two_bytes nbad) refl)

-- The bad calls before the limit are counted; nothing else changes.
bad_try_counted :
    (config : TryConfig) (now nok nbad : ℕ) (unset : ℕ × ℕ) (error : Bytes) (s : TryFiles)
    → CanWrite config s
    → read_try s unset ≡ (nok, nbad)
    → nbad + 1 < config.tries
    → config.tries < 2 ^ 16
    → bad_try config now unset error s ≡ write_try config (nok, nbad + 1) error s
unfolding bad_try
bad_try_counted config now nok nbad unset error s c e h k =
    let small : (nbad + 1) % 2 ^ 32 ≡ nbad + 1 = omega arith in
    let counted : (config.tries == 0) ≡ false = ground (arith, c.counted) in
    let below : leb config.tries (nbad + 1) ≡ false = ground arith in
    rw (e, small, counted, below) refl

bad_try_held :
    (config : TryConfig) (now nok nbad : ℕ) (unset : ℕ × ℕ) (error : Bytes) (s : TryFiles)
    → CanWrite config s
    → read_try s unset ≡ (nok, nbad)
    → nbad + 1 ≡ config.tries
    → config.tries < 2 ^ 16
    → bad_try config now unset error s
      ≡ write_try config (0, 0) error (hold_node (now + config.hold) s)
unfolding bad_try
bad_try_held config now nok nbad unset error s c e h k =
    let small : (nbad + 1) % 2 ^ 32 ≡ nbad + 1 = omega arith in
    let counted : (config.tries == 0) ≡ false = ground (arith, c.counted) in
    let reached : leb config.tries (nbad + 1) ≡ true = ground arith in
    rw (e, small, counted, reached) refl

-- `k` bad calls in a row, at the same time.
unfoldable pub bad_tries : ℕ → TryConfig → ℕ → ℕ × ℕ → Bytes → TryFiles → TryFiles
bad_tries zero config now unset error s = s
bad_tries (suc k) config now unset error s =
    bad_try config now unset error (bad_tries k config now unset error s)

pub write_try-CanWrite :
    (config : TryConfig) (counts : ℕ × ℕ) (comment : Bytes) (s : TryFiles)
    → CanWrite config s
    → CanWrite config (write_try config counts comment s)
      × ((write_try config counts comment s).hld_file ≡ s.hld_file)
unfolding write_try
write_try-CanWrite config counts comment s c =
    let counted : ltb 0 config.tries ≡ true = ground (arith, c.counted) in
    rw (counted, c.named, c.writable)
      (record { counted = c.counted; named = refl; writable = refl }, refl)

module _ (config : TryConfig) (now : ℕ) (unset : ℕ × ℕ) (error : Bytes) (s : TryFiles) where
  abbrev after : ℕ → TryFiles
  after k = bad_tries k config now unset error s

  -- What is known after fewer bad calls than the limit.
  abbrev Counted : ℕ → ℕ → Type 0
  Counted nok k =
      (read_try (after k) unset ≡ (nok, k))
      × CanWrite config (after k)
      × ((after k).hld_file ≡ s.hld_file)

  counted :
      (nok k : ℕ)
      → CanWrite config s
      → read_try s unset ≡ (nok, 0)
      → nok < 2 ^ 16
      → k < config.tries
      → config.tries < 2 ^ 16
      → Counted nok k
  unfolding bad_tries
  counted nok zero c e hn h l = (e, c, refl)
  counted nok (suc k) c e hn h l =
      let (counts, writes, holds) = counted nok k c e hn (omega arith) l in
      let step =
        bad_try_counted config now nok k unset error (after k) writes counts (omega arith) l in
      let (writes', holds') = write_try-CanWrite config (nok, k + 1) error (after k) writes in
      let nok_fits : nok % 2 ^ 16 ≡ nok = omega arith in
      let nbad_fits : (k + 1) % 2 ^ 16 ≡ suc k = omega arith in
      rw step (
        read_try-write_try config nok (k + 1) error unset (after k) writes
            ∙ rw (nok_fits, nbad_fits) refl,
        writes',
        holds' ∙ holds,
      )

pub hold_node-CanWrite :
    (config : TryConfig) (hold_until : ℕ) (s : TryFiles)
    → CanWrite config s
    → CanWrite config (hold_node hold_until s)
      × ((hold_node hold_until s).hld_file ≡ some (hold_until % 2 ^ 64))
unfolding hold_node
hold_node-CanWrite config hold_until s c =
    rw (c.named, c.writable) (record { counted = c.counted; named = refl; writable = refl }, refl)

-- After `k` bad calls in a row of an address without bad calls so far, .try holds `k` and the good
-- calls, and the hold is as it was, where `k` is less than the limit. The address has a file name,
-- the files can be written, and the limit is positive and below 2 ^ 16.
pub bad_tries_counted :
    (config : TryConfig) (now : ℕ) (unset : ℕ × ℕ) (error : Bytes) (s : TryFiles) (nok k : ℕ)
    → CanWrite config s
    → read_try s unset ≡ (nok, 0)
    → nok < 2 ^ 16
    → k < config.tries
    → config.tries < 2 ^ 16
    → (read_try (bad_tries k config now unset error s) unset ≡ (nok, k))
      × ((bad_tries k config now unset error s).hld_file ≡ s.hld_file)
bad_tries_counted config now unset error s nok k c e hn h l =
    let kept = counted config now unset error s nok k c e hn h l in (kept.0, kept.2)

-- After as many bad calls in a row as the limit says, of an address without bad calls so far, both
-- counts in .try are 0 and the hold lasts for the configured time from the last call on. The address
-- has a file name, the files can be written, and the limit is positive and below 2 ^ 16.
pub bad_tries_held :
    (config : TryConfig) (now : ℕ) (unset : ℕ × ℕ) (error : Bytes) (s : TryFiles) (nok before : ℕ)
    → CanWrite config s
    → read_try s unset ≡ (nok, 0)
    → nok < 2 ^ 16
    → config.tries < 2 ^ 16
    → suc before ≡ config.tries
    → (read_try (bad_tries (suc before) config now unset error s) unset ≡ (0, 0))
      × ((bad_tries (suc before) config now unset error s).hld_file
          ≡ some ((now + config.hold) % 2 ^ 64))
unfolding bad_tries
bad_tries_held config now unset error s nok before c e hn l last =
    let run = bad_tries before config now unset error s in
    let held = hold_node (now + config.hold) run in
    let kept = counted config now unset error s nok before c e hn (omega (arith, last)) l in
    let writes = hold_node-CanWrite config (now + config.hold) run kept.1 in
    let step =
      bad_try_held config now nok before unset error run kept.1 kept.0 (omega (arith, last)) l in
    rw step (
      read_try-write_try config 0 0 error unset held writes.0,
      (write_try-CanWrite config (0, 0) error held writes.0).1 ∙ writes.1,
    )
