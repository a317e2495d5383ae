-- ===== src/Ftnq/Tries/Standing.antt =====
-- ftnq.c: what the .try and .hld files of an address stand for, over any sequence of calls.
use mathlib.Core.Path.{subst}
use binkd.Base.{
  ℕ, ◌+◌, ◌%◌, ◌^◌, ◌<◌, true, false, List, [], ◌∷◌, Option, none, some, Bytes, leb, ◌==◌, ◌≡◌,
  refl, ◌∙◌, sym, inl, inr, Bool-cases, ◌/◌, if◌then◌else◌, arith,
}
use binkd.Ftnq.Tries.{
  TryConfig, TryFiles, write_try, scan_try, read_try, hold_node, bad_try, remove_try, good_try,
}
use binkd.Ftnq.Tries.Counts.{CanWrite, read_try-write_try, write_try-CanWrite, hold_node-CanWrite}

-- What is known of an address: its good calls, its bad ones in a row, and the end of its hold.
pub record Standing : Type 0 where
  pub good : ℕ
  pub bad : ℕ
  pub hold : Option ℕ

-- A call that ended, at a time, with an error or a comment.
pub data Call : Type 0 where
  failed succeeded : ℕ → Bytes → Call

-- The specification, without files.
unfoldable pub judge_call : TryConfig → Call → Standing → Standing
judge_call config (failed now error) a =
    if leb config.tries (a.bad + 1)
    then record { good = 0; bad = 0; hold = some ((now + config.hold) % 2 ^ 64) }
    else record a { bad = a.bad + 1 }
judge_call config (succeeded now comment) a =
    if config.remove_try_files
    then record a { good = 0; bad = 0 }
    else record a { good = (a.good + 1) % 2 ^ 16; bad = 0 }

unfoldable pub judge_calls : TryConfig → List Call → Standing → Standing
unfolding judge_call
judge_calls config [] a = a
judge_calls config (call ∷ calls) a = judge_calls config calls (judge_call config call a)

-- The same calls on the files.
unfoldable pub file_call : TryConfig → ℕ × ℕ → Call → TryFiles → TryFiles
unfolding bad_try good_try
file_call config unset (failed now error) s = bad_try config now unset error s
file_call config unset (succeeded now comment) s = good_try config unset comment s

unfoldable pub file_calls : TryConfig → ℕ × ℕ → List Call → TryFiles → TryFiles
unfolding file_call
file_calls config unset [] s = s
file_calls config unset (call ∷ calls) s =
    file_calls config unset calls (file_call config unset call s)

-- The files can be written, and hold the standing.
pub record Holds (config : TryConfig) (s : TryFiles) (a : Standing) : Type 0 where
  pub writes : CanWrite config s
  pub counts : (unset : ℕ × ℕ) → read_try s unset ≡ (a.good, a.bad)
  pub held : s.hld_file ≡ a.hold
  pub good_fits : a.good < 2 ^ 16
  pub bad_fits : a.bad < 2 ^ 16

module _ (config : TryConfig) (small : config.tries < 2 ^ 16) where
  -- Behind write_try the files hold the counts that it wrote.
  write_try-Holds :
      (s : TryFiles) (good bad : ℕ) (hold : Option ℕ) (comment : Bytes)
      → CanWrite config s
      → s.hld_file ≡ hold
      → good < 2 ^ 16
      → bad < 2 ^ 16
      → Holds config
          (write_try config (good, bad) comment s)
          (record { good = good; bad = bad; hold = hold })
  write_try-Holds s good bad hold comment c e hg hb =
      let kept = write_try-CanWrite config (good, bad) comment s c in
      let good_same : good % 2 ^ 16 ≡ good = omega arith in
      let bad_same : bad % 2 ^ 16 ≡ bad = omega arith in
      record {
        writes = kept.0;
        counts = λ unset.
            read_try-write_try config good bad comment unset s c ∙ rw (good_same, bad_same) refl;
        held = kept.1 ∙ e;
        good_fits = hg;
        bad_fits = hb;
      }

  removed : (s : TryFiles) → CanWrite config s → remove_try config s ≡ record s { try_file = none }
  unfolding remove_try
  removed s c =
      let counted : (config.tries == 0) ≡ false = ground (arith, c.counted) in
      simp (counted, c.named)

  without_file :
      (s : TryFiles) (unset : ℕ × ℕ)
      → s.is_named ≡ true
      → read_try (record s { try_file = none }) unset ≡ (0, 0)
  unfolding read_try scan_try
  without_file s unset e = rw e refl

  remove_try-Holds :
      (s : TryFiles) (a : Standing)
      → Holds config s a
      → Holds config (remove_try config s) (record a { good = 0; bad = 0 })
  remove_try-Holds s a h =
      subst (λ (t : TryFiles). Holds config t (record a { good = 0; bad = 0 }))
        (sym (removed s h.writes))
        (record {
          writes = record {
            counted = h.writes.counted;
            named = h.writes.named;
            writable = h.writes.writable;
          };
          counts = λ unset. without_file s unset h.writes.named;
          held = h.held;
          good_fits = omega arith;
          bad_fits = omega arith;
        })

  -- One bad call, on the counts that it reads.
  bad_try_read :
      (now : ℕ) (unset : ℕ × ℕ) (error : Bytes) (s : TryFiles) (a : Standing)
      → Holds config s a
      → bad_try config now unset error s ≡ (
          if leb config.tries (a.bad + 1)
          then write_try config (0, 0) error (hold_node (now + config.hold) s)
          else write_try config (a.good, a.bad + 1) error s)
  unfolding bad_try
  bad_try_read now unset error s a h =
      let fits : (a.bad + 1) % 2 ^ 32 ≡ a.bad + 1 = omega (arith, h.bad_fits) in
      let counted : (config.tries == 0) ≡ false = ground (arith, h.writes.counted) in
      rw (h.counts unset, counted, fits) refl

  good_try_read :
      (unset : ℕ × ℕ) (comment : Bytes) (s : TryFiles) (a : Standing)
      → Holds config s a
      → good_try config unset comment s ≡ (
          if config.remove_try_files
          then remove_try config s
          else write_try config (a.good + 1, 0) comment s)
  unfolding good_try
  good_try_read unset comment s a h =
      let fits : (a.good + 1) % 2 ^ 32 ≡ a.good + 1 = omega (arith, h.good_fits) in
      let counted : (config.tries == 0) ≡ false = ground (arith, h.writes.counted) in
      rw (h.counts unset, counted, fits) refl

  write_try_wraps :
      (good : ℕ) (comment : Bytes) (s : TryFiles)
      → write_try config (good, 0) comment s ≡ write_try config (good % 2 ^ 16, 0) comment s
  unfolding write_try
  write_try_wraps good comment s =
      let low : good % 2 ^ 16 % 256 ≡ good % 256 = omega arith in
      let high : good % 2 ^ 16 / 256 % 256 ≡ good / 256 % 256 = omega arith in rw (low, high) refl

  file_call-Holds :
      (unset : ℕ × ℕ) (call : Call) (s : TryFiles) (a : Standing)
      → Holds config s a
      → Holds config (file_call config unset call s) (judge_call config call a)
  unfolding file_call judge_call
  file_call-Holds unset (failed now error) s a h =
      let held = hold_node-CanWrite config (now + config.hold) s h.writes in
      subst (λ (t : TryFiles). Holds config t (judge_call config (failed now error) a))
        (sym (bad_try_read now unset error s a h))
        (elim (Bool-cases (leb config.tries (a.bad + 1))) [
          | inl e ↦ rw e (
              write_try-Holds (hold_node (now + config.hold) s) 0 0 _ error held.0 held.1
                (omega arith) (omega arith))
          | inr e ↦ rw e (
              write_try-Holds s a.good (a.bad + 1) a.hold error h.writes h.held h.good_fits
                (ground (arith, small, e)))
        ])
  file_call-Holds unset (succeeded now comment) s a h =
      subst (λ (t : TryFiles). Holds config t (judge_call config (succeeded now comment) a))
        (sym (good_try_read unset comment s a h))
        (elim (Bool-cases config.remove_try_files) [
          | inl e ↦ simp (e) (remove_try-Holds s a h)
          | inr e ↦ simp (e) (
              rw (write_try_wraps (a.good + 1) comment s) (
                write_try-Holds s ((a.good + 1) % 2 ^ 16) 0 a.hold comment h.writes h.held
                  (omega arith) (omega arith)))
        ])

-- Any sequence of calls on files that hold a standing leaves files that hold the standing which the
-- specification gives, where the limit is below 2 ^ 16: the bad calls in a row and the hold are
-- exact, and the good calls are counted modulo 2 ^ 16.
pub file_calls-Holds :
    (config : TryConfig) (unset : ℕ × ℕ) (calls : List Call) (s : TryFiles) (a : Standing)
    → config.tries < 2 ^ 16
    → Holds config s a
    → Holds config (file_calls config unset calls s) (judge_calls config calls a)
unfolding file_calls judge_calls
file_calls-Holds config unset [] s a small h = h
file_calls-Holds config unset (call ∷ calls) s a small h =
    file_calls-Holds config unset calls (file_call config unset call s) (judge_call config call a)
      small (file_call-Holds config small unset call s a h)
