-- ===== src/Ftnq/Tries.antt =====
-- ftnq.c: the counts of good and bad calls of one address in its .try file, and its hold.
pub mod Counts
pub mod Standing
use binkd.Base.{
  ℕ, zero, suc, ◌+◌, ◌*◌, ◌/◌, ◌%◌, ◌^◌, Bool, true, false, ◌&&◌, List, [], ◌∷◌, ◌++◌, Option, none,
  some, Bytes, ltb, leb, ◌==◌, length, if◌then◌else◌,
}

-- The settings of `BINKD_CONFIG`.
pub record TryConfig : Type 0 where
  pub tries : ℕ
  pub hold : ℕ
  pub remove_try_files : Bool

-- The files of the address: whether it has a file name, whether files can be opened for writing,
-- the content of .try, and the time in .hld.
pub record TryFiles : Type 0 where
  pub is_named : Bool
  pub fopen_ok : Bool
  pub try_file : Option Bytes
  pub hld_file : Option ℕ

-- `%c` of an `unsigned`.
abbrev low_byte : ℕ → ℕ
low_byte n = n % 256

unfoldable pub write_try : TryConfig → ℕ × ℕ → Bytes → TryFiles → TryFiles
write_try config (nok, nbad) comment s =
    if ltb 0 config.tries && s.is_named && s.fopen_ok
    then record s {
      try_file = some (
          low_byte nok
          ∷ low_byte (nok / 256)
          ∷ low_byte nbad
          ∷ low_byte (nbad / 256)
          ∷ low_byte (length comment)
          ∷ comment);
    }
    else s

-- `fscanf` of four bytes.
unfoldable pub scan_try : Option Bytes → ℕ × ℕ
scan_try (some (ch1 ∷ ch2 ∷ ch3 ∷ ch4 ∷ rest)) = (ch1 + ch2 * 256, ch3 + ch4 * 256)
scan_try _ = (0, 0)

-- The counts; without a file name they stay as they were.
unfoldable pub read_try : TryFiles → ℕ × ℕ → ℕ × ℕ
unfolding scan_try
read_try s counts = if s.is_named then scan_try s.try_file else counts

unfoldable pub hold_node : ℕ → TryFiles → TryFiles
hold_node hold_until s =
    if s.is_named && s.fopen_ok then record s { hld_file = some (hold_until % 2 ^ 64) } else s

-- `unset` is what the counts hold before they are read.
unfoldable pub bad_try : TryConfig → ℕ → ℕ × ℕ → Bytes → TryFiles → TryFiles
unfolding read_try hold_node write_try
bad_try config now unset error s =
    let counts : ℕ × ℕ = read_try s unset in
    let nbad = (counts.1 + 1) % 2 ^ 32 in
    if config.tries == 0
    then s
    else if leb config.tries nbad
    then write_try config (0, 0) error (hold_node (now + config.hold) s)
    else write_try config (counts.0, nbad) error s

unfoldable pub remove_try : TryConfig → TryFiles → TryFiles
remove_try config s =
    if config.tries == 0 then s else if s.is_named then record s { try_file = none } else s

unfoldable pub good_try : TryConfig → ℕ × ℕ → Bytes → TryFiles → TryFiles
unfolding read_try write_try remove_try
good_try config unset comment s =
    let counts : ℕ × ℕ = read_try s unset in
    if config.tries == 0
    then s
    else if config.remove_try_files
    then remove_try config s
    else write_try config ((counts.0 + 1) % 2 ^ 32, 0) comment s
