-- ===== src/Inbound/Done.antt =====
-- inbound.c: a complete file gets its real name (inb_done), and the file of the same name that may be
-- there already (inb_test). The Perl hooks are left out.
pub mod Cases
pub mod Ends
pub mod Pointers
pub mod Search
pub mod Given
pub mod Within
use binkd.Text.{c_string}
use binkd.Base.{
  ℕ, zero, suc, ◌+◌, ◌-◌, ◌/◌, Bool, true, false, not, ◌&&◌, ◌||◌, List, [], ◌∷◌, ◌++◌, Option,
  none, some, Bytes, ltb, leb, ◌==◌, length, take, drop, if◌then◌else◌,
}
use binkd.Inbound.Name.{with_separator, InbCase, safe_name, keeps_extension}
use binkd.Ftnq.{ispkt, isarcmail}
use binkd.Inbound.Partial.{
  Partial, Inbox, TmpName, tmp_none, tmp_found, tmp_created, find_tmp_name, remove_hr, same_time,
}
use binkd.Inbound.Rename.{
  RenameStyle, rename_postfix, rename_extension, rename_body, Cursor, next_inb_filename,
}
use binkd.Protocol.State.{Tfile, State}

-- What RENAME returns: EEXIST, EACCES and EAGAIN stand for a name that is in use.
pub data Renamed : Type 0 where
  moved in_use failed : Renamed

-- What is known of the header of a packet: the file cannot be read, or its version is not 2; or the
-- address in it is one of the session, or is not.
pub data PktHeader : Type 0 where
  unreadable matches differs : PktHeader

pub data HcFlag : Type 0 where
  hc_on hc_off hc_use_old : HcFlag

-- `config->pkthdr_type`
pub data PktRule : Type 0 where
  a_none a_all a_prot a_unprot a_lst a_unlst : PktRule

-- The settings of the check, and for each address with a node, whether the node is listed.
pub record PktCheck : Type 0 where
  pub pkthdr_bad : Option Bytes
  pub pkthdr_type : PktRule
  pub nodes : List (HcFlag × Bool)
  pub secure : Bool
  pub header : PktHeader

pub record Receipt : Type 0 where
  pub inbox : Inbox
  pub inboundcase : InbCase
  pub renamestyle : RenameStyle
  pub overwrite : Bytes → Bool  -- `mask_test (netname, config->overwrite.first)`
  pub pmatch_ncase : Bytes → Bytes → Bool
  pub rename : Bytes → Renamed  -- to a name that is not removed before
  pub rename_over : ℕ → Renamed  -- behind `unlink`, at each try
  pub pkt : PktCheck

abbrev any_listed : List (HcFlag × Bool) → Bool
any_listed [] = false
any_listed ((hc, listed) ∷ nodes) = listed || any_listed nodes

-- The loop over the nodes: false for a node that forbids the check, else whether one asks for it.
unfoldable pub asks_check : Bool → List (HcFlag × Bool) → Option Bool
asks_check check [] = some check
asks_check check ((hc_off, listed) ∷ nodes) = none
asks_check check ((hc_on, listed) ∷ nodes) = asks_check true nodes
asks_check check ((hc_use_old, listed) ∷ nodes) = asks_check check nodes

-- The default rule asks for no check.
unfoldable pub rule_passes : PktRule → Bool → Bool → Bool
rule_passes a_none secure listed = true
rule_passes a_all secure listed = false
rule_passes a_prot secure listed = not secure
rule_passes a_unprot secure listed = secure
rule_passes a_lst secure listed = not listed
rule_passes a_unlst secure listed = listed

abbrev passes_header : PktHeader → Bool
passes_header matches = true
passes_header _ = false

abbrev pub checks_header : PktCheck → Option Bool → Bool
checks_header pkt none = true
checks_header pkt (some check) =
    (not check && rule_passes pkt.pkthdr_type pkt.secure (any_listed pkt.nodes))
    || passes_header pkt.header

-- The text behind the last point, if there is one.
unfoldable pub extension : Bytes → Option Bytes
extension [] = none
extension (c ∷ s) =
    let rest = extension s in
    elim rest as (λ x. Option Bytes) [ some e ↦ some e | none ↦ if c == b'.' then some s else none ]

-- The extension of a name becomes the bad one, which is cut to its length.
abbrev pub with_extension : Bytes → Bytes → Option Bytes → Bytes
with_extension bad name none = name
with_extension bad name (some ext) = take (length name - length ext) name ++ take (length ext) bad

-- The name behind check_pkthdr.
unfoldable pub check_pkthdr : PktCheck → Bytes → Bytes
unfolding asks_check rule_passes extension
check_pkthdr pkt name = elim pkt.pkthdr_bad [
  | none ↦ name
  | some bad ↦
      if checks_header pkt (asks_check false pkt.nodes)
      then name
      else with_extension bad name (extension (drop 1 name))
]

unfoldable pub reverse_onto : Bytes → Bytes → Bytes
reverse_onto [] acc = acc
reverse_onto (c ∷ s) acc = reverse_onto s (c ∷ acc)

-- The name, with the pointer `n` bytes in front of its end.
unfoldable pub cursor_at : ℕ → Bytes → Cursor
unfolding reverse_onto
cursor_at n name =
    let at = length name - n in
    record { before = reverse_onto (take at name) []; after = drop at name }

-- The name as a C string: a byte that was counted up to 0 ends it.
unfoldable pub cursor_text : Cursor → Bytes
unfolding c_string
cursor_text cur = c_string (reverse_onto cur.before cur.after)

-- The next name to try, with the style: where an extension cannot be counted up any more, the name is
-- written again, and the pointer is left at its first byte.
unfoldable pub next_try : Cursor → RenameStyle → Option Cursor → Option (RenameStyle × Cursor)
next_try restart style (some cur) = some (style, cur)
next_try restart rename_extension none = some (rename_postfix, restart)
next_try restart _ none = none

pub data RenameEnd : Type 0 where
  named : Bytes → RenameEnd
  gave_up no_fuel : RenameEnd

-- What one try of a name comes to.
unfoldable pub after_rename :
    (RenameStyle → Cursor → RenameEnd) → Bytes → Renamed → Option (RenameStyle × Cursor) → RenameEnd
after_rename more text moved next = named text
after_rename more text failed next = gave_up
after_rename more text in_use none = gave_up
after_rename more text in_use (some (style, cur)) = more style cur

-- `while (RENAME (tmp_name, real_name))`
unfoldable pub rename_loop : ℕ → (Bytes → Renamed) → Cursor → RenameStyle → Cursor → RenameEnd
unfolding after_rename next_try next_inb_filename reverse_onto
rename_loop zero rename restart style cur = no_fuel
rename_loop (suc fuel) rename restart style cur =
    after_rename (λ style' cur'. rename_loop fuel rename restart style' cur') (cursor_text cur)
      (rename (cursor_text cur)) (next_try restart style (next_inb_filename style cur))

-- The loop that overwrites the file: eleven tries.
unfoldable pub overwrite_loop : ℕ → (ℕ → Renamed) → Bytes → ℕ → RenameEnd
overwrite_loop zero rename_over name i = gave_up
overwrite_loop (suc tries) rename_over name i =
    let rest = overwrite_loop tries rename_over name (suc i) in
    elim (rename_over i) [ moved ↦ named name | failed ↦ gave_up | in_use ↦ rest ]

unfoldable pub real_name : Receipt → Tfile → State → Bytes
unfolding with_separator safe_name
real_name io file s = with_separator s.inbound ++ safe_name io.inboundcase file.netname

-- The name is given to the data of the file.
unfoldable pub give_name : ℕ → Receipt → Tfile → State → RenameEnd
unfolding real_name safe_name rename_loop overwrite_loop check_pkthdr ispkt isarcmail
    keeps_extension cursor_at
give_name fuel io file s =
    let pkt = ispkt io.pmatch_ncase file.netname in
    let name = real_name io file s in
    let restart = cursor_at (length (safe_name io.inboundcase file.netname)) name in
    let checked = if pkt then check_pkthdr io.pkt name else name in
    if io.overwrite file.netname && not pkt && not (isarcmail io.pmatch_ncase file.netname)
    then overwrite_loop 11 io.rename_over name 0
    else if keeps_extension io.pmatch_ncase file.netname
    then rename_loop fuel io.rename restart rename_body (cursor_at 4 checked)
    else rename_loop fuel io.rename restart io.renamestyle (cursor_at 0 checked)

-- The result: nothing is given, or the name; and the directory.
unfoldable pub end_done : Bytes → List Partial → RenameEnd → Option Bytes × List Partial
unfolding remove_hr
end_done hr dir (named name) = (some name, remove_hr hr dir)
end_done hr dir _ = (none, dir)

unfoldable pub done_from :
    ℕ → Receipt → Tfile → State → TmpName × List Partial → Option Bytes × List Partial
unfolding give_name end_done
done_from fuel io file s (tmp_found p, dir) = end_done p.d_name dir (give_name fuel io file s)
done_from fuel io file s (_, dir) = (none, dir)

unfoldable pub inb_done : ℕ → Receipt → Tfile → State → List Partial → Option Bytes × List Partial
unfolding find_tmp_name done_from
inb_done fuel io file s dir = done_from fuel io file s (find_tmp_name io.inbox (some file) s dir)

-- inb_test: `stat` gives the size and the time of a file that is there.
pub data Tested : Type 0 where
  test_same test_other test_no_fuel : Tested

unfoldable pub after_stat :
    (RenameStyle → Cursor → Tested) → ℕ → ℕ → RenameStyle → Option (ℕ × ℕ) → Option Cursor → Tested
after_stat more size time style none next = test_other
after_stat more size time style (some (n, t)) none =
    if n == size && same_time t time then test_same else test_other
after_stat more size time style (some (n, t)) (some cur) =
    let rest = more style cur in if n == size && same_time t time then test_same else rest

unfoldable pub test_loop : ℕ → (Bytes → Option (ℕ × ℕ)) → ℕ → ℕ → RenameStyle → Cursor → Tested
unfolding after_stat next_inb_filename reverse_onto
test_loop zero stat size time style cur = test_no_fuel
test_loop (suc fuel) stat size time style cur =
    after_stat (λ style' cur'. test_loop fuel stat size time style' cur') size time style
      (stat (cursor_text cur)) (next_inb_filename style cur)

unfoldable pub inb_test :
    ℕ
    → (Bytes → Bytes → Bool)
    → (Bytes → Option (ℕ × ℕ))
    → Bytes
    → ℕ
    → ℕ
    → Bytes
    → RenameStyle
    → Tested
unfolding test_loop with_separator safe_name keeps_extension cursor_at
inb_test fuel pmatch stat filename size time inbound style =
    let name = with_separator inbound ++ safe_name InbCase.inb_save filename in
    if keeps_extension pmatch filename
    then test_loop fuel stat size time rename_body (cursor_at 4 name)
    else test_loop fuel stat size time style (cursor_at 0 name)
