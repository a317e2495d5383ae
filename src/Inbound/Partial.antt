-- ===== src/Inbound/Partial.antt =====
-- inbound.c: the partial files. A file that is being received has a .hr, with the line that describes
-- it, and a .dt with its data so far.
pub mod Foreign
pub mod Resume
use binkd.Base.{
  ℕ, zero, suc, ◌+◌, ◌/◌, Bool, true, false, not, ◌&&◌, ◌||◌, List, [], ◌∷◌, ◌++◌, Option, none,
  some, Bytes, codes, bytes_eq, ltb, ◌==◌, get_elem?, if◌then◌else◌,
}
use binkd.Ftn.{FtnAddr}
use binkd.Ftn.Compare.{same_address}
use binkd.Ftn.Domain.{FtnDomain}
use binkd.Ftn.Parse.{parse_ftnaddress}
use binkd.Ftn.Print.{xftnaddress_to_str}
use binkd.Getw.{GetwFlags, Getword, no_word, word, past_end, getwordx}
use binkd.Protocol.Env.{Env}
use binkd.Protocol.State.{Tfile, State}
use binkd.Text.{isxdigit, same_letters}

-- A directory entry, with what its .hr holds if it is one: whether it can be opened, the first line,
-- and its age; and the size and the age of the .dt beside it.
pub record Partial : Type 0 where
  pub d_name : Bytes
  pub opens : Bool
  pub line : Option Bytes
  pub age : ℕ
  pub dt : Option (ℕ × ℕ)

-- The settings, and the parts of the session that `State` leaves out.
pub record Inbox : Type 0 where
  pub env : Env
  pub domains : List FtnDomain
  pub kill_old_partial_files : ℕ
  pub kill_dup_partial_files : Bool
  pub busy : List FtnAddr  -- `state->fa` from `nfa` on
  pub opendir_ok : Bool
  pub new_hr : List Partial → Option Bytes  -- the name of a new .hr

abbrev all_xdigits : ℕ → Bytes → Bytes → Bool
all_xdigits zero rest s = same_letters s rest
all_xdigits (suc n) rest [] = false
all_xdigits (suc n) rest (c ∷ s) = isxdigit c && all_xdigits n rest s

-- Eight hexadecimal digits and ".hr".
unfoldable pub is_hr : Bytes → Bool
unfolding isxdigit same_letters
is_hr name = all_xdigits 8 (codes ".hr") name

-- The size is not known where the .hr has no description.
abbrev pub is_size : Option ℕ → ℕ → Bool
is_size none n = false
is_size (some size) n = size == n

unfoldable pub to_be_deleted : Inbox → Partial → Option ℕ → Bool
to_be_deleted io p filesize = elim p.dt [
  | none ↦ not (io.kill_old_partial_files == 0) && ltb io.kill_old_partial_files p.age
  | some (size, age) ↦
      not (io.kill_old_partial_files == 0)
      && not (is_size filesize size)
      && ltb io.kill_old_partial_files age
]

abbrev pub noesc : GetwFlags
noesc = record { hash = false; noesc = true }

abbrev pub got_word : Getword → Option Bytes
got_word (word w) = some w
got_word _ = none

unfoldable pub hr_word : ℕ → Bytes → Option Bytes
unfolding getwordx
hr_word n line = got_word (getwordx noesc n line)

unfoldable pub is_one_of : FtnAddr → List FtnAddr → Bool
unfolding same_address
is_one_of fa [] = false
is_one_of fa (aka ∷ akas) = same_address fa aka || is_one_of fa akas

-- Whose file it is: of no address, of an address of the session, of a busy one, or of another node.
pub data Whose : Type 0 where
  of_none of_active of_busy of_other : Whose

abbrev pub whose_address : List FtnAddr → List FtnAddr → Option FtnAddr → Whose
whose_address active busy none = of_none
whose_address active busy (some fa) =
    if is_one_of fa active then of_active else if is_one_of fa busy then of_busy else of_other

unfoldable pub whose : Inbox → List FtnAddr → Bytes → Whose
unfolding parse_ftnaddress is_one_of
whose io active w = whose_address active io.busy (parse_ftnaddress w io.domains)

-- What is done with an entry.
pub data HrAct : Type 0 where
  keeps removes resumes refuses : HrAct

abbrev pub remove_if : Bool → HrAct
remove_if old = if old then removes else keeps

-- `file->time & ~1`
abbrev pub same_time : ℕ → ℕ → Bool
same_time t u = t / 2 == u / 2

-- The description is that of the file.
unfoldable pub describes : Env → Tfile → Bytes → Bytes → Bool
describes env file w1 w2 = file.size == env.strtoumax w1 && same_time file.time (env.safe_atol w2)

abbrev pub act_on_same : Inbox → Whose → Bool → HrAct
act_on_same io of_active true = resumes
act_on_same io of_busy true = refuses
act_on_same io of_active false = remove_if io.kill_dup_partial_files
act_on_same io of_busy false = remove_if io.kill_dup_partial_files
act_on_same io _ b = keeps

abbrev pub is_none : Whose → Bool
is_none of_none = true
is_none _ = false

abbrev pub is_own : Whose → Bool
is_own of_active = true
is_own of_busy = true
is_own _ = false

-- An entry with the words of its description; without a file all own ones are removed.
unfoldable pub act_on_words :
    Inbox → Option Tfile → Bool → Partial → Whose → Bytes → Bytes → Bytes → HrAct
unfolding describes to_be_deleted
act_on_words io none skip_all p who w0 w1 w2 = remove_if (is_own who && not skip_all)
act_on_words io (some file) skip_all p who w0 w1 w2 =
    if not (is_none who) && bytes_eq w0 file.netname
    then act_on_same io who (describes io.env file w1 w2)
    else remove_if (to_be_deleted io p (some (io.env.strtoumax w1)))

abbrev pub word_at : ℕ → Bytes → Bytes
word_at n line = elim (hr_word n line) as (λ x. Bytes) [ none ↦ [] | some w ↦ w ]

-- A line with its fourth word.
unfoldable pub act_on_address :
    Inbox → Option Tfile → State → Partial → Bytes → Option Bytes → HrAct
unfolding whose act_on_words to_be_deleted
act_on_address io file s p line none = remove_if (to_be_deleted io p none)
act_on_address io file s p line (some w3) =
    act_on_words io file s.skip_all_flag p (whose io s.fa w3) (word_at 0 line) (word_at 1 line)
      (word_at 2 line)

unfoldable pub act_on_line : Inbox → Option Tfile → State → Partial → Option Bytes → HrAct
unfolding hr_word act_on_address to_be_deleted
act_on_line io file s p none = remove_if (to_be_deleted io p none)
act_on_line io file s p (some line) = act_on_address io file s p line (hr_word 3 line)

unfoldable pub act_on : Inbox → Option Tfile → State → Partial → HrAct
unfolding is_hr act_on_line
act_on io file s p =
    if not (is_hr p.d_name) || not p.opens then keeps else act_on_line io file s p p.line

-- The entry that is resumed, one of a busy address, or neither; and the entries that are left.
pub data HrSearch : Type 0 where
  resumed : Partial → HrSearch
  refused not_there : HrSearch

-- `remove_hr` deletes the .hr and the .dt of the stem of the name: the entry with its data, where the
-- extension of its name is in small letters or the file system does not tell the case of letters.
abbrev pub found_by :
    HrAct → Partial → List Partial → HrSearch × List Partial → HrSearch × List Partial
found_by keeps p dir (r, rest) = (r, p ∷ rest)
found_by removes p dir (r, rest) = (r, rest)
found_by resumes p dir rest = (resumed p, p ∷ dir)
found_by refuses p dir rest = (refused, p ∷ dir)

-- The loop over the directory.
unfoldable pub search_hr : Inbox → Option Tfile → State → List Partial → HrSearch × List Partial
unfolding act_on
search_hr io file s [] = (not_there, [])
search_hr io file s (p ∷ dir) = found_by (act_on io file s p) p dir (search_hr io file s dir)

-- The line of a new .hr, with the first address, which may be a busy one.
unfoldable pub hr_line : Env → Tfile → List FtnAddr → Bytes
unfolding xftnaddress_to_str
hr_line env file fas =
    let node : Bytes = elim fas [
      | [] ↦ codes "0:0/0.0@unknown"
      | fa ∷ others ↦ xftnaddress_to_str fa false
    ] in
    file.netname
    ++ b' '
      ∷ (env.print_umax file.size ++ b' ' ∷ (env.print_umax file.time ++ b' ' ∷ (node ++ 10 ∷ [])))

-- What find_tmp_name returns: 0, 1 for a file that was found, 2 for one that was created.
pub data TmpName : Type 0 where
  tmp_none : TmpName
  tmp_found tmp_created : Partial → TmpName

abbrev pub new_partial : Inbox → Tfile → State → Bytes → Partial
new_partial io file s name = record {
  d_name = name;
  opens = true;
  line = some (hr_line io.env file (s.fa ++ io.busy));
  age = 0;
  dt = none;
}

unfoldable pub creat_tmp_name : Inbox → Tfile → State → List Partial → TmpName × List Partial
unfolding hr_line
creat_tmp_name io file s dir = elim (io.new_hr dir) [
  | none ↦ (tmp_none, dir)
  | some name ↦ (tmp_created (new_partial io file s name), dir ++ new_partial io file s name ∷ [])
]

unfoldable pub find_from :
    Inbox → Option Tfile → State → HrSearch × List Partial → TmpName × List Partial
unfolding creat_tmp_name
find_from io none s (r, dir) = (tmp_none, dir)
find_from io (some file) s (resumed p, dir) = (tmp_found p, dir)
find_from io (some file) s (refused, dir) = (tmp_none, dir)
find_from io (some file) s (not_there, dir) = creat_tmp_name io file s dir

unfoldable pub find_tmp_name : Inbox → Option Tfile → State → List Partial → TmpName × List Partial
unfolding find_from search_hr
find_tmp_name io file s dir =
    if io.opendir_ok then find_from io file s (search_hr io file s dir) else (tmp_none, dir)

unfoldable pub inb_remove_partial : Inbox → State → List Partial → List Partial
unfolding find_tmp_name
inb_remove_partial io s dir = (find_tmp_name io none s dir).1

unfoldable pub is_active_line : Inbox → State → Bytes → Bool
unfolding hr_word parse_ftnaddress is_one_of
is_active_line io s line = elim (hr_word 3 line) as (λ x. Bool) [
  | none ↦ false
  | some w ↦ elim (parse_ftnaddress w io.domains) as (λ x. Bool) [
    | none ↦ false
    | some fa ↦ is_one_of fa s.fa
  ]
]

abbrev is_active : Inbox → State → Option Bytes → Bool
is_active io s none = false
is_active io s (some line) = is_active_line io s line

-- A partial file of an address of the session is there.
unfoldable pub inb_has_partials : Inbox → State → List Partial → Bool
unfolding is_hr is_active_line
inb_has_partials io s [] = false
inb_has_partials io s (p ∷ dir) =
    io.opendir_ok
    && ((is_hr p.d_name && p.opens && is_active io s p.line) || inb_has_partials io s dir)

-- `remove_hr` of a name.
unfoldable pub remove_hr : Bytes → List Partial → List Partial
unfolding bytes_eq
remove_hr name [] = []
remove_hr name (p ∷ dir) =
    let rest = remove_hr name dir in if bytes_eq p.d_name name then rest else p ∷ rest

unfoldable pub reject_found : TmpName × List Partial → List Partial × Bool
unfolding remove_hr
reject_found (tmp_found p, dir) = (remove_hr p.d_name dir, true)
reject_found (_, dir) = (dir, false)

unfoldable pub inb_reject : Inbox → Tfile → State → List Partial → List Partial × Bool
unfolding find_tmp_name reject_found
inb_reject io file s dir = reject_found (find_tmp_name io (some file) s dir)
