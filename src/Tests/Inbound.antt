-- ===== src/Tests/Inbound.antt =====
-- inbound.c, getw.c: the theorems on received files at a concrete inbound directory.
use binkd.Base.{
  ℕ, inr, [], ◌∷◌, ◌++◌, some, none, true, false, Bytes, codes, bytes_eq, ◌≡◌, ◌≢◌, sym, ◌∙◌, refl,
  inl, if◌then◌else◌, arith,
}
use binkd.Ftn.{FtnAddr}
use binkd.Ftn.RoundTrip.{whole}
use binkd.Ftn.Parse.{parse_ftnaddress}
use binkd.Ftn.Print.{xftnaddress_to_str}
use binkd.Getw.{getwordx, word}
use binkd.Getw.Words.{getwordx-join_words}
use binkd.Protocol.State.{Tfile, tf_zero, State}
use binkd.Text.Args.{join_words}
use binkd.Inbound.Partial.{
  Partial, Inbox, noesc, is_hr, search_hr, hr_line, new_partial, find_tmp_name, tmp_found,
  tmp_created,
}
use binkd.Inbound.Partial.Foreign.{foreign_hrs, search_hr-foreign_hrs}
use binkd.Inbound.Partial.Resume.{Describable, find_tmp_name-find_tmp_name}
use binkd.Inbound.Open.{Disk, FitsDisk, inb_fopen, inb_fopen-FitsDisk}
use binkd.Inbound.Rename.{rename_extension}
use binkd.Inbound.Done.{
  Receipt, a_none, a_all, hc_on, unreadable, differs, moved, in_use, no_fuel, give_name, named,
  real_name, cursor_text,
}
use binkd.Inbound.Done.Given.{StaysIn, give_name-StaysIn}
use binkd.Inbound.Done.Search.{tries_of, give_name-ends}
use binkd.Inbound.Name.{with_separator, inb_lower, strwipe, safe_name, keeps_extension}
use binkd.Text.{tolower, strdequote}
use binkd.Tests.{env, start}

getwordx-join_words_example :
    getwordx noesc 1 (join_words (codes "ab" ∷ codes "cd" ∷ []) ++ 10 ∷ []) ≡ word (codes "cd")
getwordx-join_words_example =
    getwordx-join_words noesc 1 (codes "ab" ∷ codes "cd" ∷ []) (10 ∷ []) refl
      (
        ((λ e. cc (e)), ((refl, refl, refl), ((refl, refl, refl), tt))),
        (((λ e. cc (e)), ((refl, refl, refl), ((refl, refl, refl), tt))), tt),
      )
      (refl, tt)

-- One byte stands for a number.
abbrev number_of : Bytes → ℕ
number_of [] = 0
number_of (c ∷ s) = c

abbrev inbox : Inbox
inbox = record {
  env = record env { strtoumax = number_of; safe_atol = number_of };
  domains = [];
  kill_old_partial_files = 3;
  kill_dup_partial_files = true;
  busy = [];
  opendir_ok = true;
  new_hr = λ dir. some (codes "0000001a.hr");
}

abbrev caller : FtnAddr
caller = whole 2 5047 13 1 (codes "net")

abbrev other : FtnAddr
other = whole 2 5047 14 0 (codes "net")

abbrev session : State
session = record start { fa = caller ∷ [] }

abbrev incoming : Tfile
incoming = record tf_zero { netname = codes "mail"; size = 65; time = 66 }

-- The same file, of another node.
abbrev foreign : Partial
foreign = record {
  d_name = codes "00000019.hr";
  opens = true;
  line = some (hr_line inbox.env incoming (other ∷ []));
  age = 0;
  dt = none;
}

search_hr-foreign_hrs_example :
    foreign_hrs inbox session (search_hr inbox (some incoming) session (foreign ∷ [])).1
    ≡ foreign_hrs inbox session (foreign ∷ [])
search_hr-foreign_hrs_example =
    search_hr-foreign_hrs inbox session (some incoming) (foreign ∷ []) ((λ e. refl), tt)

-- It is one of them.
foreign_run : foreign_hrs inbox session (foreign ∷ []) ≡ foreign ∷ []
unfolding foreign_hrs hr_line bytes_eq
foreign_run = refl

describable : Describable inbox incoming caller
unfolding xftnaddress_to_str parse_ftnaddress bytes_eq
describable = record {
  netname_word = (
    (λ e. cc (e)),
    ((refl, refl, refl), ((refl, refl, refl), ((refl, refl, refl), ((refl, refl, refl), tt)))),
  );
  size_word = ((λ e. cc (e)), ((refl, refl, refl), tt));
  time_word = ((λ e. cc (e)), ((refl, refl, refl), tt));
  node_word = (
    (λ e. cc (e)),
    (
      (refl, refl, refl),
      (
        (refl, refl, refl),
        (
          (refl, refl, refl),
          (
            (refl, refl, refl),
            (
              (refl, refl, refl),
              (
                (refl, refl, refl),
                (
                  (refl, refl, refl),
                  (
                    (refl, refl, refl),
                    (
                      (refl, refl, refl),
                      (
                        (refl, refl, refl),
                        (
                          (refl, refl, refl),
                          (
                            (refl, refl, refl),
                            ((refl, refl, refl), ((refl, refl, refl), ((refl, refl, refl), tt))),
                          ),
                        ),
                      ),
                    ),
                  ),
                ),
              ),
            ),
          ),
        ),
      ),
    ),
  );
  size_read = refl;
  time_read = refl;
  node_read = refl;
  domain_text = (omega arith, (omega arith, (omega arith, tt)));
}

find_tmp_name-find_tmp_name_example :
    (let left = (find_tmp_name inbox (some incoming) session (foreign ∷ [])).1 in
      let p = new_partial inbox incoming session (codes "0000001a.hr") in
      ((find_tmp_name inbox (some incoming) session (foreign ∷ [])).0 ≡ tmp_created p)
      × (find_tmp_name inbox (some incoming) session left ≡ (tmp_found p, left)))
unfolding search_hr hr_line is_hr bytes_eq
find_tmp_name-find_tmp_name_example =
    find_tmp_name-find_tmp_name inbox incoming caller [] session (foreign ∷ [])
      (codes "0000001a.hr") describable refl refl refl refl refl

-- One name is in use, and names are written small.
abbrev receipt : Receipt
receipt = record {
  inbox = inbox;
  inboundcase = inb_lower;
  renamestyle = rename_extension;
  overwrite = λ name. false;
  pmatch_ncase = λ mask name. false;
  rename = λ name. if bytes_eq name (codes "in/.._x") then in_use else moved;
  rename_over = λ i. moved;
  pkt = record {
    pkthdr_bad = none;
    pkthdr_type = a_none;
    nodes = [];
    secure = true;
    header = unreadable;
  };
}

abbrev climbing : Tfile
climbing = record tf_zero { netname = codes "../X" }

abbrev arrived : State
arrived = record start { inbound = codes "in" }

climbing_safe : safe_name inb_lower (codes "../X") ≡ codes ".._x"
unfolding safe_name strdequote strwipe tolower
climbing_safe = refl

give_name-StaysIn_example :
    StaysIn (with_separator arrived.inbound) (give_name 10 receipt climbing arrived)
unfolding keeps_extension
give_name-StaysIn_example =
    give_name-StaysIn 10 receipt climbing arrived (omega arith, (omega arith, tt))
      (λ e. cc (sym climbing_safe ∙ e)) (λ e. cc (e)) (inl refl)

-- An echo-mail packet keeps its extension, and every name is in use.
abbrev packet : Tfile
packet = record tf_zero { netname = codes "FOO.PKT" }

abbrev packed : Receipt
packed = record receipt {
  pmatch_ncase = λ mask name. bytes_eq mask (codes "*.pkt");
  rename = λ name. in_use;
  pkt = record {
    pkthdr_bad = some (codes "bad");
    pkthdr_type = a_all;
    nodes = (hc_on, true) ∷ [];
    secure = true;
    header = differs;
  };
}

packet_safe : safe_name inb_lower (codes "FOO.PKT") ≡ codes "foo" ++ b'.' ∷ codes "pkt"
unfolding safe_name strdequote strwipe tolower
packet_safe = refl

give_name-ends_example :
    give_name
      (tries_of
        (keeps_extension packed.pmatch_ncase packet.netname)
        packed.renamestyle
        (real_name packed packet arrived))
      packed
      packet
      arrived
    ≢ no_fuel
give_name-ends_example =
    give_name-ends
      (tries_of (keeps_extension packed.pmatch_ncase packet.netname) packed.renamestyle
        (real_name packed packet arrived))
      packed packet arrived (λ e. cc (e))
      (inr (
        (((refl, omega arith), ((refl, omega arith), ((refl, omega arith), tt))), omega arith),
        (codes "foo", codes "pkt", packet_safe, refl, λ e. cc (e)),
      ))
      (omega arith)

give_run : give_name 10 receipt climbing arrived ≡ named (codes "in/.._0")
unfolding give_name tolower strdequote bytes_eq cursor_text
give_run = refl

abbrev disk : Disk
disk = record {
  opens = λ i. true;
  fstat_ok = λ i. true;
  empties = true;
  freespace = 10;
  req_free = some 4;
}

-- More data than the file has.
abbrev longer : Partial
longer = record foreign {
  line = some (hr_line inbox.env incoming (caller ∷ []));
  dt = some (70, 0);
}

abbrev receiving : State
receiving = record session { in_file = incoming }

inb_fopen-FitsDisk_example :
    FitsDisk disk receiving.in_file.size (inb_fopen disk inbox receiving (longer ∷ []))
inb_fopen-FitsDisk_example = inb_fopen-FitsDisk disk inbox receiving (longer ∷ []) (λ i. refl)

-- It is emptied.
fopen_run : inb_fopen disk inbox receiving (longer ∷ []) ≡ some 0
unfolding inb_fopen search_hr hr_line is_hr bytes_eq
fopen_run = refl
