-- ===== src/Protocol/Outgoing.antt =====
-- protocol.c: `start_file_transfer`, which offers the next file of the queue, or of the flow file
-- that is open.
use binkd.Base.{
  ℕ, Bool, true, false, ◌&&◌, ◌||◌, List, [], ◌∷◌, ◌++◌, Option, none, some, Bytes, codes, bytes_eq,
  length, leb, ◌==◌, if◌then◌else◌,
}
use binkd.Ftn.{FtnAddr}
use binkd.Ftnq.{Ftnq, isarcmail}
use binkd.Ftnq.Flavour.{max_flvr}
use binkd.Flo.{fgets_lines, flo_entry, trim_end}
use binkd.Protocol.Env.{Env}
use binkd.Protocol.Send.{msg_send2}
use binkd.Protocol.State.{m_file, File, Tfile, tf_zero, State, remove_from_spool, emit}

-- `flo`, while its file is open: the lines that are not read yet.
pub record Flo : Type 0 where
  pub path : Bytes
  pub action : ℕ
  pub fa : FtnAddr
  pub lines : List Bytes

-- `dontsendemptytype`
pub data DontSendEmpty : Type 0 where
  empty_no empty_arcmail empty_all : DontSendEmpty

abbrev pub from_arcmail : DontSendEmpty → Bool
from_arcmail empty_no = false
from_arcmail _ = true

abbrev pub is_all : DontSendEmpty → Bool
is_all empty_all = true
is_all _ = false

-- What a transfer takes from the file system and from the configuration: the translation of the
-- lines of a flow file, the name that the remote is told, by the path, and the time of a file.
pub record Files : Type 0 where
  pub env : Env
  pub trans_flo_line : Bytes → Option Bytes
  pub netname : Bytes → ℕ → Bytes
  pub is_dir : Bytes → Bool
  pub mtime : Bytes → ℕ
  pub dontsendempty : DontSendEmpty

-- The session, with what its main loop keeps beside `State`.
pub record Session : Type 0 where
  pub state : State
  pub flo : Option Flo
  pub maxflvr : ℕ
  pub nosendlist : List Bytes
  pub killlist : List Bytes

abbrev pub is_listed : Bytes → List Bytes → Bool
is_listed path [] = false
is_listed path (name ∷ names) = bytes_eq path name || is_listed path names

-- The end of the search of a flow file: its end, a file that opens with the lines behind it, or the
-- use of a null pointer.
pub data FloSearch : Type 0 where
  flo_end : State → FloSearch
  flo_file : Bytes → ℕ → Bytes → List Bytes → State → FloSearch
  flo_null : FloSearch

-- What is looked up in the not-to-send list: the translated line, else the path of the file from
-- the queue, if there is one. With an empty list nothing is looked up.
unfoldable pub nosend_test : List Bytes → Option Bytes → Option Bytes → Option Bool
nosend_test [] w file = some false
nosend_test (name ∷ names) (some w) file = some (is_listed w (name ∷ names))
nosend_test (name ∷ names) none (some file) = some (is_listed file (name ∷ names))
nosend_test (name ∷ names) none none = none

abbrev pub translated : Option Bytes → Bytes → Bytes
translated none path = path
translated (some w) path = w

abbrev pub open_path : Files → Bytes → Option Bytes
open_path files path = if files.is_dir path then none else files.env.fopen_rb path

-- `read_flo_line` writes the path of the line to `out`.
abbrev pub at_line : Bytes → State → State
at_line path s = record s { out_file = record s.out_file { path = path } }

-- The file of a line that is to be sent: it is passed over if it does not open.
unfoldable pub flo_opened : Bytes → ℕ → List Bytes → State → FloSearch → Option Bytes → FloSearch
flo_opened path action lines s next none = next
flo_opened path action lines s next (some content) = flo_file path action content lines s

-- By whether the file of a line is in the not-to-send list.
unfoldable pub flo_tested :
    Bytes → ℕ → List Bytes → State → FloSearch → Option Bytes → Option Bool → FloSearch
unfolding flo_opened
flo_tested path action lines s next opened none = flo_null
flo_tested path action lines s next opened (some true) = next
flo_tested path action lines s next opened (some false) = flo_opened path action lines s next opened

-- One line of a flow file, with the search behind it.
unfoldable pub flo_line :
    Files
    → List Bytes
    → Option Bytes
    → Bytes
    → List Bytes
    → State
    → (State → FloSearch)
    → Option (Bytes × ℕ)
    → FloSearch
unfolding flo_tested nosend_test
flo_line files nosend file flo lines s again none = again s
flo_line files nosend file flo lines s again (some (path, action)) =
    let w = files.trans_flo_line path in
    let t = at_line path s in
    flo_tested path action lines t (again (emit (remove_from_spool flo path 0) t))
      (open_path files (translated w path)) (nosend_test nosend w file)

-- The loop over the lines. `out.action` is still 0 here.
unfoldable pub flo_from : Files → List Bytes → Option Bytes → Bytes → List Bytes → State → FloSearch
unfolding flo_entry trim_end flo_line
flo_from files nosend file flo [] s = flo_end s
flo_from files nosend file flo (buf ∷ lines) s =
    flo_line files nosend file flo lines s (λ t. flo_from files nosend file flo lines t)
      (flo_entry (trim_end buf))

-- `boff_t` and `time_t` of the file, printed into M_FILE.
abbrev file_text : Env → Tfile → Bytes → Bytes
file_text env out last =
    out.netname ++ b' ' ∷ (env.print_umax out.size ++ b' ' ∷ (env.print_umax out.time ++ last))

abbrev offset_text : Env → Tfile → Bytes
offset_text env out = elim out.f [ none ↦ b' ' ∷ env.print_umax out.size | some f ↦ codes " 0" ]

-- M_FILE, in NR mode with a request of the offset.
unfoldable pub offer_out : Env → State → State
unfolding msg_send2
offer_out env s =
    let nr = record (msg_send2 env m_file (file_text env s.out_file (codes " -1")) [] s) {
      off_req_sent = true;
    } in
    if s.nr_flag.we_nr
    then nr
    else msg_send2 env m_file (file_text env s.out_file (offset_text env s.out_file)) [] s

-- An empty packet, bundle or file is not sent.
unfoldable pub dont_send : Files → ℕ → Tfile → Bool
unfolding isarcmail
dont_send files type out =
    (type == b'm' || (files.env.ispkt out.netname && from_arcmail files.dontsendempty))
      && leb out.size 60
    || (from_arcmail files.dontsendempty
        && out.size == 0
        && isarcmail files.env.pmatch_ncase out.netname)
    || (is_all files.dontsendempty && out.size == 0)

-- The file in `out` is offered, or dropped from the spool.
unfoldable pub send_out : Files → ℕ → Session → Session × Bool
unfolding dont_send offer_out
send_out files type t =
    let out = t.state.out_file in
    let dropped = emit (remove_from_spool out.flo out.path out.action) t.state in
    let offered = offer_out files.env t.state in
    if dont_send files type out
    then (record t { state = record dropped { out_file = tf_zero } }, false)
    else (record t { state = offered }, true)

-- `out` for a file, and the wait for M_GOT is over.
abbrev set_out : Tfile → State → State
set_out out s = record s { out_file = out; waiting_for_got = false }

abbrev pub from_flo : Flo → State → State
from_flo flo s = record s { out_file = record s.out_file { flo = flo.path } }

abbrev flo_out : Files → Flo → Bytes → ℕ → Bytes → Tfile
flo_out files flo path action content = record {
  path = path;
  flo = flo.path;
  netname = files.netname path 0;
  action = action;
  size = length content;
  time = files.mtime (translated (files.trans_flo_line path) path);
  f = some (record { content = content; offset = 0 });
  fa = flo.fa;
}

-- What the search of the flow file finds is sent; at its end the flow file is closed and removed.
unfoldable pub flo_found : Files → Flo → Session → FloSearch → Option (Session × Bool)
unfolding send_out
flo_found files flo t flo_null = none
flo_found files flo t (flo_end s) =
    some (record t { state = emit (remove_from_spool flo.path [] 0) s; flo = none }, false)
flo_found files flo t (flo_file path action content lines s) = some (
    send_out files 0 (record t {
      state = set_out (flo_out files flo path action content) s;
      flo = some (record flo { lines = lines });
    }))

-- The next file of the open flow file; `file` is the path of the queue's file, if there is one.
unfoldable pub send_flo_file : Files → Option Bytes → Flo → Session → Option (Session × Bool)
unfolding flo_from flo_found
send_flo_file files file flo t =
    flo_found files flo t
      (flo_from files t.nosendlist file flo.path flo.lines (from_flo flo t.state))

-- The addresses of the file from the queue.
abbrev pub for_file : Ftnq → State → State
for_file file s = record s {
  out_file = record s.out_file { fa = file.fa };
  nd_addr = if s.nd_flag.we_nd then s.nd_addr else file.fa;
}

abbrev queue_out : Files → Ftnq → ℕ → ℕ → Option File → Tfile
queue_out files file size time f = record {
  path = file.path;
  flo = [];
  netname = files.netname file.path file.type;
  action = file.action;
  size = size;
  time = time;
  f = f;
  fa = file.fa;
}

-- A file of the queue that is no flow file.
unfoldable pub send_queue_file : Files → Ftnq → ℕ → ℕ → Option File → Session → Session × Bool
unfolding send_out
send_queue_file files file size time f t =
    send_out files file.type
      (record t { state = set_out (queue_out files file size time f) (for_file file t.state) })

abbrev pub new_flo : Ftnq → Bytes → Flo
new_flo file content = record {
  path = file.path;
  action = file.action;
  fa = file.fa;
  lines = fgets_lines content;
}

abbrev pub open_flo : Ftnq → Bytes → Session → Session
open_flo file content t = record t {
  flo = some (new_flo file content);
  state = for_file file t.state;
}

-- The content of the file is there if it opens.
unfoldable pub open_queue_file : Files → Ftnq → Session → Option Bytes → Option (Session × Bool)
unfolding send_queue_file send_flo_file fgets_lines
open_queue_file files file t none = some (t, false)
open_queue_file files file t (some content) =
    if file.type == b'l'
    then send_flo_file files (some file.path) (new_flo file content) (open_flo file content t)
    else some (
        send_queue_file files file (length content) (files.mtime file.path)
          (some (record { content = content; offset = 0 })) t)

-- A file of the queue, while no flow file is open.
unfoldable pub start_queue_file : Files → Ftnq → Session → Option (Session × Bool)
unfolding send_queue_file open_queue_file max_flvr
start_queue_file files file t =
    let u = record t { maxflvr = max_flvr t.maxflvr file.flvr } in
    if file.type == b's'
    then some (send_queue_file files file file.size file.time none u)
    else if is_listed file.path t.nosendlist
    then some (u, false)
    else open_queue_file files file u (files.env.fopen_rb file.path)

abbrev option_map {ℓ κ} : {A : Type ℓ} {B : Type κ} → (A → B) → Option A → Option B
option_map f none = none
option_map f (some a) = some (f a)

-- No file in transfer.
abbrev pub clear_out : Session → Session
clear_out t = record t { state = record t.state { out_file = tf_zero } }

abbrev path_of : Option Ftnq → Option Bytes
path_of file = option_map (λ (f : Ftnq). f.path) file

-- A file of the queue, where one is given.
unfoldable pub start_given_file : Files → Option Ftnq → Session → Option (Session × Bool)
unfolding start_queue_file
start_given_file files none t = none
start_given_file files (some file) t = start_queue_file files file t

-- By whether a flow file is open.
unfoldable pub start_from : Files → Option Ftnq → Session → Option Flo → Option (Session × Bool)
unfolding start_given_file send_flo_file
start_from files file t none = start_given_file files file t
start_from files file t (some flo) = send_flo_file files (path_of file) flo t

-- The result of the function; none for the use of a null pointer.
unfoldable pub start_file_transfer : Files → Option Ftnq → Session → Option (Session × Bool)
unfolding start_from
start_file_transfer files file t = start_from files file (clear_out t) t.flo
