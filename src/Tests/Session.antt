-- ===== src/Tests/Session.antt =====
-- protocol.c: the theorems on the main loop at a concrete session.
use binkd.Base.{true, false, [], ◌∷◌, some, none, codes, Bytes, ◌≡◌, refl}
use binkd.Ftn.RoundTrip.{whole}
use binkd.Ftnq.{Ftnq}
use binkd.Protocol.State.{p_secure}
use binkd.Protocol.Outgoing.{Files, Session, empty_no}
use binkd.Protocol.Session.{Hooks, start_round, waits}
use binkd.Protocol.Session.Batch.{BatchEnded, start_round-BatchEnded}
use binkd.Protocol.Session.Ready.{awaits_remote, start_round-awaits_remote}
use binkd.Tests.{env, config, start}

-- Every file holds one line, which names a file.
abbrev content_of : Bytes → Bytes
content_of path = codes "hello"

abbrev files : Files
files = record {
  env = record env { fopen_rb = λ path. some (content_of path) };
  trans_flo_line = λ line. none;
  netname = λ path type. path;
  is_dir = λ path. false;
  mtime = λ path. 7;
  dontsendempty = empty_no;
}

abbrev hooks : Hooks
hooks = record { process_rcvdlist = λ s. none; q_scan_boxes = λ s. [] }

abbrev list_file : Ftnq
list_file = record {
  fa = whole 2 5047 13 0 (codes "fidonet");
  flvr = b'c';
  action = b'd';
  type = b'l';
  path = codes "list";
  size = 0;
  time = 0;
  sent = false;
}

abbrev session : Session
session = record {
  state = record start { q = list_file ∷ []; security = p_secure };
  flo = none;
  maxflvr = b'h';
  nosendlist = [];
  killlist = [];
}

-- Both sides have sent M_EOB in a batch with more messages than these.
abbrev ended : Session
ended = record session {
  state = record start {
    security = p_secure;
    local_eob = true;
    remote_eob = true;
    msgs_in_batch = 5;
    minor = 1;
  };
}

start_round-BatchEnded_example : BatchEnded (start_round 1 files config hooks ended)
start_round-BatchEnded_example = start_round-BatchEnded 1 files config hooks ended

-- This side has sent M_EOB and waits for the remote's.
abbrev waiting : Session
waiting = record session { state = record start { security = p_secure; local_eob = true } }

waiting_round : start_round 1 files config hooks waiting ≡ waits waiting false
unfolding start_round
waiting_round = refl

start_round-awaits_remote_example : awaits_remote waiting.state ≡ true
start_round-awaits_remote_example =
    start_round-awaits_remote 1 files config hooks waiting waiting waiting_round refl
