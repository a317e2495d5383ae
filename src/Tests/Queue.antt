-- ===== src/Tests/Queue.antt =====
-- ftnq.c: the theorems on the queue at concrete queues, nodes and files.
use binkd.Base.{
  bytes_eq, true, false, Bool, List, [], ◌∷◌, some, none, codes, Bytes, arith, ◌≡◌, refl, ℕ,
}
use binkd.Ftn.{FtnAddr, fa_isnull}
use binkd.Ftn.Compare.{same_address}
use binkd.Ftn.RoundTrip.{whole}
use binkd.Ftnq.{Ftnq, q_sort}
use binkd.Ftnq.Sort.{is_aka, q_sort_same}
use binkd.Ftnq.Nodes.{FtnNode, may_call, q_not_empty, q_next_node}
use binkd.Ftnq.Nodes.Choice.{CallsFirst, q_not_empty-CallsFirst}
use binkd.Ftnq.Nodes.Calls.{count_free, call_nodes, call_nodes_end}
use binkd.Ftnq.Tries.{TryConfig, TryFiles, read_try}
use binkd.Ftnq.Tries.Standing.{
  Standing, Call, failed, succeeded, judge_calls, file_calls, Holds, file_calls-Holds,
}
use binkd.Text.{isspace}
use binkd.Flo.Spool.{Spool, Spooler, FloFile, closed_flo, remove_from_spool}
use binkd.Flo.Spool.Entries.{entries, others, remove_from_spool-entries}
use binkd.Ftnq.Tries.Counts.{CanWrite}

abbrev boss : FtnAddr
boss = whole 2 5047 13 0 (codes "fidonet")

abbrev no_match : Bytes → Bytes → Bool
no_match mask name = false

abbrev letter : Ftnq
letter = record {
  fa = boss;
  flvr = b'c';
  action = b'd';
  type = b'm';
  path = codes "mail";
  size = 70;
  time = 5;
  sent = false;
}

abbrev request : Ftnq
request = record letter { type = b'r'; path = codes "files" }

-- The request stands behind the mail, though its type comes first.
q_sort_same_example : q_sort no_match (letter ∷ request ∷ []) (boss ∷ []) ≡ letter ∷ request ∷ []
unfolding is_aka fa_isnull same_address bytes_eq
q_sort_same_example =
    q_sort_same no_match (boss ∷ []) boss (letter ∷ request ∷ []) refl refl
      ((refl, refl), ((refl, refl), tt))

sent_in_front :
    q_sort no_match (letter ∷ record request { sent = true } ∷ []) (boss ∷ [])
    ≡ record request { sent = true } ∷ letter ∷ []
unfolding q_sort
sent_in_front = refl

abbrev node : FtnNode
node = record {
  fa = boss;
  hosts = codes "*";
  hold_until = 0;
  busy = 0;
  mail_flvr = b'c';
  files_flvr = b'h';
}

abbrev nodes : List FtnNode
nodes = record node { busy = b'b' } ∷ record node { mail_flvr = b'f' } ∷ node ∷ []

choice_run : q_not_empty 9 nodes ≡ some 2
unfolding q_not_empty bytes_eq
choice_run = refl

q_not_empty-CallsFirst_example : CallsFirst 9 nodes (q_not_empty 9 nodes)
q_not_empty-CallsFirst_example = q_not_empty-CallsFirst 9 nodes

two_free : count_free 9 nodes ≡ 2
unfolding count_free may_call bytes_eq
two_free = refl

call_nodes_end_example : q_next_node 9 (call_nodes 2 9 nodes) ≡ none
call_nodes_end_example = call_nodes_end 2 9 nodes (omega (arith, two_free))

abbrev limits : TryConfig
limits = record { tries = 3; hold = 600; remove_try_files = false }

abbrev fresh : TryFiles
fresh = record { is_named = true; fopen_ok = true; try_file = none; hld_file = none }

abbrev fresh_ok : CanWrite limits fresh
fresh_ok = record { counted = omega arith; named = refl; writable = refl }

fresh_counts : read_try fresh (9, 9) ≡ (0, 0)
unfolding read_try
fresh_counts = refl

abbrev new_standing : Standing
new_standing = record { good = 0; bad = 0; hold = none }

fresh_reads : (unset : ℕ × ℕ) → read_try fresh unset ≡ (0, 0)
unfolding read_try
fresh_reads unset = refl

abbrev fresh_holds : Holds limits fresh new_standing
fresh_holds = record {
  writes = fresh_ok;
  counts = fresh_reads;
  held = refl;
  good_fits = omega arith;
  bad_fits = omega arith;
}

-- A call succeeds and two fail, then one succeeds and three fail.
abbrev calls_made : List Call
calls_made =
    succeeded 100 (codes "ok")
    ∷ failed 200 (codes "busy")
    ∷ failed 300 (codes "busy")
    ∷ succeeded 400 (codes "ok")
    ∷ failed 500 (codes "busy")
    ∷ failed 600 (codes "busy")
    ∷ failed 700 (codes "busy")
    ∷ []

calls_judged :
    judge_calls limits calls_made new_standing ≡ record { good = 0; bad = 0; hold = some 1300 }
unfolding judge_calls
calls_judged = refl

file_calls-Holds_example :
    Holds limits
      (file_calls limits (9, 9) calls_made fresh)
      (judge_calls limits calls_made new_standing)
file_calls-Holds_example =
    file_calls-Holds limits (9, 9) calls_made fresh new_standing (omega arith) fresh_holds

abbrev spooler : Spooler
spooler = record { trans_flo_line = λ line. none; delete_ok = λ path. true }

abbrev nothing_done : Spool
nothing_done = record { disk = []; nosendlist = []; killlist = [] }

-- Two entries, one of which is sent.
abbrev mail : FloFile
mail = closed_flo (codes "^a.pkt\n" ∷ codes "~b.zip\n" ∷ codes "#c.zip\n" ∷ [])

mail_left :
    entries
      (remove_from_spool spooler (codes "x.flo") mail (some (codes "a.pkt")) b'd' nothing_done).0
    ≡ codes "#c.zip" ∷ []
unfolding remove_from_spool entries bytes_eq isspace
mail_left = refl

remove_from_spool-entries_example :
    (entries
        (remove_from_spool spooler (codes "x.flo") mail (some (codes "a.pkt")) b'd' nothing_done).0
      ≡ others (some (codes "a.pkt")) (entries mail))
    × ((remove_from_spool spooler (codes "x.flo") mail (some (codes "a.pkt")) b'd' nothing_done).2
        ≡ true)
    × Unit {0}
remove_from_spool-entries_example =
    remove_from_spool-entries spooler (codes "x.flo") mail (some (codes "a.pkt")) b'd' nothing_done
