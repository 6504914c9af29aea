-- ===== src/Replication/Stream.antt =====
-- src/replication.cpp: the stream of a master, and the snapshots for its replicas.
use epochkv.Prelude.{
  ℕ, ◌+◌, ◌*◌, ◌%◌, ◌^◌, max, List, [], ◌∷◌, ◌++◌, Option, none, some, Bool, true, false, not, ◌&&◌,
  ◌||◌, Bytes, str, ltb, leb, bytes_eq, if◌then◌else◌, length,
}
use epochkv.Prelude.Int.{ℤ, pos, negsuc}
use epochkv.Prelude.Decimal.{to_string_ℕ}
use epochkv.Backlog
use epochkv.Backlog.{copy_from}
use epochkv.Reply
use epochkv.Replication.{
  ReplState, no_repl, wait_bgsave_start, wait_bgsave_end, send_bulk, online, Replica, Replication,
  is_replica, offset, is_none, waits, awaits, is_online, up_to,
}

abbrev pub max_replica_buffer_bytes : ℕ
max_replica_buffer_bytes = 256 * 1024 * 1024

-- A write is sent to a replica that is online, and kept for one that awaits the snapshot.
unfoldable pub deliver : Bytes → ReplState → Replica → Replica
deliver bytes online r = record r { out = r.out ++ bytes }
deliver bytes wait_bgsave_end r = record r { held = r.held ++ bytes }
deliver bytes send_bulk r = record r { held = r.held ++ bytes }
deliver bytes wait_bgsave_start r = r
deliver bytes no_repl r = r

abbrev pub gets_stream : ReplState → Bool
gets_stream wait_bgsave_start = false
gets_stream no_repl = false
gets_stream _ = true

-- A replica whose buffers are too long is closed.
unfoldable pub drop_slow : Replica → Replica
drop_slow r =
    if ltb max_replica_buffer_bytes (length r.out + length r.held)
    then record r { closing = true }
    else r

unfoldable pub feed_replica : Bytes → Replica → Replica
unfolding deliver drop_slow
feed_replica bytes r =
    if r.closing || not (gets_stream r.state) then r else drop_slow (deliver bytes r.state r)

unfoldable pub feed_all : Bytes → List Replica → List Replica
unfolding feed_replica
feed_all bytes [] = []
feed_all bytes (r ∷ rs) = feed_replica bytes r ∷ feed_all bytes rs

unfoldable pub feed : Bytes → Replication → Replication
unfolding feed_all
feed bytes m = record m {
  backlog = Backlog.append m.backlog bytes;
  replicas = feed_all bytes m.replicas;
}

unfoldable pub propagate : List Bytes → Replication → Replication
unfolding feed
propagate argv m =
    if not m.stream_started || is_replica m then m else feed (Reply.command [] argv) m

unfoldable pub shift_replid : Bytes → Replication → Replication
shift_replid random_replid m = record m {
  replid2 = m.replid;
  second_replid_offset = some (offset m);
  replid = random_replid;
  replid_shared = false;
}

unfoldable pub is_waiting : List Replica → Bool
is_waiting [] = false
is_waiting (r ∷ rs) = waits r.state || is_waiting rs

unfoldable pub close_waiting : List Replica → List Replica
close_waiting [] = []
close_waiting (r ∷ rs) =
    (if waits r.state then record r { closing = true } else r) ∷ close_waiting rs

-- The replicas that waited are told where the snapshot stands in the stream.
unfoldable pub promise : Bytes → List Replica → List Replica
promise reply [] = []
promise reply (r ∷ rs) =
    (if waits r.state
      then record r { state = wait_bgsave_end; out = Reply.simple_string r.out reply }
      else r)
    ∷ promise reply rs

-- `running` tells whether a child runs, and `started` whether a new one could be started.
unfoldable pub start_snapshot_for_replicas : Bool → Bool → Replication → Replication
unfolding is_waiting close_waiting promise
start_snapshot_for_replicas running started m =
    let reply = str "FULLRESYNC " ++ m.replid ++ str " " ++ to_string_ℕ (offset m) in
    if not (is_waiting m.replicas) || running
    then m
    else if not started
    then record m { replicas = close_waiting m.replicas }
    else record m { replicas = promise reply m.replicas; replid_shared = true }

-- The size of the snapshot that could be opened, if it was made and could. `opened` tells it for each
-- replica.
unfoldable pub send_snapshot : Option ℕ → Replica → Replica
send_snapshot none r = record r { closing = true }
send_snapshot (some size) r = record r {
  out = r.out ++ (str "$" ++ to_string_ℕ size ++ str "\r\n");
  state = send_bulk;
}

unfoldable pub snapshot_finished : (Replica → Option ℕ) → List Replica → List Replica
unfolding send_snapshot
snapshot_finished opened [] = []
snapshot_finished opened (r ∷ rs) =
    (if not (awaits r.state) || r.closing then r else send_snapshot (opened r) r)
    ∷ snapshot_finished opened rs

unfoldable pub snapshot_sent : ℕ → Replica → Replica
snapshot_sent now r = record r { out = r.out ++ r.held; held = []; state = online; ack_time = now }

unfoldable pub replconf_ack : ℕ → ℕ → Replica → Replica
replconf_ack now at r =
    if is_none r.state then r else record r { ack_offset = max r.ack_offset at; ack_time = now }

unfoldable pub acked_replicas : ℕ → List Replica → ℕ
acked_replicas at [] = 0
acked_replicas at (r ∷ rs) =
    (if is_online r.state && leb at r.ack_offset then 1 else 0) + acked_replicas at rs

-- The history that a replica names is ours, or the one that we followed, up to where it ended.
unfoldable pub same_history : Bytes → ℕ → Replication → Bool
same_history replid from m =
    bytes_eq replid m.replid || bytes_eq replid m.replid2 && up_to m.second_replid_offset from

-- The stream goes on from `from`.
unfoldable pub continue_from : Replica → ℕ → Replication → Replica
continue_from c from m = record c {
  out = copy_from m.backlog from (Reply.simple_string c.out (str "CONTINUE " ++ m.replid));
  state = online;
  ack_offset = from;
}

unfoldable pub try_partial_resync :
    Replica → Bytes → ℤ → Replication → Option (Replication × Replica)
unfolding same_history continue_from
try_partial_resync c replid (negsuc n) m = none
try_partial_resync c replid (pos from) m =
    let c' = continue_from c from m in
    if not (same_history replid from m) || not (Backlog.contains m.backlog from)
    then none
    else some (record m { replicas = m.replicas ++ c' ∷ []; replid_shared = true }, c')

-- A client that needs all of the data.
unfoldable pub full_resync : Bool → Bool → Replica → Bytes → Replication → Replication
unfolding start_snapshot_for_replicas
full_resync running started c replid m =
    let c' = record c { state = wait_bgsave_start } in
    start_snapshot_for_replicas running started (record m {
      sync_partial_err =
          if bytes_eq replid (str "?")
          then m.sync_partial_err
          else (m.sync_partial_err + 1) % 2 ^ 64;
      sync_full = (m.sync_full + 1) % 2 ^ 64;
      replicas = m.replicas ++ c' ∷ [];
    })

-- An error is the client's reply; else the client is the last of the replicas.
pub data Synced : Type 0 where
  refused : Bytes → Synced
  following : Replication → Synced

unfoldable pub psync : Bool → Bool → ℕ → Replica → Bytes → ℤ → Replication → Synced
unfolding try_partial_resync full_resync
psync running started now c replid from m =
    let c' = record c { ack_time = now } in
    let m' = record m { stream_started = true } in
    if not (is_none c.state) || c.is_master
    then refused (Reply.error c.out (str "ERR PSYNC on a connection that is already replicating"))
    else if is_replica m && not m.link_up
    then refused
        (Reply.error c.out (str "NOMASTERLINK Can't SYNC while not connected with my master"))
    else elim (try_partial_resync c' replid from m') [
      | none ↦ following (full_resync running started c' replid m')
      | some (m'', c'') ↦
          following (record m'' { sync_partial_ok = (m''.sync_partial_ok + 1) % 2 ^ 64 })
    ]
