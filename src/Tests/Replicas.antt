-- ===== src/Tests/Replicas.antt =====
-- src/replication.cpp at a master with a short stream.
use epochkv.Prelude.{◌≡◌, ◌⊎◌, refl, [], ◌∷◌, ◌++◌, none, some, true, false, str, arith}
use epochkv.Prelude.Int.{pos}
use epochkv.Backlog
use epochkv.Backlog.{ReplBacklog}
use epochkv.Backlog.Window.{IsValid, window}
use epochkv.Replication.{Replica, Replication, no_repl, online}
use epochkv.Replication.Stream.{same_history, try_partial_resync, shift_replid}
use epochkv.Replication.Sync.{
  Continuable, Follows, try_partial_resync-Follows, feed_writes, joined, feed_writes-out,
  shift_replid-same_history,
}

-- Four places, three of them written.
abbrev stream : ReplBacklog
stream = record { buf = 1 ∷ 2 ∷ 3 ∷ 0 ∷ []; write_pos = 3; histlen = 3; offset = 3 }

stream-IsValid : IsValid stream
stream-IsValid = record {
  room = omega arith;
  inside = omega arith;
  held = omega arith;
  counted = omega arith;
}

abbrev master : Replication
master = record {
  replid = str "a";
  replid2 = str "0";
  second_replid_offset = none;
  backlog = stream;
  stream_started = true;
  replid_shared = true;
  replicas = [];
  sync_full = 0;
  sync_partial_ok = 0;
  sync_partial_err = 0;
  master_host = [];
  link_up = false;
}

abbrev client : Replica
client = record {
  out = [];
  held = [];
  state = no_repl;
  ack_offset = 0;
  ack_time = 0;
  is_master = false;
  closing = false;
}

try_partial_resync-Follows_example :
    ((r : Replication × Replica)
      → (try_partial_resync client (str "a") (pos 1) master ≡ some r)
      → Continuable (str "a") 1 master × Follows client 1 master (1 ∷ 2 ∷ 3 ∷ []) r)
    × (Continuable (str "a") 1 master
        → (r : Replication × Replica) × (try_partial_resync client (str "a") (pos 1) master
            ≡ some r))
unfolding window
try_partial_resync-Follows_example =
    try_partial_resync-Follows client (str "a") 1 master (1 ∷ 2 ∷ 3 ∷ []) stream-IsValid refl

feed_writes-out_example :
    ((feed_writes ((4 ∷ []) ∷ (5 ∷ []) ∷ []) (record client { state = online })).closing ≡ true)
    ⊎ ((feed_writes ((4 ∷ []) ∷ (5 ∷ []) ∷ []) (record client { state = online })).out
        ≡ [] ++ joined ((4 ∷ []) ∷ (5 ∷ []) ∷ []))
feed_writes-out_example =
    feed_writes-out ((4 ∷ []) ∷ (5 ∷ []) ∷ []) (record client { state = online }) refl

shift_replid-same_history_example : same_history (str "a") 2 (shift_replid (str "b") master) ≡ true
unfolding Backlog.contains
shift_replid-same_history_example = shift_replid-same_history (str "b") master 2 refl
