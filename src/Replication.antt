-- ===== src/Replication.antt =====
-- include/replication.hpp and src/replication.cpp: the master's side of replication. The link of a
-- replica to its master is the field `link_up`. A `Client*` in `replicas_` is the replica itself, a client
-- that PSYNC turns into a replica being the last of them. Waking up the event loop is not modelled, and a
-- client that is closed is marked as `closing`.
pub mod Stream
pub mod Sync
use epochkv.Prelude.{ℕ, List, Option, none, some, leb, Bool, true, false, not, Bytes, ◌==◌, length}
use epochkv.Backlog.{ReplBacklog}

-- How far a replica is.
pub data ReplState : Type 0 where
  no_repl wait_bgsave_start wait_bgsave_end send_bulk online : ReplState

-- The fields of a client that replication uses.
pub record Replica : Type 0 where
  pub out : Bytes
  pub held : Bytes
  pub state : ReplState
  pub ack_offset : ℕ
  pub ack_time : ℕ
  pub is_master : Bool
  pub closing : Bool

pub record Replication : Type 0 where
  pub replid : Bytes
  pub replid2 : Bytes
  pub second_replid_offset : Option ℕ
  pub backlog : ReplBacklog
  pub stream_started : Bool
  pub replid_shared : Bool
  pub replicas : List Replica
  pub sync_full : ℕ
  pub sync_partial_ok : ℕ
  pub sync_partial_err : ℕ
  pub master_host : Bytes
  pub link_up : Bool

abbrev pub is_replica : Replication → Bool
is_replica m = not (length m.master_host == 0)

abbrev pub offset : Replication → ℕ
offset m = m.backlog.offset

abbrev pub is_none : ReplState → Bool
is_none no_repl = true
is_none _ = false

abbrev pub waits : ReplState → Bool
waits wait_bgsave_start = true
waits _ = false

abbrev pub awaits : ReplState → Bool
awaits wait_bgsave_end = true
awaits _ = false

abbrev pub is_online : ReplState → Bool
is_online online = true
is_online _ = false

-- The history that was followed before goes up to an offset.
abbrev pub up_to : Option ℕ → ℕ → Bool
up_to none from = false
up_to (some end) from = leb from end
