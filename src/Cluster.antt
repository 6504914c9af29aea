-- ===== src/Cluster.antt =====
-- include/cluster.hpp: a node's view of the cluster.
-- A `Node*` is the node's `ref`, and a null pointer is `none`; `nodes` holds the nodes of `nodes_`,
-- which is keyed by their `id`. The bits of `flags` are fields. A time of the steady clock is a number
-- of milliseconds, 0 being the time that stands for never. `sent` holds the messages that were sent,
-- the latest last, and `disk` what nodes.conf says of the epochs.
pub mod Nodes
pub mod Bus
pub mod State
pub mod Config
pub mod Routing
pub mod Failure
pub mod Membership
pub mod Vote
pub mod Election
pub mod Handlers
pub mod Packet
pub mod Cron
pub mod SlotCommands
pub mod Report
pub mod Commands
pub mod Entry
pub mod Votes
pub mod Epochs
pub mod OneVote
pub mod Routes
pub mod SlotMap
pub mod Takeover
pub mod Claiming
pub mod Demotion
pub mod Releasing
pub mod Claimed
pub mod Arguments
pub mod Adding
pub mod Flags
pub mod Quorum
pub mod Ranges
use epochkv.Prelude.{ℕ, List, Option, none, some, Bool, true, false, Bytes, ◌==◌}
use epochkv.ClusterMsg.{SlotBitmap, Message}
use epochkv.Store.{Store}

-- A link to a node: none, one that is being opened, or one that carries messages.
pub data LinkState : Type 0 where
  no_link connecting connected : LinkState

pub record Node : Type 0 where
  pub ref : ℕ
  pub id : Bytes
  pub ip : Bytes
  pub port : ℕ
  pub cport : ℕ
  pub is_master : Bool
  pub is_replica : Bool
  pub in_handshake : Bool
  pub to_meet : Bool
  pub no_addr : Bool
  pub is_pfail : Bool
  pub is_fail : Bool
  pub master_id : Bytes
  pub config_epoch : ℕ
  pub slots : SlotBitmap
  pub ctime : ℕ
  pub ping_sent : ℕ
  pub pong_received : ℕ
  pub fail_time : ℕ
  pub voted_time : ℕ
  pub repl_offset : ℕ
  pub fail_reports : List (Bytes × ℕ)
  pub link : LinkState
  pub link_ctime : ℕ

pub record Options : Type 0 where
  pub port : ℕ
  pub cport : ℕ
  pub node_timeout : ℕ
  pub require_full_coverage : Bool
  pub replica_validity_factor : ℕ
  pub replica_no_failover : Bool

-- What `save_config` came to: the file was replaced, it was not, or it was although an error was
-- returned, as when the folder cannot be synced after the rename.
pub data Saving : Type 0 where
  saved not_saved saved_with_error : Saving

-- What a call takes from outside: the steady clock, the random numbers and the outcome of the save.
-- `new_id` is the random ID for the node with a ref, and `connects` whether a connection to it is
-- begun.
pub record Env : Type 0 where
  pub now : ℕ
  pub saving : Saving
  pub jitter : ℕ
  pub new_id : ℕ → Bytes
  pub shuffle : List Node → List Node
  pub valid_ipv4 : Bytes → Bool
  pub local_ip : Option Bytes
  pub connects : ℕ → Bool

-- The replication component, as the cluster calls it, over its state `R`.
pub record Replication (R : Type 0) : Type 0 where
  pub offset : R → ℕ
  pub is_replica : R → Bool
  pub master_host : R → Bytes
  pub master_port : R → ℕ
  pub master_last_contact : R → ℕ
  pub ping_period : ℕ
  pub replicaof : Bytes → ℕ → Store → R → Store × R
  pub replicaof_no_one : Store → R → Store × R
  pub set_stream_paused : Bool → R → R

-- Where a message goes: to a node, or back on the link that a message came on.
pub data Dest : Type 0 where
  to_node : ℕ → Dest
  back : Dest

-- What nodes.conf says of the epochs.
pub record Saved : Type 0 where
  pub epoch : ℕ
  pub vote : ℕ

pub record Cluster (R : Type 0) : Type 0 where
  pub options : Options
  pub has_host : Bool
  pub store : Store
  pub replication : R
  pub nodes : List Node
  pub next_ref : ℕ
  pub myself : ℕ
  pub current_epoch : ℕ
  pub last_vote_epoch : ℕ
  pub owner : ℕ → Option ℕ
  pub migrating_to : ℕ → Option ℕ
  pub importing_from : ℕ → Option ℕ
  pub blacklist : List (Bytes × ℕ)
  pub state_ok : Bool
  pub todo_save : Bool
  pub todo_update_state : Bool
  pub todo_broadcast : Bool
  pub todo_handle_failover : Bool
  pub todo_handle_manual_failover : Bool
  pub writable_after : ℕ
  pub among_minority_time : ℕ
  pub failover_auth_time : Option ℕ
  pub failover_auth_rank : ℕ
  pub failover_auth_sent : Bool
  pub failover_auth_count : ℕ
  pub failover_auth_epoch : ℕ
  pub cron_iterations : ℕ
  pub mf_end : Option ℕ
  pub mf_replica : Option ℕ
  pub mf_master_offset : Option ℕ
  pub mf_can_start : Bool
  pub writes_paused : Bool
  pub writes_held : Bool
  pub sent : List (Dest × Message)
  pub messages_received : ℕ
  pub disk : Saved

-- Whether a pointer is to the node.
abbrev pub points_to : Option ℕ → ℕ → Bool
points_to none r = false
points_to (some r') r = r' == r

abbrev pub is_null : {A : Type 0} → Option A → Bool
is_null none = true
is_null (some a) = false
