-- ===== src/Lib.antt =====
-- epochkv, a key-value server that speaks the protocol of Redis: a keyspace in memory with deadlines
-- and eviction, snapshots and an append-only file, replication, and a cluster with failover.
--
-- A byte is a number below 256 and a `std::string` a list of bytes (`Prelude`). Unsigned integers of
-- the machine are natural numbers with their wrap-around written out, `int64_t` is an integer that is
-- tested against its range where the code tests it. Output buffers are arguments that grow.
--
-- The parts, and the code that they model:
--
-- * HashTable, include/hash_table.hpp: the two arrays of chains, `rehash_idx_` and `num_entries_`.
--   `insert` is `set`; `put` and `unlink` are what `set` and `del` do behind `rehash_step(1)`. `Bucket`
--   holds the loops over a chain, `Valid` what a well-formed table is, `Writes`, `Move`, `Rehash` and
--   `Steps` what the single writes and the rounds of a resize keep, `Map` and `Laws` what the
--   operations do to the lookups. `random_entry` draws random numbers and is not modelled.
-- * Store, include/store.hpp and src/store.cpp: the keyspace, over two hash tables, the list of keys
--   from the most to the least recently used and the keys of each slot. The clock and the deletion
--   listener are the fields `now` and `notified`. `Store/Reclaim` holds eviction, the background
--   rehashing and the operations on slots; `Visible`, `Expiry`, `Writes`, `Dating` and `Laws` what
--   clients may read, now and later, and what lookups, writes, deadlines and the operations do to it.
--   `active_expire_cycle` samples with `random_entry` and is not modelled.
-- * Slots, src/cluster_slot.cpp: CRC-16 and the slot of a key.
-- * Reply and RespParser, src/reply.cpp and src/resp_parser.cpp: the two directions of the protocol.
--   The parser's state is its buffer.
-- * Backlog, include/repl_backlog.hpp and src/repl_backlog.cpp: the circular buffer of the stream.
-- * Snapshot, src/snapshot.cpp: CRC-32 and the payload of DUMP and RESTORE; `Snapshot/File` the bytes
--   of a snapshot file and its loader. Opening, syncing and renaming files is not modelled, nor are
--   errors of reading and writing.
-- * Dispatcher, include/command_dispatcher.hpp and src/command_dispatcher.cpp: the helpers;
--   `Dispatcher/Strings`, `Keys`, `Admin` and `Migrate` the handlers, `Dispatch` the table of commands
--   and `dispatch`. A handler takes the arguments, the state and the output buffer. `Services` is the
--   interface to persistence, replication, the cluster and the exchange of MIGRATE, over a state `W`
--   of theirs; a component that is absent has a `has_` field that is false. The calls of the
--   propagator are kept in `logged`. The DELs of the deletion listener are kept in the store, so that
--   their order among the propagated commands is not seen.
-- * ClusterMsg, include/cluster_msg.hpp and src/cluster_msg.cpp: the messages of the cluster bus.
-- * Cluster, include/cluster.hpp and src/cluster.cpp: a node's view of the cluster. `Nodes` holds the
--   nodes and slots, `Bus` the messages that are sent, `State` the state of the cluster and nodes.conf,
--   `Config` what gossip decides, `Routing` where a command runs, `Failure`, `Vote` and `Election` the
--   way to a failover, `Membership` the nodes that come and go, `Handlers` and `Packet` the messages that
--   are received, `Cron` the timer, and `SlotCommands`, `Commands`, `Report` and `Entry` the CLUSTER
--   command. A `Node*` is a number, and the owners of the slots are a function. The clock stands still
--   during a call, and one function stands for all its shuffles. A random ID is taken to be new. Only the
--   epochs are kept of nodes.conf; a save takes effect, or not, or takes effect and still reports an
--   error. `Replication` is the interface to replication. `Votes`, `Epochs` and `OneVote` are about the
--   votes of a node, `SlotMap`, `Takeover`, `Claiming`, `Demotion`, `Releasing`, `Claimed`, `Arguments`
--   and `Adding` about the owners of slots, `Routes` about routing, `Flags` and `Quorum` about failed
--   nodes and `Ranges` about ranges of slots.
-- * Replication, include/replication.hpp and src/replication.cpp: the master's side. `Stream` holds the
--   stream, PSYNC and the snapshots for replicas, `Sync` what a replica is sent. Whether a child runs,
--   whether one starts, and the sizes of snapshots are arguments.
--
-- Handlers use the hash table through the store only, the store the slots of its keys, RESTORE and
-- MIGRATE the payloads of the snapshot, and every handler the reply encoder.
--
-- Bounds and fuel: `rehash_loop` of the table has the old buckets that are left, each round of it
-- taking one. `append_loop` has the bytes left to write and `copy_loop` the bytes left to copy. A
-- number has fewer digits than its successor, and a 64-bit length ten groups of seven bits at most.
-- `evict_loop` has the length of the list of keys and `delete_loop` that of the slot's list, from which each round
-- takes one key. `load_loop` has the length of the file, of which each record takes a byte at least. `range_end` and `for_each_range` have the number of slots.
--
-- Not modelled: src/server.cpp and src/kv_server.cpp (sockets, signals, options), src/aof.cpp,
-- src/persistence.cpp, src/migrate.cpp and src/file_util.cpp; of src/cluster.cpp the sockets of the bus,
-- its start and the loading of nodes.conf; of src/replication.cpp the side of a replica, WAIT and the
-- timer. What is only logged is left out.
-- Chains of bytes stand for pointers: freeing memory and running out of it are not modelled.
pub mod Prelude
pub mod Slots
pub mod Reply
pub mod RespParser
pub mod Backlog
pub mod HashTable
pub mod Store
pub mod Snapshot
pub mod Dispatcher
pub mod ClusterMsg
pub mod Cluster
pub mod Replication
pub mod Tests
