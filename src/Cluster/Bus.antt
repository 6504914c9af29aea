-- ===== src/Cluster/Bus.antt =====
-- src/cluster.cpp: the messages that a node sends. Writing them to the sockets is not modelled: a
-- link that breaks does so between two calls.
use epochkv.Prelude.{
  ℕ, ◌/◌, max, List, [], ◌∷◌, ◌++◌, map, Option, none, some, Bool, true, false, not, ◌&&◌, ◌||◌,
  ◌==◌, if◌then◌else◌, take, length,
}
use epochkv.ClusterMsg.{SlotBitmap, MsgType, ping, pong, update, GossipEntry, Message}
use epochkv.Cluster.{
  Node, Cluster, Env, Replication, LinkState, no_link, connected, Dest, to_node, points_to, is_null,
}
use epochkv.Cluster.Nodes
use epochkv.Cluster.Nodes.{has_slots, node_at, master_of}

abbrev pub is_connected : LinkState → Bool
is_connected connected = true
is_connected _ = false

abbrev pub is_linked : LinkState → Bool
is_linked no_link = false
is_linked _ = true

-- A link that carries messages, to a node that is known by its ID.
unfoldable pub usable : Node → Bool
usable n = is_connected n.link && not n.in_handshake

-- The nodes that gossip may be about, in front of the shuffling.
unfoldable pub candidates : ℕ → Option ℕ → List Node → List Node
candidates me peer [] = []
candidates me peer (n ∷ ns) =
    let skipped =
      n.ref == me
      || points_to peer n.ref
      || n.in_handshake
      || n.no_addr
      || not (is_linked n.link) && not (has_slots n) && not n.is_pfail in
    let rest = candidates me peer ns in if skipped then rest else n ∷ rest

unfoldable pub suspected : List Node → List Node
suspected [] = []
suspected (n ∷ ns) = let rest = suspected ns in if n.is_pfail then n ∷ rest else rest

unfoldable pub unsuspected : List Node → List Node
unsuspected [] = []
unsuspected (n ∷ ns) = let rest = unsuspected ns in if n.is_pfail then rest else n ∷ rest

unfoldable pub gossip_entry : Node → GossipEntry
gossip_entry n = record {
  id = n.id;
  ip = n.ip;
  port = n.port;
  cport = n.cport;
  is_replica = n.is_replica;
  is_pfail = n.is_pfail;
  is_fail = n.is_fail;
}

-- The suspected nodes first, all of them, and others up to the number wanted.
unfoldable pub gossip_of : ℕ → List Node → List GossipEntry
unfolding suspected unsuspected gossip_entry
gossip_of wanted shuffled =
    let suspects = suspected shuffled in
    map gossip_entry (take (max wanted (length suspects)) (suspects ++ unsuspected shuffled))

abbrev pub is_ping : MsgType → Bool
is_ping ping = true
is_ping _ = false

-- The epoch and the slots of the node's shard; none when its master is not known.
unfoldable pub shard_epoch : Option Node → ℕ
shard_epoch none = 0
shard_epoch (some n) = n.config_epoch

unfoldable pub shard_slots : Option Node → SlotBitmap
shard_slots none = λ slot. false
shard_slots (some n) = n.slots

abbrev pub nobody : Node
nobody = Nodes.new_node 0 [] 0

module _ {R : Type 0} where
  -- `*myself_`
  unfoldable pub self : Cluster R → Node
  self c = elim (node_at c c.myself) [ none ↦ nobody | some n ↦ n ]

  unfoldable pub send : Dest → Message → Cluster R → Cluster R
  send dest msg c = record c { sent = c.sent ++ (dest, msg) ∷ [] }

  module _ (rep : Replication R) where
    unfoldable pub header : MsgType → Cluster R → Message
    unfolding self shard_epoch shard_slots
    header type c =
        let me = self c in
        let shard = master_of c me in
        record {
          type = type;
          sender = me.id;
          port = c.options.port;
          cport = c.options.cport;
          is_replica = me.is_replica;
          master_id = me.master_id;
          current_epoch = c.current_epoch;
          config_epoch = shard_epoch shard;
          repl_offset = rep.offset c.replication;
          mflags = if me.is_master && not (is_null c.mf_end) then 1 else 0;
          slots = shard_slots shard;
          gossip = [];
          update_id = [];
          update_epoch = 0;
          update_slots = λ slot. false;
          fail_id = [];
        }

    -- The loop of `broadcast`.
    unfoldable pub broadcast_loop : List Node → Message → Cluster R → Cluster R
    unfolding usable send
    broadcast_loop [] msg c = c
    broadcast_loop (n ∷ ns) msg c =
        broadcast_loop ns msg
          (if not (n.ref == c.myself) && usable n then send (to_node n.ref) msg c else c)

    unfoldable pub broadcast : Message → Cluster R → Cluster R
    unfolding broadcast_loop
    broadcast msg c = broadcast_loop c.nodes msg c

    -- A PING that is answered later: the wait counts from the first.
    unfoldable pub note_ping : Bool → Option ℕ → ℕ → Cluster R → Cluster R
    note_ping is_first none now c = c
    note_ping is_first (some r) now c =
        if is_first
        then Nodes.update c r (λ n. if n.ping_sent == 0 then record n { ping_sent = now } else n)
        else c

    -- `peer` is the node of the link.
    unfoldable pub send_ping : Dest → Option ℕ → MsgType → Env → Cluster R → Cluster R
    unfolding header gossip_of candidates note_ping send
    send_ping dest peer type env c =
        let wanted = max 3 (length c.nodes / 10) in
        let chosen = gossip_of wanted (env.shuffle (candidates c.myself peer c.nodes)) in
        send dest (record (header type c) { gossip = chosen })
          (note_ping (is_ping type) peer env.now c)

    unfoldable pub pong_loop : List Node → Env → Cluster R → Cluster R
    unfolding send_ping usable
    pong_loop [] env c = c
    pong_loop (n ∷ ns) env c =
        pong_loop ns env (if usable n then send_ping (to_node n.ref) (some n.ref) pong env c else c)

    unfoldable pub broadcast_pong : Env → Cluster R → Cluster R
    unfolding pong_loop
    broadcast_pong env c = pong_loop c.nodes env c

    unfoldable pub send_update : Dest → Node → Cluster R → Cluster R
    unfolding header send
    send_update dest n c =
        send dest
          (record (header update c) {
            update_id = n.id;
            update_epoch = n.config_epoch;
            update_slots = n.slots;
          })
          c
