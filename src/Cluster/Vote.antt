-- ===== src/Cluster/Vote.antt =====
-- src/cluster.cpp, `send_failover_auth_if_needed`: the vote of a master.
use epochkv.Prelude.{
  ℕ, zero, suc, ◌-◌, ◌*◌, bit_and, Option, none, some, Bool, true, false, not, ◌&&◌, ◌||◌, ◌==◌,
  ltb, if◌then◌else◌,
}
use epochkv.ClusterMsg.{SlotBitmap, Message, slot_count, failover_auth_ack}
use epochkv.Cluster.{Node, Cluster, Env, Replication, to_node}
use epochkv.Cluster.Nodes.{has_slots, update, lookup}
use epochkv.Cluster.Bus.{self, header, send, is_connected}
use epochkv.Cluster.State.{save_config, owner_node}

-- `kMsgPaused` is the first bit of the flags of a message and `kMsgForceAck` the second.
abbrev pub force_ack : ℕ
force_ack = 2

-- The vote of this node for its requester's shard is kept for two node timeouts.
unfoldable pub voted_lately : ℕ → ℕ → Node → Bool
voted_lately node_timeout now master =
    not (master.voted_time == 0) && ltb (now - master.voted_time) (node_timeout * 2)

-- The owner of one of the slots has a newer config than the requester.
unfoldable pub is_stale : Option Node → ℕ → Bool
is_stale none epoch = false
is_stale (some n) epoch = ltb epoch n.config_epoch

module _ {R : Type 0} where
  unfoldable pub claims_newer : ℕ → SlotBitmap → ℕ → Cluster R → Bool
  unfolding owner_node is_stale
  claims_newer zero slots epoch c = false
  claims_newer (suc n) slots epoch c =
      claims_newer n slots epoch c || slots n && is_stale (owner_node c n) epoch

  -- The master of the requester, if that is a replica of a known master.
  unfoldable pub requested_master : Cluster R → Node → Option Node
  unfolding lookup
  requested_master c requester = if requester.is_replica then lookup c requester.master_id else none

  -- The safety rules about the master.
  unfoldable pub may_vote_for : Cluster R → Env → Message → Option Node → Bool
  unfolding voted_lately claims_newer
  may_vote_for c env request none = false
  may_vote_for c env request (some master) =
      let force = not (bit_and request.mflags force_ack == 0) in
      (master.is_fail || force)
      && not (voted_lately c.options.node_timeout env.now master)
      && not (claims_newer slot_count request.slots request.config_epoch c)

  -- All the safety rules.
  unfoldable pub may_vote : Cluster R → Env → Node → Message → Bool
  unfolding requested_master may_vote_for
  may_vote c env requester request =
      not ((self c).is_replica || not (has_slots (self c)))
      && not (ltb request.current_epoch c.current_epoch)
      && not (c.last_vote_epoch == c.current_epoch)
      && may_vote_for c env request (requested_master c requester)

  unfoldable pub note_vote : Cluster R → Env → Option Node → Cluster R
  unfolding update
  note_vote c env none = c
  note_vote c env (some master) =
      update (record c { last_vote_epoch = c.current_epoch }) master.ref
        (λ n. record n { voted_time = env.now })

  module _ (rep : Replication R) where
    -- The vote, once it is saved.
    unfoldable pub grant : Node → Cluster R × Bool → Cluster R
    unfolding send header
    grant requester (c, false) = record c { last_vote_epoch = 0 }
    grant requester (c, true) =
        if is_connected requester.link
        then send (to_node requester.ref) (header rep failover_auth_ack c) c
        else c

    unfoldable pub send_failover_auth_if_needed : Node → Message → Env → Cluster R → Cluster R
    unfolding may_vote note_vote grant save_config
    send_failover_auth_if_needed requester request env c =
        if may_vote c env requester request
        then grant requester (save_config env (note_vote c env (requested_master c requester)))
        else c
