-- ===== src/Cluster/Packet.antt =====
-- src/cluster.cpp, `process_packet`: what a message does.
use epochkv.Prelude.{
  ℕ, ◌+◌, [], Option, none, some, Bool, true, false, not, ◌&&◌, ◌||◌, ◌==◌, leb, bytes_eq,
  if◌then◌else◌, length,
}
use epochkv.ClusterMsg.{
  ping, pong, meet, update, fail, failover_auth_request, failover_auth_ack, mf_start, Message,
  slot_count,
}
use epochkv.Cluster.{Node, Cluster, Env, Replication, to_node, back}
use epochkv.Cluster.Nodes
use epochkv.Cluster.Nodes.{lookup, node_at, save, set_node_as_master, start_handshake}
use epochkv.Cluster.Bus.{self, send_ping, send_update, is_connected}
use epochkv.Cluster.State.{pause_writes, reset_manual_failover, manual_failover_timeout}
use epochkv.Cluster.Config.{update_slots_config_with, handle_epoch_collision}
use epochkv.Cluster.Membership.{free_link, del_node, rename_node, process_gossip}
use epochkv.Cluster.Vote.{send_failover_auth_if_needed}
use epochkv.Cluster.Handlers.{
  Link, is_meet, differs, is_member, admit, note_sender, note_local_ip, receive_fail, receive_vote,
  newer_owner, note_role, note_pong,
}

-- Whether the rest of `process_packet` is gone through, and for which sender.
pub data Heard (R : Type 0) : Type 0 where
  done : Cluster R → Heard R
  goes_on : Cluster R → Option Node → Heard R

module _ {R : Type 0} where
  -- What is known of a node by now.
  unfoldable pub refresh : Cluster R → Node → Node
  refresh c n = elim (node_at c n.ref) [ none ↦ n | some n' ↦ n' ]

  unfoldable pub refresh_known : Cluster R → Option Node → Option Node
  unfolding refresh
  refresh_known c none = none
  refresh_known c (some n) = some (refresh c n)

module _ {R : Type 0} (rep : Replication R) where
  unfoldable pub answer : Option Node → Message → Link → Env → Cluster R → Cluster R
  answer sender msg l env c =
      let c' = note_local_ip env c in
      let stranger : Bool = elim sender [
        | none ↦ is_meet msg.type && not (length l.peer_ip == 0)
        | some n ↦ false
      ] in
      let c'' = if stranger then start_handshake l.peer_ip msg.port msg.cport env c' else c' in
      if l.dead then c'' else send_ping rep back l.node pong env c''

  -- `n` is the node with the ID of the message.
  unfoldable pub receive_update_about : Node → Message → Cluster R → Cluster R
  receive_update_about n msg c =
      let c' = if n.is_replica then set_node_as_master n.ref c else c in
      let c'' =
        save (Nodes.update c' n.ref (λ n'. record n' { config_epoch = msg.update_epoch })) in
      if n.in_handshake || leb msg.update_epoch n.config_epoch
      then c
      else update_slots_config_with rep (refresh c'' n) msg.update_epoch msg.update_slots c''

  unfoldable pub receive_update : Option Node → Message → Cluster R → Cluster R
  unfolding receive_update_about
  receive_update none msg c = c
  receive_update (some sender) msg c = elim (lookup c msg.update_id) [
    | none ↦ c
    | some n ↦ receive_update_about n msg c
  ]

  unfoldable pub receive_auth_request : Option Node → Message → Env → Cluster R → Cluster R
  receive_auth_request none msg env c = c
  receive_auth_request (some sender) msg env c = send_failover_auth_if_needed rep sender msg env c

  unfoldable pub receive_mf_start : Option Node → Link → Env → Cluster R → Cluster R
  receive_mf_start none l env c = c
  receive_mf_start (some sender) l env c =
      let c' = pause_writes rep true (record (reset_manual_failover rep c) {
        mf_end = some (env.now + manual_failover_timeout);
        mf_replica = some sender.ref;
      }) in
      if not sender.is_replica || not (bytes_eq sender.master_id (self c).id)
      then c
      else if is_connected sender.link
      then send_ping rep (to_node sender.ref) (some sender.ref) ping env c'
      else if l.dead
      then c'
      else send_ping rep back l.node ping env c'

  -- The node that the link was opened to.
  unfoldable pub meet_peer : Option Node → Node → Message → Cluster R → Heard R
  meet_peer sender n msg c =
      let renamed = save (Nodes.update (rename_node n.ref msg.sender c) n.ref (admit msg)) in
      let lost =
        save
          (free_link n.ref (Nodes.update c n.ref (λ n'. record n' { no_addr = true; ip = [] }))) in
      if n.in_handshake
      then elim sender [
        | none ↦ goes_on renamed (node_at renamed n.ref)
        | some known ↦ done (del_node rep n c)
      ]
      else if bytes_eq n.id msg.sender
      then goes_on c sender
      else done lost

  -- The slots of a master that tells of them.
  unfoldable pub note_slots : Node → Message → Link → Cluster R → Cluster R
  note_slots sender msg l c =
      let c' =
        if differs slot_count sender.slots msg.slots
        then update_slots_config_with rep sender msg.config_epoch msg.slots c
        else c in
      let c'' : Cluster R = elim (newer_owner slot_count sender msg c') [
        | none ↦ c'
        | some owner ↦ if l.dead then c' else send_update rep back owner c'
      ] in
      if sender.is_master then handle_epoch_collision (refresh c'' sender) c'' else c

  -- From a member: its role, its slots and its gossip.
  unfoldable pub receive_state : Option Node → Message → Link → Env → Cluster R → Cluster R
  unfolding note_slots
  receive_state none msg l env c = c
  receive_state (some sender) msg l env c =
      let c' = note_role sender msg c in
      let c'' = note_slots (refresh c' sender) msg l c' in
      process_gossip rep (refresh c'' sender) msg.gossip env c''

  unfoldable pub receive_heard : Option ℕ → Heard R → Message → Link → Env → Cluster R
  unfolding receive_state refresh_known
  receive_heard peer (done c) msg l env = c
  receive_heard none (goes_on c sender) msg l env = receive_state sender msg l env c
  receive_heard (some r) (goes_on c sender) msg l env =
      let c' : Cluster R = elim (node_at c r) [ none ↦ c | some n ↦ note_pong n msg env c ] in
      receive_state (refresh_known c' sender) msg l env c'

  unfoldable pub hear_peer : Option Node → Message → Link → Cluster R → Heard R
  unfolding meet_peer
  hear_peer sender msg l c = elim l.node [
    | none ↦ goes_on c sender
    | some r ↦ elim (node_at c r) [ none ↦ goes_on c sender | some n ↦ meet_peer sender n msg c ]
  ]

  -- PING, PONG and MEET.
  unfoldable pub receive_heartbeat : Option Node → Message → Link → Env → Cluster R → Cluster R
  unfolding hear_peer receive_heard
  receive_heartbeat sender msg l env c = receive_heard l.node (hear_peer sender msg l c) msg l env

  unfoldable pub dispatch : Option Node → Message → Link → Env → Cluster R → Cluster R
  dispatch sender msg l env c =
      let answered = answer sender msg l env c in
      elim msg.type [
        | ping ↦
            if l.dead
            then answered
            else receive_heartbeat (refresh_known answered sender) msg l env answered
        | pong ↦ receive_heartbeat sender msg l env c
        | meet ↦
            if l.dead
            then answered
            else receive_heartbeat (refresh_known answered sender) msg l env answered
        | update ↦ receive_update sender msg c
        | fail ↦ elim sender [ none ↦ c | some n ↦ receive_fail (lookup c msg.fail_id) msg env c ]
        | failover_auth_request ↦ receive_auth_request sender msg env c
        | failover_auth_ack ↦ receive_vote sender msg c
        | mf_start ↦ receive_mf_start sender l env c
      ]

  unfoldable pub process_packet : Link → Message → Env → Cluster R → Cluster R
  unfolding dispatch refresh_known
  process_packet l msg env c =
      let sender : Option Node = is_member (lookup c msg.sender) in
      let (c', l') = note_sender sender msg l c in dispatch (refresh_known c' sender) msg l' env c'
