-- ===== src/Cluster/Handlers.antt =====
-- src/cluster.cpp, `process_packet`: the parts of what a message does.
use epochkv.Prelude.{
  ℕ, zero, suc, ◌+◌, Option, none, some, Bool, true, false, not, ◌&&◌, ◌||◌, Bytes, ◌==◌, ltb, leb,
  bit_and, bytes_eq, if◌then◌else◌, length,
}
use epochkv.ClusterMsg.{MsgType, ping, pong, meet, SlotBitmap, Message, slot_count}
use epochkv.Cluster.{Node, Cluster, Env, points_to, is_null}
use epochkv.Cluster.Nodes
use epochkv.Cluster.Nodes.{
  for_slots, has_slots, lookup, node_at, save, set_slot, set_node_as_master, start_handshake,
}
use epochkv.Cluster.Bus.{self, is_linked}
use epochkv.Cluster.State.{owner_node}
use epochkv.Cluster.Failure.{clear_node_failure_if_needed}
use epochkv.Cluster.Membership.{free_link}
use epochkv.Cluster.Vote.{is_stale}

-- A link as a message finds it: the node that it was opened to, if it was opened here, the address of
-- the other side, and whether it was closed.
pub record Link : Type 0 where
  pub node : Option ℕ
  pub peer_ip : Bytes
  pub dead : Bool

abbrev pub is_meet : MsgType → Bool
is_meet meet = true
is_meet _ = false

abbrev pub is_pong : MsgType → Bool
is_pong pong = true
is_pong _ = false

-- PING and MEET are answered.
abbrev pub wants_answer : MsgType → Bool
wants_answer ping = true
wants_answer meet = true
wants_answer _ = false

-- `a != b` of two bitmaps.
unfoldable pub differs : ℕ → SlotBitmap → SlotBitmap → Bool
differs zero a b = false
differs (suc n) a b = differs n a b || (if a n then not (b n) else b n)

-- A node that was shaken hands with.
abbrev pub is_member : Option Node → Option Node
is_member none = none
is_member (some n) = if n.in_handshake then none else some n

-- A node becomes a member under the role that it told.
abbrev pub admit : Message → Node → Node
admit msg n = record n {
  in_handshake = false;
  to_meet = false;
  is_replica = n.is_replica || msg.is_replica;
  is_master = n.is_master || not msg.is_replica;
  master_id = msg.master_id;
}

abbrev pub has_failed : Node → Node
has_failed n = record n { is_pfail = false; is_fail = true }

module _ {R : Type 0} where
  unfoldable pub raise_epoch : ℕ → Cluster R → Cluster R
  raise_epoch epoch c =
      if ltb c.current_epoch epoch then save (record c { current_epoch = epoch }) else c

  unfoldable pub raise_config_epoch : Node → ℕ → Cluster R → Cluster R
  raise_config_epoch sender epoch c =
      if ltb sender.config_epoch epoch
      then save (Nodes.update c sender.ref (λ n. record n { config_epoch = epoch }))
      else c

  -- The ports of the sender; the link to its old bus port is closed, and may be the link of the message.
  unfoldable pub readdress : Node → Message → Link → Cluster R → Cluster R × Link
  readdress sender msg l c =
      let moved = not (sender.cport == msg.cport) in
      let closes = moved && is_linked sender.link in
      let c' = if closes then free_link sender.ref c else c in
      let c'' = Nodes.update c' sender.ref (λ n. record n { port = msg.port; cport = msg.cport }) in
      if sender.port == msg.port && not moved
      then (c, l)
      else if closes && points_to l.node sender.ref
      then (save c'', record l { node = none; dead = true })
      else (save c'', l)

  -- The offset of the sender, which is the final one when our master has paused its writes.
  unfoldable pub note_offset : Node → Message → Cluster R → Cluster R
  note_offset sender msg c =
      let c' = Nodes.update c sender.ref (λ n. record n { repl_offset = msg.repl_offset }) in
      let is_final =
        (self c).is_replica
        && bytes_eq (self c).master_id sender.id
        && not (bit_and msg.mflags 1 == 0)
        && not (is_null c.mf_end)
        && is_null c.mf_master_offset in
      if is_final
      then record c' { mf_master_offset = some msg.repl_offset; todo_handle_manual_failover = true }
      else c'

  unfoldable pub note_sender : Option Node → Message → Link → Cluster R → Cluster R × Link
  unfolding raise_epoch raise_config_epoch readdress note_offset
  note_sender none msg l c = (c, l)
  note_sender (some sender) msg l c =
      let (c', l') =
        readdress sender msg l
          (raise_config_epoch sender msg.config_epoch (raise_epoch msg.current_epoch c)) in
      (note_offset sender msg c', l')

  unfoldable pub note_local_ip : Env → Cluster R → Cluster R
  note_local_ip env c = if not (length (self c).ip == 0) then c else elim env.local_ip [
    | none ↦ c
    | some ip ↦ save (Nodes.update c c.myself (λ n. record n { ip = ip }))
  ]

  unfoldable pub receive_fail : Option Node → Message → Env → Cluster R → Cluster R
  receive_fail none msg env c = c
  receive_fail (some failing) msg env c =
      if failing.ref == c.myself || failing.is_fail || failing.in_handshake
      then c
      else save
          (record (Nodes.update c failing.ref
            (λ n. record (has_failed n) { fail_time = env.now })) {
              todo_update_state = true;
              todo_handle_failover = true;
            })

  unfoldable pub receive_vote : Option Node → Message → Cluster R → Cluster R
  receive_vote none msg c = c
  receive_vote (some sender) msg c =
      if sender.is_master
        && has_slots sender
        && leb c.failover_auth_epoch msg.current_epoch
        && c.failover_auth_sent
      then record c { failover_auth_count = c.failover_auth_count + 1; todo_handle_failover = true }
      else c

  -- The owner of the first slot, if any, that the sender claims under an older config.
  unfoldable pub newer_owner : ℕ → Node → Message → Cluster R → Option Node
  unfolding owner_node is_stale
  newer_owner zero sender msg c = none
  newer_owner (suc slot) sender msg c =
      let owner = owner_node c slot in
      elim (newer_owner slot sender msg c) [
        | none ↦
            if msg.slots slot
              && not (points_to (c.owner slot) sender.ref)
              && is_stale owner msg.config_epoch
            then owner
            else none
        | some n ↦ some n
      ]

  unfoldable pub release_from : ℕ → ℕ → Cluster R → Cluster R
  release_from r slot c = if points_to (c.owner slot) r then set_slot slot none c else c

  -- What a node says of its role.
  unfoldable pub note_role : Node → Message → Cluster R → Cluster R
  unfolding release_from
  note_role sender msg c =
      let c' =
        if sender.is_master
        then save (
            Nodes.update (for_slots slot_count (release_from sender.ref) c) sender.ref
              (λ n. record n { is_master = false; is_replica = true }))
        else c in
      if msg.is_replica
      then (if bytes_eq sender.master_id msg.master_id
          then c'
          else save (Nodes.update c' sender.ref (λ n. record n { master_id = msg.master_id })))
      else if sender.is_replica
      then set_node_as_master sender.ref c
      else c

  unfoldable pub note_pong : Node → Message → Env → Cluster R → Cluster R
  note_pong n msg env c =
      let c' = Nodes.update c n.ref (λ n'. record n' { pong_received = env.now; ping_sent = 0 }) in
      if not (is_pong msg.type)
      then c
      else if n.is_pfail
      then record (Nodes.update c' n.ref (λ n'. record n' { is_pfail = false })) {
        todo_update_state = true;
      }
      else if n.is_fail
      then clear_node_failure_if_needed n env c'
      else c'
