-- ===== src/Cluster/Config.antt =====
-- src/cluster.cpp: the roles, and what gossip decides about slots and epochs.
use epochkv.Prelude.{
  ℕ, List, [], ◌∷◌, ◌++◌, Option, none, some, Bool, true, false, not, ◌&&◌, ◌||◌, Bytes, ◌==◌, ltb,
  bytes_eq, if◌then◌else◌, length,
}
use epochkv.ClusterMsg.{SlotBitmap, slot_count}
use epochkv.Store.Reclaim.{count_keys_in_slot, delete_slot}
use epochkv.Cluster.{Node, Cluster, Env, Replication, points_to, is_null}
use epochkv.Cluster.Nodes.{
  for_slots, has_slots, put, lookup, node_at, update, save, set_slot, master_of, next_epoch,
}
use epochkv.Cluster.Bus.{self}
use epochkv.Cluster.State.{owner_node, update_state, reset_manual_failover}

-- `std::lexicographical_compare`, as `operator<` of strings makes it.
unfoldable pub bytes_lt : Bytes → Bytes → Bool
bytes_lt [] [] = false
bytes_lt [] (b ∷ bs) = true
bytes_lt (a ∷ as') [] = false
bytes_lt (a ∷ as') (b ∷ bs) = ltb a b || a == b && bytes_lt as' bs

module _ {R : Type 0} where
  module _ (rep : Replication R) where
    unfoldable pub follow_node : Node → Cluster R → Cluster R
    follow_node master c =
        let same =
          rep.is_replica c.replication
          && bytes_eq (rep.master_host c.replication) master.ip
          && rep.master_port c.replication == master.port in
        let (s, r) = rep.replicaof master.ip master.port c.store c.replication in
        if length master.ip == 0 || same then c else record c { store = s; replication = r }

    unfoldable pub follow_master : Cluster R → Cluster R
    unfolding follow_node
    follow_master c =
        if not (self c).is_replica
        then c
        else elim (lookup c (self c).master_id) [ none ↦ c | some master ↦ follow_node master c ]

    -- One round of the loop over the slots.
    unfoldable pub release_slot : ℕ → Cluster R → Cluster R
    release_slot slot c =
        let c' = if points_to (c.owner slot) c.myself then set_slot slot none c else c in
        record c' {
          migrating_to = put c'.migrating_to slot none;
          importing_from = put c'.importing_from slot none;
        }

    unfoldable pub set_as_replica_of : Bytes → Cluster R → Cluster R
    unfolding reset_manual_failover release_slot
    set_as_replica_of id c =
        let c' = for_slots slot_count release_slot (reset_manual_failover rep c) in
        let c'' =
          update c' c'.myself
            (λ n. record n { is_master = false; is_replica = true; master_id = id }) in
        record (save (follow_master c'')) { todo_broadcast = true }

    -- What the loop over the claimed slots keeps: the state, whether our master lost one, and our
    -- slots with keys.
    pub record Claims : Type 0 where
      pub cluster : Cluster R
      pub took_from_our_master : Bool
      pub dirty : List ℕ

    -- The epoch under which a slot is held; a slot that nobody holds is anybody's.
    unfoldable pub beats : ℕ → Option Node → Bool
    beats epoch none = true
    beats epoch (some n) = ltb n.config_epoch epoch

    unfoldable pub take_slot : ℕ → Option ℕ → ℕ → Claims → Claims
    take_slot sender our_master slot s =
        let c = s.cluster in
        let mine = points_to (c.owner slot) c.myself in
        let from_ours : Bool = elim (c.owner slot) [
          | none ↦ false
          | some r ↦ points_to our_master r
        ] in
        let c' =
          if mine
          then record c { migrating_to = put c.migrating_to slot none; todo_broadcast = true }
          else c in
        record {
          cluster = save (set_slot slot (some sender) c');
          took_from_our_master = s.took_from_our_master || from_ours;
          dirty =
              if mine && ltb 0 (count_keys_in_slot c.store slot)
              then s.dirty ++ slot ∷ []
              else s.dirty;
        }

    unfoldable pub claim_slot : ℕ → Option ℕ → ℕ → SlotBitmap → ℕ → Claims → Claims
    unfolding take_slot beats owner_node
    claim_slot sender our_master epoch slots slot s =
        let c = s.cluster in
        if not (slots slot)
          || points_to (c.owner slot) sender
          || not (is_null (c.importing_from slot))
          || not (beats epoch (owner_node c slot))
        then s
        else take_slot sender our_master slot s

    -- A master deletes the keys of the slots that it lost.
    unfoldable pub delete_slots : List ℕ → Cluster R → Cluster R
    delete_slots [] c = c
    delete_slots (slot ∷ slots) c =
        delete_slots slots (record c { store = (delete_slot c.store slot).0 })

    -- The master of our shard, if it is known and has no slots any more.
    unfoldable pub has_no_slots : Cluster R → Option ℕ → Bool
    has_no_slots c none = false
    has_no_slots c (some r) = elim (node_at c r) [ none ↦ false | some n ↦ not (has_slots n) ]

    -- Behind the loop: our shard was taken over, or some slots were lost.
    unfoldable pub settle_claims : Bytes → Option ℕ → Claims → Cluster R
    unfolding set_as_replica_of delete_slots has_no_slots
    settle_claims sender_id our_master s =
        let c = s.cluster in
        if s.took_from_our_master && has_no_slots c our_master
        then if (self c).is_master || not (bytes_eq (self c).master_id sender_id)
          then set_as_replica_of sender_id c
          else c
        else if (self c).is_master
        then delete_slots s.dirty c
        else c

    unfoldable pub ref_of : Option Node → Option ℕ
    ref_of none = none
    ref_of (some n) = some n.ref

    unfoldable pub update_slots_config_with : Node → ℕ → SlotBitmap → Cluster R → Cluster R
    unfolding claim_slot settle_claims ref_of
    update_slots_config_with sender epoch slots c =
        let our_master = ref_of (master_of c (self c)) in
        let claims =
          for_slots slot_count (claim_slot sender.ref our_master epoch slots)
            (record { cluster = c; took_from_our_master = false; dirty = [] }) in
        if sender.ref == c.myself then c else settle_claims sender.id our_master claims

  -- The node with the smaller ID moves to a fresh epoch.
  unfoldable pub handle_epoch_collision : Node → Cluster R → Cluster R
  unfolding bytes_lt
  handle_epoch_collision sender c =
      let me = self c in
      let epoch = next_epoch c.current_epoch in
      let c' = update c c.myself (λ n. record n { config_epoch = epoch }) in
      if not sender.is_master || not me.is_master || not (sender.config_epoch == me.config_epoch)
      then c
      else if not (bytes_lt me.id sender.id)
      then c
      else record (save c') { current_epoch = epoch; todo_broadcast = true }

  -- Keys in a slot that nobody owns claim it; in a slot of another node they mark it as importing.
  unfoldable pub verify_slot : ℕ → Cluster R → Cluster R
  verify_slot slot c =
      if count_keys_in_slot c.store slot == 0
        || points_to (c.owner slot) c.myself
        || not (is_null (c.importing_from slot))
      then c
      else if is_null (c.owner slot)
      then save (set_slot slot (some c.myself) c)
      else save (record c { importing_from = put c.importing_from slot (c.owner slot) })

  unfoldable pub verify_config_with_data : Env → Cluster R → Cluster R
  unfolding verify_slot update_state
  verify_config_with_data env c =
      if (self c).is_replica then c else update_state env (for_slots slot_count verify_slot c)
