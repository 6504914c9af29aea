-- ===== src/Cluster/Takeover.antt =====
-- src/cluster.cpp: the operations that move many slots keep the map of the slots.
use epochkv.Prelude.{
  ℕ, refl, List, [], ◌∷◌, Option, none, some, Bool, true, false, Bytes, ◌==◌, if◌then◌else◌,
}
use epochkv.ClusterMsg.{SlotBitmap, slot_count}
use epochkv.Store.Reclaim.{delete_slot}
use epochkv.Cluster.{Node, Cluster, Replication, points_to}
use epochkv.Cluster.Nodes.{for_slots, lookup, set_slot, master_of, save}
use epochkv.Cluster.Bus.{self}
use epochkv.Cluster.State.{pause_writes, reset_manual_failover}
use epochkv.Cluster.Config.{
  follow_node, follow_master, release_slot, set_as_replica_of, Claims, take_slot, claim_slot,
  delete_slots, settle_claims, ref_of, update_slots_config_with,
}
use epochkv.Cluster.SlotMap.{for_slots-keep, Agrees, set_slot-Agrees, update-Agrees}

module _ {R : Type 0} where
  if-Agrees : (b : Bool) → (x y : Cluster R) → Agrees x → Agrees y → Agrees (if b then x else y)
  if-Agrees true x y h k = h
  if-Agrees false x y h k = k

  known-Agrees :
      (o : Option Node)
      → (c : Cluster R) → (f : Node → Cluster R) → Agrees c
      → ((n : Node) → Agrees (f n))
      → Agrees (elim o [ none ↦ c | some n ↦ f n ])
  known-Agrees none c f h k = h
  known-Agrees (some n) c f h k = k n

  reset_manual_failover-Agrees :
      (rep : Replication R) → (c : Cluster R) → Agrees c → Agrees (reset_manual_failover rep c)
  unfolding reset_manual_failover pause_writes Agrees
  reset_manual_failover-Agrees rep c h = if-Agrees c.writes_paused (pause_writes rep false c) c h h

  follow_master-Agrees :
      (rep : Replication R) → (c : Cluster R) → Agrees c → Agrees (follow_master rep c)
  unfolding follow_master follow_node Agrees
  follow_master-Agrees rep c h = if-Agrees _ c _ h (
      known-Agrees (lookup c (self c).master_id) c (λ n. follow_node rep n c) h
        (λ n. if-Agrees _ c _ h h))

  release_slot-Agrees :
      (rep : Replication R)
      → (slot : ℕ) → (c : Cluster R) → Agrees c
      → Agrees (release_slot rep slot c)
  unfolding release_slot Agrees
  release_slot-Agrees rep slot c h =
      if-Agrees (points_to (c.owner slot) c.myself) (set_slot slot none c) c
        (set_slot-Agrees slot none c h) h

  set_as_replica_of-Agrees :
      (rep : Replication R)
      → (id : Bytes) → (c : Cluster R) → Agrees c
      → Agrees (set_as_replica_of rep id c)
  unfolding set_as_replica_of save Agrees
  set_as_replica_of-Agrees rep id c h = follow_master-Agrees rep _ (
      update-Agrees released released.myself
        (λ n. record n { is_master = false; is_replica = true; master_id = id }) (λ n. refl)
        (λ n. refl)
        (for_slots-keep Agrees slot_count (release_slot rep) (release_slot-Agrees rep)
          (reset_manual_failover rep c) (reset_manual_failover-Agrees rep c h)))
    where
      released : Cluster R
      released = for_slots slot_count (release_slot rep) (reset_manual_failover rep c)

  delete_slots-Agrees :
      (rep : Replication R)
      → (slots : List ℕ) → (c : Cluster R) → Agrees c
      → Agrees (delete_slots rep slots c)
  unfolding delete_slots Agrees
  delete_slots-Agrees rep [] c h = h
  delete_slots-Agrees rep (slot ∷ slots) c h =
      delete_slots-Agrees rep slots (record c { store = (delete_slot c.store slot).0 }) h

  settle_claims-Agrees :
      (rep : Replication R)
      → (id : Bytes) → (our_master : Option ℕ) → (s : Claims rep) → Agrees s.cluster
      → Agrees (settle_claims rep id our_master s)
  unfolding settle_claims
  settle_claims-Agrees rep id our_master s h =
      let c = s.cluster in
      if-Agrees _ _ _
        (if-Agrees _ (set_as_replica_of rep id c) c (set_as_replica_of-Agrees rep id c h) h)
        (if-Agrees _ (delete_slots rep s.dirty c) c (delete_slots-Agrees rep s.dirty c h) h)

  if_claims-Agrees :
      (rep : Replication R)
      → (b : Bool) → (x y : Claims rep) → Agrees x.cluster
      → Agrees y.cluster
      → Agrees (if b then x else y).cluster
  if_claims-Agrees rep true x y h k = h
  if_claims-Agrees rep false x y h k = k

  claim_slot-Agrees :
      (rep : Replication R)
      → (sender : ℕ) → (our_master : Option ℕ) → (epoch : ℕ) → (slots : SlotBitmap) → (slot : ℕ)
      → (s : Claims rep) → Agrees s.cluster
      → Agrees (claim_slot rep sender our_master epoch slots slot s).cluster
  unfolding claim_slot take_slot Agrees save
  claim_slot-Agrees rep sender our_master epoch slots slot s h =
      if_claims-Agrees rep _ s (take_slot rep sender our_master slot s) h (
        set_slot-Agrees slot (some sender) _
          (if-Agrees (points_to (s.cluster.owner slot) s.cluster.myself) _ s.cluster h h))

  -- What a node learns of the slots of another keeps its own map of the slots right.
  pub update_slots_config_with-Agrees :
      (rep : Replication R)
      → (sender : Node) → (epoch : ℕ) → (slots : SlotBitmap) → (c : Cluster R) → Agrees c
      → Agrees (update_slots_config_with rep sender epoch slots c)
  unfolding update_slots_config_with
  update_slots_config_with-Agrees rep sender epoch slots c h =
      let our_master = ref_of rep (master_of c (self c)) in
      let claims : Claims rep =
        for_slots slot_count (claim_slot rep sender.ref our_master epoch slots)
          (record { cluster = c; took_from_our_master = false; dirty = [] }) in
      if-Agrees (sender.ref == c.myself) c (settle_claims rep sender.id our_master claims) h (
        settle_claims-Agrees rep sender.id our_master claims (
          for_slots-keep (λ s. Agrees s.cluster) slot_count
            (claim_slot rep sender.ref our_master epoch slots)
            (claim_slot-Agrees rep sender.ref our_master epoch slots)
            (record { cluster = c; took_from_our_master = false; dirty = [] }) h))
