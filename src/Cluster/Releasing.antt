-- ===== src/Cluster/Releasing.antt =====
-- src/cluster.cpp: the owners of the slots when a node gives up its own.
use epochkv.Prelude.{
  ℕ, ◌≡◌, refl, ◌⊎◌, inl, inr, List, [], ◌∷◌, Option, none, some, Bool, true, false, Bytes,
  if◌then◌else◌, Bool-cases, arith,
}
use epochkv.Store.Reclaim.{delete_slot}
use epochkv.ClusterMsg.{slot_count}
use epochkv.Cluster.{Node, Cluster, Replication, points_to}
use epochkv.Cluster.Nodes.{for_slots, put, set_slot, save, update, lookup}
use epochkv.Cluster.Bus.{self}
use epochkv.Cluster.State.{pause_writes, reset_manual_failover}
use epochkv.Cluster.Config.{
  delete_slots, set_as_replica_of, release_slot, follow_master, follow_node,
}
use epochkv.Cluster.SlotMap.{for_slots-keep}

-- An owner that stayed, or was `myself` and is nobody now.
unfoldable pub Stays : ℕ → Option ℕ → Option ℕ → Type 0
Stays myself old new = (new ≡ old) ⊎ ((old ≡ some myself) × (new ≡ none))

release-Stays :
    (myself slot : ℕ)
    → (old now : ℕ → Option ℕ) → ((i : ℕ) → Stays myself (old i) (now i))
    → (i : ℕ) → (points_to (now slot) myself ≡ true)
    → Stays myself (old i) (put now slot none i)
unfolding Stays
release-Stays myself slot old now h i e = grind (arith, h i, h slot, e)

module _ {R : Type 0} where
  pub record Released (c c' : Cluster R) : Type 0 where
    pub stays : (i : ℕ) → Stays c.myself (c.owner i) (c'.owner i)
    pub same_myself : c'.myself ≡ c.myself

  Released-refl : (c : Cluster R) → Released c c
  unfolding Stays
  Released-refl c = record { stays = λ i. inl refl; same_myself = refl }

  if-Released :
      (c : Cluster R)
      → (b : Bool) → (x y : Cluster R) → Released c x
      → Released c y
      → Released c (if b then x else y)
  if-Released c true x y h k = h
  if-Released c false x y h k = k

  known-Released :
      (c : Cluster R)
      → (o : Option Node) → (d : Cluster R) → (f : Node → Cluster R) → Released c d
      → ((n : Node) → Released c (f n))
      → Released c (elim o [ none ↦ d | some n ↦ f n ])
  known-Released c none d f h k = h
  known-Released c (some n) d f h k = k n

module _ {R : Type 0} (rep : Replication R) where
  release_slot-Released :
      (c : Cluster R)
      → (slot : ℕ) → (d : Cluster R) → Released c d
      → Released c (release_slot rep slot d)
  unfolding release_slot set_slot
  release_slot-Released c slot d h = elim (Bool-cases (points_to (d.owner slot) d.myself)) [
    | inl e ↦ rw e (record {
      stays = λ i. release-Stays c.myself slot c.owner d.owner h.stays i (rw (← h.same_myself) e);
      same_myself = h.same_myself;
    })
    | inr e ↦ rw e (record { stays = h.stays; same_myself = h.same_myself })
  ]

  follow_node-Released :
      (c d : Cluster R) → (n : Node) → Released c d → Released c (follow_node rep n d)
  unfolding follow_node
  follow_node-Released c d n h =
      let followed = rep.replicaof n.ip n.port d.store d.replication in
      if-Released c _ d (record d { store = followed.0; replication = followed.1 }) h
        (record { stays = h.stays; same_myself = h.same_myself })

  follow_master-Released : (c d : Cluster R) → Released c d → Released c (follow_master rep d)
  unfolding follow_master
  follow_master-Released c d h = if-Released c _ d _ h (
      known-Released c (lookup d (self d).master_id) d (λ n. follow_node rep n d) h
        (λ n. follow_node-Released c d n h))

  reset_manual_failover-Released : (c : Cluster R) → Released c (reset_manual_failover rep c)
  unfolding reset_manual_failover pause_writes
  reset_manual_failover-Released c =
      let r =
        if-Released c c.writes_paused (pause_writes rep false c) c
          (record { stays = (Released-refl c).stays; same_myself = refl }) (Released-refl c) in
      record { stays = r.stays; same_myself = r.same_myself }

  pub set_as_replica_of-Released :
      (c : Cluster R) → (id : Bytes) → Released c (set_as_replica_of rep id c)
  unfolding set_as_replica_of save update
  set_as_replica_of-Released c id =
      let d = for_slots slot_count (release_slot rep) (reset_manual_failover rep c) in
      let h =
        for_slots-keep (Released c) slot_count (release_slot rep) (release_slot-Released c)
          (reset_manual_failover rep c) (reset_manual_failover-Released c) in
      let r =
        follow_master-Released c
          (update d d.myself
            (λ n. record n { is_master = false; is_replica = true; master_id = id }))
          (record { stays = h.stays; same_myself = h.same_myself }) in
      record { stays = r.stays; same_myself = r.same_myself }

  pub delete_slots-owner :
      (slots : List ℕ) → (d : Cluster R) → (i : ℕ) → (delete_slots rep slots d).owner i ≡ d.owner i
  unfolding delete_slots
  delete_slots-owner [] d i = refl
  delete_slots-owner (slot ∷ slots) d i =
      delete_slots-owner slots (record d { store = (delete_slot d.store slot).0 }) i
