-- ===== src/Cluster/Demotion.antt =====
-- src/cluster.cpp, `set_as_replica_of`: the node that calls it is a replica afterwards.
use epochkv.Prelude.{
  ℕ, ◌≡◌, refl, ap, ◌∙◌, inl, inr, List, [], ◌∷◌, Option, none, some, Bool, true, false, Bytes,
  ◌==◌, if◌then◌else◌, Bool-cases, Option-cases, arith,
}
use epochkv.Store.{is_some}
use epochkv.ClusterMsg.{SlotBitmap, slot_count}
use epochkv.Cluster.{Node, Cluster, Replication, points_to}
use epochkv.Cluster.Nodes.{
  for_slots, find_ref, update_ref, set_bit, write_bit, set_slot, update, lookup, node_at, save,
}
use epochkv.Cluster.Bus.{self, nobody}
use epochkv.Cluster.State.{pause_writes, reset_manual_failover}
use epochkv.Cluster.Config.{
  Claims, follow_node, follow_master, release_slot, set_as_replica_of, take_slot, claim_slot,
}
use epochkv.Cluster.SlotMap.{for_slots-keep}

find_ref-update_ref :
    (r q : ℕ)
    → (f : Node → Node) → (ns : List Node) → ((n : Node) → (f n).ref ≡ n.ref)
    → is_some (find_ref r (update_ref q f ns)) ≡ is_some (find_ref r ns)
unfolding find_ref update_ref
find_ref-update_ref r q f [] a = refl
find_ref-update_ref r q f (n ∷ ns) a = elim (Bool-cases (n.ref == q)) [
  | inl t ↦ elim (Bool-cases (n.ref == r)) [
    | inl u ↦ rw (t, a n, u) refl
    | inr u ↦ rw (t, a n, u) (find_ref-update_ref r q f ns a)
  ]
  | inr t ↦ elim (Bool-cases (n.ref == r)) [
    | inl u ↦ rw (t, u) refl
    | inr u ↦ rw (t, u) (find_ref-update_ref r q f ns a)
  ]
]

taken : (b : Bool) → (x y : Option Node) → (b ≡ true) → (if b then x else y) ≡ x
taken true x y h = refl
taken false x y h = absurd (ground (arith, h))

find_ref-updated :
    (r : ℕ)
    → (f : Node → Node) → (n : Node) → (ns : List Node) → ((m : Node) → (f m).ref ≡ m.ref)
    → (find_ref r ns ≡ some n)
    → find_ref r (update_ref r f ns) ≡ some (f n)
unfolding find_ref update_ref
find_ref-updated r f n [] a e = absurd (ground (arith, e))
find_ref-updated r f n (m ∷ ns) a e = elim (Bool-cases (m.ref == r)) [
  | inl t ↦
      let same : some m ≡ some n = rw t at e in
      rw t (
        taken ((f m).ref == r) (some (f m)) _ (ap (λ q. q == r) (a m) ∙ t)
        ∙ ap (λ o. elim o [ none ↦ none | some x ↦ some (f x) ]) same)
  | inr t ↦
      let rest : find_ref r ns ≡ some n = rw t at e in rw (t, t) (find_ref-updated r f n ns a rest)
]

find_ref-write_bit :
    (r : ℕ)
    → (b : Bool) → (slot : ℕ) → (o : Option ℕ) → (ns : List Node)
    → is_some (find_ref r (write_bit b slot o ns)) ≡ is_some (find_ref r ns)
unfolding write_bit
find_ref-write_bit r b slot none ns = refl
find_ref-write_bit r b slot (some q) ns = find_ref-update_ref r q (set_bit b slot) ns (λ n. refl)

module _ {R : Type 0} where
  -- `myself` is in the table of nodes.
  unfoldable pub Knows : Cluster R → Type 0
  Knows c = is_some (find_ref c.myself c.nodes) ≡ true

  -- The node is a replica of the master with the ID.
  unfoldable pub IsReplicaOf : Bytes → Cluster R → Type 0
  IsReplicaOf id c =
      ((self c).is_master ≡ false) × ((self c).is_replica ≡ true) × ((self c).master_id ≡ id)

  if-Knows : (b : Bool) → (x y : Cluster R) → Knows x → Knows y → Knows (if b then x else y)
  if-Knows true x y h k = h
  if-Knows false x y h k = k

  set_slot-Knows :
      (slot : ℕ) → (o : Option ℕ) → (c : Cluster R) → Knows c → Knows (set_slot slot o c)
  unfolding Knows set_slot
  set_slot-Knows slot o c h =
      find_ref-write_bit c.myself true slot o (write_bit false slot (c.owner slot) c.nodes)
      ∙ (find_ref-write_bit c.myself false slot (c.owner slot) c.nodes ∙ h)

  module _ (rep : Replication R) where
    reset_manual_failover-Knows : (c : Cluster R) → Knows c → Knows (reset_manual_failover rep c)
    unfolding reset_manual_failover pause_writes Knows
    reset_manual_failover-Knows c h = if-Knows c.writes_paused (pause_writes rep false c) c h h

    release_slot-Knows : (slot : ℕ) → (c : Cluster R) → Knows c → Knows (release_slot rep slot c)
    unfolding release_slot Knows
    release_slot-Knows slot c h =
        if-Knows (points_to (c.owner slot) c.myself) (set_slot slot none c) c
          (set_slot-Knows slot none c h) h

    if_claims-Knows :
        (b : Bool)
        → (x y : Claims rep) → Knows x.cluster
        → Knows y.cluster
        → Knows (if b then x else y).cluster
    if_claims-Knows true x y h k = h
    if_claims-Knows false x y h k = k

    pub claim_slot-Knows :
        (sender : ℕ)
        → (our_master : Option ℕ) → (epoch : ℕ) → (slots : SlotBitmap) → (slot : ℕ)
        → (s : Claims rep) → Knows s.cluster
        → Knows (claim_slot rep sender our_master epoch slots slot s).cluster
    unfolding claim_slot take_slot Knows save
    claim_slot-Knows sender our_master epoch slots slot s h =
        if_claims-Knows _ s (take_slot rep sender our_master slot s) h (
          set_slot-Knows slot (some sender) _
            (if-Knows (points_to (s.cluster.owner slot) s.cluster.myself) _ s.cluster h h))

    if-IsReplicaOf :
        (id : Bytes)
        → (b : Bool) → (x y : Cluster R) → IsReplicaOf id x
        → IsReplicaOf id y
        → IsReplicaOf id (if b then x else y)
    if-IsReplicaOf id true x y h k = h
    if-IsReplicaOf id false x y h k = k

    known-IsReplicaOf :
        (id : Bytes)
        → (o : Option Node) → (d : Cluster R) → (f : Node → Cluster R) → IsReplicaOf id d
        → ((n : Node) → IsReplicaOf id (f n))
        → IsReplicaOf id (elim o [ none ↦ d | some n ↦ f n ])
    known-IsReplicaOf id none d f h k = h
    known-IsReplicaOf id (some n) d f h k = k n

    follow_master-IsReplicaOf :
        (id : Bytes) → (c : Cluster R) → IsReplicaOf id c → IsReplicaOf id (follow_master rep c)
    unfolding follow_master follow_node IsReplicaOf self node_at
    follow_master-IsReplicaOf id c h = if-IsReplicaOf id _ c _ h (
        known-IsReplicaOf id (lookup c (self c).master_id) c (λ n. follow_node rep n c) h
          (λ n. if-IsReplicaOf id _ c _ h h))

    self-found : (c : Cluster R) → (n : Node) → (find_ref c.myself c.nodes ≡ some n) → self c ≡ n
    unfolding self node_at
    self-found c n e = ap (λ o. elim o [ none ↦ nobody | some m ↦ m ]) e

    demoted-IsReplicaOf :
        (id : Bytes)
        → (c : Cluster R) → Knows c
        → IsReplicaOf id (
            update c c.myself
              (λ n. record n { is_master = false; is_replica = true; master_id = id }))
    unfolding Knows IsReplicaOf update
    demoted-IsReplicaOf id c h = elim (Option-cases (find_ref c.myself c.nodes)) [
      | inl e ↦ absurd (ground (arith, e, h))
      | inr (n, e) ↦
          let f : Node → Node =
            λ m. record m { is_master = false; is_replica = true; master_id = id } in
          let s =
            self-found (update c c.myself f) (f n)
              (find_ref-updated c.myself f n c.nodes (λ m. refl) e) in
          (
            ap (λ (m : Node). m.is_master) s,
            ap (λ (m : Node). m.is_replica) s,
            ap (λ (m : Node). m.master_id) s,
          )
    ]

    pub set_as_replica_of-IsReplicaOf :
        (id : Bytes) → (c : Cluster R) → Knows c → IsReplicaOf id (set_as_replica_of rep id c)
    unfolding set_as_replica_of save IsReplicaOf self node_at
    set_as_replica_of-IsReplicaOf id c h =
        let d = for_slots slot_count (release_slot rep) (reset_manual_failover rep c) in
        follow_master-IsReplicaOf id
          (update d d.myself
            (λ n. record n { is_master = false; is_replica = true; master_id = id }))
          (demoted-IsReplicaOf id d (
            for_slots-keep Knows slot_count (release_slot rep) release_slot-Knows
              (reset_manual_failover rep c) (reset_manual_failover-Knows c h)))
