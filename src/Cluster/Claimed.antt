-- ===== src/Cluster/Claimed.antt =====
-- src/cluster.cpp, `update_slots_config_with`: the owners of the slots when a node's claims were heard.
use epochkv.Prelude.{
  ℕ, ap, zero, suc, ◌<◌, ◌≡◌, refl, sym, ◌∙◌, ◌⊎◌, inl, inr, List, [], Option, none, some, Bool,
  true, false, not, ◌&&◌, ◌||◌, Bytes, ◌==◌, ltb, if◌then◌else◌, Bool-cases, arith,
}
use epochkv.ClusterMsg.{SlotBitmap, slot_count}
use epochkv.Cluster.{Node, Cluster, Replication, points_to, is_null}
use epochkv.Cluster.Nodes.{for_slots, master_of, find_ref}
use epochkv.Cluster.Bus.{self}
use epochkv.Cluster.State.{owner_node}
use epochkv.Cluster.Config.{
  Claims, beats, claim_slot, ref_of, delete_slots, set_as_replica_of, settle_claims,
  update_slots_config_with,
}
use epochkv.Cluster.Demotion.{Knows, IsReplicaOf, claim_slot-Knows, set_as_replica_of-IsReplicaOf}
use epochkv.Cluster.Releasing.{Stays, Released, set_as_replica_of-Released, delete_slots-owner}
use epochkv.Cluster.SlotMap.{for_slots-keep}
use epochkv.Cluster.Claiming.{
  is_claimable, Claimed, take_slot-Claimed, skip_slot-Claimed, same-is_claimable,
}

-- The tests of the loop.
passes : (a b d e : Bool) → ((a && not b && d && e) ≡ true) → (not a || b || not d || not e) ≡ false
passes a b d e h = ground (arith, h)

stops : (a b d e : Bool) → ((a && not b && d && e) ≡ false) → (not a || b || not d || not e) ≡ true
stops a b d e h = ground (arith, h)

module _ {R : Type 0} (rep : Replication R) where
  claim_slot-Claimed :
      (c : Cluster R)
      → (sender : ℕ) → (our_master : Option ℕ) → (epoch : ℕ) → (slots : SlotBitmap) → (n : ℕ)
      → (s : Claims rep) → Claimed rep c sender epoch slots n s.cluster
      → Claimed rep c sender epoch slots
          (suc n)
          (claim_slot rep sender our_master epoch slots n s).cluster
  unfolding claim_slot is_claimable
  claim_slot-Claimed c sender our_master epoch slots n s k =
      elim (Bool-cases (is_claimable rep s.cluster sender epoch slots n)) [
        | inl e ↦
            rw
              (passes (slots n) (points_to (s.cluster.owner n) sender)
                (is_null (s.cluster.importing_from n)) (beats rep epoch (owner_node s.cluster n)) e)
              (take_slot-Claimed rep c sender our_master epoch slots n s
                (sym (same-is_claimable rep c sender epoch slots n s.cluster k) ∙ e) k)
        | inr e ↦
            rw
              (stops (slots n) (points_to (s.cluster.owner n) sender)
                (is_null (s.cluster.importing_from n)) (beats rep epoch (owner_node s.cluster n)) e)
              (skip_slot-Claimed rep c sender epoch slots n s.cluster
                (sym (same-is_claimable rep c sender epoch slots n s.cluster k) ∙ e) k)
      ]

  loop-Claimed :
      (c : Cluster R)
      → (sender : ℕ) → (our_master : Option ℕ) → (epoch : ℕ) → (slots : SlotBitmap) → (n : ℕ)
      → (s : Claims rep) → (s.cluster ≡ c)
      → Claimed rep c sender epoch slots n
          (for_slots n (claim_slot rep sender our_master epoch slots) s).cluster
  unfolding for_slots
  loop-Claimed c sender our_master epoch slots zero s h = rw h (record {
    owners = λ i. grind arith;
    same_importing = λ i. refl;
    same_epochs = λ r. refl;
    same_myself = refl;
  })
  loop-Claimed c sender our_master epoch slots (suc n) s h =
      claim_slot-Claimed c sender our_master epoch slots n
        (for_slots n (claim_slot rep sender our_master epoch slots) s)
        (loop-Claimed c sender our_master epoch slots n s h)

-- The owner of a slot behind the claims of another node: it keeps it, or it was this node, which is
-- that node's replica now.
abbrev pub Left : {R : Type 0} → Bytes → ℕ → Option ℕ → Cluster R → ℕ → Type 0
Left id myself old c i =
    (c.owner i ≡ old) ⊎ ((old ≡ some myself) × (c.owner i ≡ none) × IsReplicaOf id c)

settled :
    (D : Type 0)
    → (myself me sender i : ℕ) → (claimable : Bool) → (before claimed after : Option ℕ)
    → ((sender == myself) ≡ false)
    → i < slot_count
    → (claimed ≡ (if ltb i slot_count && claimable then some sender else before))
    → (me ≡ myself)
    → (after ≡ claimed) ⊎ ((claimed ≡ some me) × (after ≡ none) × D)
    → ((claimable ≡ true) → after ≡ some sender)
      × ((claimable ≡ false) → (after ≡ before) ⊎ ((before ≡ some myself) × (after ≡ none) × D))
settled D myself me sender i claimable before claimed after e h k m (inl q) =
    (λ t. ground (arith, h, k, q, t), λ t. inl (ground (arith, h, k, q, t)))
settled D myself me sender i claimable before claimed after e h k m (inr (mine, gone, d)) = (
  λ t. absurd (ground (arith, e, h, k, m, mine, t)),
  λ t. inr (ground (arith, h, k, m, mine, t), gone, d),
)

module _ {R : Type 0} where
  if-Left :
      (id : Bytes)
      → (myself : ℕ) → (old : Option ℕ) → (i : ℕ) → (b : Bool) → (x y : Cluster R)
      → Left id myself old x i
      → Left id myself old y i
      → Left id myself old (if b then x else y) i
  if-Left id myself old i true x y h k = h
  if-Left id myself old i false x y h k = k

  Released-Left :
      (id : Bytes)
      → (c c' : Cluster R) → (i : ℕ) → Released c c'
      → IsReplicaOf id c'
      → Left id c.myself (c.owner i) c' i
  unfolding Stays
  Released-Left id c c' i r d = elim (r.stays i) [
    | inl same ↦ inl same
    | inr (mine, gone) ↦ inr (mine, gone, d)
  ]

module _ {R : Type 0} (rep : Replication R) where
  settle_claims-Left :
      (id : Bytes)
      → (our_master : Option ℕ) → (s : Claims rep) → (i : ℕ) → Knows s.cluster
      → Left id s.cluster.myself (s.cluster.owner i) (settle_claims rep id our_master s) i
  unfolding settle_claims
  settle_claims-Left id our_master s i k =
      let c = s.cluster in
      let m = c.myself in
      let o = c.owner i in
      if-Left id m o i _ _ _
        (if-Left id m o i _ (set_as_replica_of rep id c) c
          (Released-Left id c (set_as_replica_of rep id c) i (set_as_replica_of-Released rep c id)
            (set_as_replica_of-IsReplicaOf rep id c k))
          (inl refl))
        (if-Left id m o i _ (delete_slots rep s.dirty c) c
          (inl (delete_slots-owner rep s.dirty c i)) (inl refl))

  -- The sender gets the slot: it claims it, does not own it, the slot is not being imported here, and
  -- its owner, if any, has an older config epoch.
  unfoldable pub wins : Cluster R → ℕ → ℕ → SlotBitmap → ℕ → Bool
  wins c sender epoch slots slot =
      slots slot
      && not (points_to (c.owner slot) sender)
      && is_null (c.importing_from slot)
      && elim (c.owner slot) [
        | none ↦ true
        | some r ↦ elim (find_ref r c.nodes) [ none ↦ true | some n ↦ ltb n.config_epoch epoch ]
      ]

  beats-older :
      (epoch : ℕ)
      → (o : Option Node)
      → beats rep epoch o ≡ elim o [ none ↦ true | some n ↦ ltb n.config_epoch epoch ]
  unfolding beats
  beats-older epoch none = refl
  beats-older epoch (some n) = refl

  beats_owner-older :
      (epoch : ℕ)
      → (o : Option ℕ) → (ns : List Node)
      → beats rep epoch (elim o [ none ↦ none | some r ↦ find_ref r ns ]) ≡ elim o [
        | none ↦ true
        | some r ↦ elim (find_ref r ns) [ none ↦ true | some n ↦ ltb n.config_epoch epoch ]
      ]
  unfolding beats
  beats_owner-older epoch none ns = refl
  beats_owner-older epoch (some r) ns = beats-older epoch (find_ref r ns)

  is_claimable-wins :
      (c : Cluster R)
      → (sender epoch : ℕ) → (slots : SlotBitmap) → (slot : ℕ)
      → is_claimable rep c sender epoch slots slot ≡ wins c sender epoch slots slot
  unfolding is_claimable wins owner_node
  is_claimable-wins c sender epoch slots slot =
      ap
        (λ b.
          slots slot
          && not (points_to (c.owner slot) sender)
          && is_null (c.importing_from slot)
          && b)
        (beats_owner-older epoch (c.owner slot) c.nodes)

  loop-Knows :
      (c : Cluster R)
      → (sender : ℕ) → (our_master : Option ℕ) → (epoch : ℕ) → (slots : SlotBitmap)
      → (s : Claims rep) → Knows s.cluster
      → Knows (for_slots slot_count (claim_slot rep sender our_master epoch slots) s).cluster
  loop-Knows c sender our_master epoch slots s k =
      for_slots-keep (λ s. Knows s.cluster) slot_count
        (claim_slot rep sender our_master epoch slots)
        (claim_slot-Knows rep sender our_master epoch slots) s k

  -- When another node tells its slots under its config epoch, the map of this node, which is in its own
  -- table of nodes, gives it the slots that it claims and does not own yet and that are not being
  -- imported here, if they had no owner or one under an older epoch. Every other slot keeps its owner,
  -- unless that was this node, and this node is now a replica of the other.
  pub update_slots_config_with-owner :
      (sender : Node)
      → (epoch : ℕ) → (slots : SlotBitmap) → (c : Cluster R) → (i : ℕ) → Knows c
      → ((sender.ref == c.myself) ≡ false)
      → i < slot_count
      → ((wins c sender.ref epoch slots i ≡ true)
          → (update_slots_config_with rep sender epoch slots c).owner i ≡ some sender.ref)
        × ((wins c sender.ref epoch slots i ≡ false)
            → Left sender.id c.myself
                (c.owner i)
                (update_slots_config_with rep sender epoch slots c)
                i)
  unfolding update_slots_config_with
  update_slots_config_with-owner sender epoch slots c i known other small =
      let our_master = ref_of rep (master_of c (self c)) in
      let s : Claims rep = record { cluster = c; took_from_our_master = false; dirty = [] } in
      let claims : Claims rep =
        for_slots slot_count (claim_slot rep sender.ref our_master epoch slots) s in
      let k = loop-Claimed rep c sender.ref our_master epoch slots slot_count s refl in
      let r =
        settle_claims-Left sender.id our_master claims i
          (loop-Knows c sender.ref our_master epoch slots s known) in
      rw (other, ← is_claimable-wins c sender.ref epoch slots i)
        (settled _ c.myself claims.cluster.myself sender.ref i
          (is_claimable rep c sender.ref epoch slots i) (c.owner i) (claims.cluster.owner i) _ other
          small (k.owners i) k.same_myself r)
