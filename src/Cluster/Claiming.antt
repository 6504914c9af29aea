-- ===== src/Cluster/Claiming.antt =====
-- src/cluster.cpp, `update_slots_config_with`: which slots a node takes over from its claims.
use epochkv.Prelude.{
  ℕ, suc, ◌≡◌, refl, ◌∙◌, inl, inr, List, [], ◌∷◌, Option, none, some, Bool, true, false, not, ◌&&◌,
  ◌==◌, ltb, if◌then◌else◌, Bool-cases, arith,
}
use epochkv.ClusterMsg.{SlotBitmap}
use epochkv.Cluster.{Node, Cluster, Replication, points_to, is_null}
use epochkv.Cluster.Nodes.{find_ref, update_ref, set_bit, write_bit, put, set_slot, save}
use epochkv.Cluster.State.{owner_node}
use epochkv.Cluster.Config.{Claims, beats, take_slot}

module _ {R : Type 0} (rep : Replication R) where
  beats-update_ref :
      (e r q : ℕ)
      → (b : Bool) → (slot : ℕ) → (ns : List Node)
      → beats rep e (find_ref r (update_ref q (set_bit b slot) ns)) ≡ beats rep e (find_ref r ns)
  unfolding find_ref update_ref beats
  beats-update_ref e r q b slot [] = refl
  beats-update_ref e r q b slot (n ∷ ns) = elim (Bool-cases (n.ref == q)) [
    | inl t ↦ elim (Bool-cases (n.ref == r)) [
      | inl u ↦ rw (t, u) refl
      | inr u ↦ rw (t, u) (beats-update_ref e r q b slot ns)
    ]
    | inr t ↦ elim (Bool-cases (n.ref == r)) [
      | inl u ↦ rw (t, u) refl
      | inr u ↦ rw (t, u) (beats-update_ref e r q b slot ns)
    ]
  ]

  beats-write_bit :
      (e r : ℕ)
      → (b : Bool) → (slot : ℕ) → (o : Option ℕ) → (ns : List Node)
      → beats rep e (find_ref r (write_bit b slot o ns)) ≡ beats rep e (find_ref r ns)
  unfolding write_bit
  beats-write_bit e r b slot none ns = refl
  beats-write_bit e r b slot (some q) ns = beats-update_ref e r q b slot ns

  -- The sender gets the slot: it claims it, does not own it, the slot is not being imported here, and its
  -- owner, if any, has an older config.
  unfoldable pub is_claimable : Cluster R → ℕ → ℕ → SlotBitmap → ℕ → Bool
  is_claimable c sender epoch slots slot =
      slots slot
      && not (points_to (c.owner slot) sender)
      && is_null (c.importing_from slot)
      && beats rep epoch (owner_node c slot)

  -- What the loop keeps of the state that it started in, when the slots below `n` were gone through.
  pub record Claimed (c : Cluster R) (sender epoch : ℕ) (slots : SlotBitmap) (n : ℕ)
      (c' : Cluster R) : Type 0 where
    pub owners :
        (i : ℕ)
        → c'.owner i
          ≡ (if ltb i n && is_claimable c sender epoch slots i then some sender else c.owner i)
    pub same_importing : (i : ℕ) → c'.importing_from i ≡ c.importing_from i
    pub same_epochs :
        (r : ℕ) → beats rep epoch (find_ref r c'.nodes) ≡ beats rep epoch (find_ref r c.nodes)
    pub same_myself : c'.myself ≡ c.myself

  beats-owner :
      (e : ℕ)
      → (o o' : Option ℕ) → (ns ns' : List Node) → o' ≡ o
      → ((r : ℕ) → beats rep e (find_ref r ns') ≡ beats rep e (find_ref r ns))
      → beats rep e (elim o' [ none ↦ none | some r ↦ find_ref r ns' ])
        ≡ beats rep e (elim o [ none ↦ none | some r ↦ find_ref r ns ])
  beats-owner e none o' ns ns' h same = rw h refl
  beats-owner e (some r) o' ns ns' h same = rw h (same r)

  -- The slots below `n` and `n` itself.
  kept_owner :
      (owner owner' : ℕ → Option ℕ)
      → (claimable : ℕ → Bool) → (sender : Option ℕ) → (n : ℕ) → (claimable n ≡ false)
      → ((i : ℕ) → owner' i ≡ (if ltb i n && claimable i then sender else owner i))
      → (i : ℕ) → owner' i ≡ (if ltb i (suc n) && claimable i then sender else owner i)
  kept_owner owner owner' claimable sender n e k i = grind (arith, k i, e)

  new_owner :
      (owner owner' : ℕ → Option ℕ)
      → (claimable : ℕ → Bool) → (sender : Option ℕ) → (n : ℕ) → (claimable n ≡ true)
      → ((i : ℕ) → owner' i ≡ (if ltb i n && claimable i then sender else owner i))
      → (i : ℕ) → put owner' n sender i ≡ (if ltb i (suc n) && claimable i then sender else owner i)
  new_owner owner owner' claimable sender n e k i = grind (arith, k i, e)

  own_slot :
      (owner owner' : ℕ → Option ℕ)
      → (claimable : ℕ → Bool) → (sender : Option ℕ) → (n : ℕ)
      → ((i : ℕ) → owner' i ≡ (if ltb i n && claimable i then sender else owner i))
      → owner' n ≡ owner n
  own_slot owner owner' claimable sender n k = ground (arith, k n)

  set_slot-Claimed :
      (c : Cluster R)
      → (sender epoch : ℕ) → (slots : SlotBitmap) → (n : ℕ) → (d : Cluster R)
      → (is_claimable c sender epoch slots n ≡ true)
      → Claimed c sender epoch slots n d
      → Claimed c sender epoch slots (suc n) (save (set_slot n (some sender) d))
  unfolding save set_slot
  set_slot-Claimed c sender epoch slots n d e k = record {
    owners =
        new_owner c.owner d.owner (is_claimable c sender epoch slots) (some sender) n e k.owners;
    same_importing = k.same_importing;
    same_epochs = λ r.
        beats-write_bit epoch r true n (some sender) (write_bit false n (d.owner n) d.nodes)
        ∙ (beats-write_bit epoch r false n (d.owner n) d.nodes ∙ k.same_epochs r);
    same_myself = k.same_myself;
  }

  if-Claimed :
      (c : Cluster R)
      → (sender epoch : ℕ) → (slots : SlotBitmap) → (n : ℕ) → (b : Bool) → (x y : Cluster R)
      → Claimed c sender epoch slots n x
      → Claimed c sender epoch slots n y
      → Claimed c sender epoch slots n (if b then x else y)
  if-Claimed c sender epoch slots n true x y h k = h
  if-Claimed c sender epoch slots n false x y h k = k

  pub take_slot-Claimed :
      (c : Cluster R)
      → (sender : ℕ) → (our_master : Option ℕ) → (epoch : ℕ) → (slots : SlotBitmap) → (n : ℕ)
      → (s : Claims rep) → (is_claimable c sender epoch slots n ≡ true)
      → Claimed c sender epoch slots n s.cluster
      → Claimed c sender epoch slots (suc n) (take_slot rep sender our_master n s).cluster
  unfolding take_slot
  take_slot-Claimed c sender our_master epoch slots n s e k =
      let marked = record s.cluster {
        migrating_to = put s.cluster.migrating_to n none;
        todo_broadcast = true;
      } in
      let k' : Claimed c sender epoch slots n marked = record {
        owners = k.owners;
        same_importing = k.same_importing;
        same_epochs = k.same_epochs;
        same_myself = k.same_myself;
      } in
      set_slot-Claimed c sender epoch slots n _ e (
        if-Claimed c sender epoch slots n (points_to (s.cluster.owner n) s.cluster.myself) marked
          s.cluster k' k)

  pub skip_slot-Claimed :
      (c : Cluster R)
      → (sender epoch : ℕ) → (slots : SlotBitmap) → (n : ℕ) → (d : Cluster R)
      → (is_claimable c sender epoch slots n ≡ false)
      → Claimed c sender epoch slots n d
      → Claimed c sender epoch slots (suc n) d
  skip_slot-Claimed c sender epoch slots n d e k = record {
    owners =
        kept_owner c.owner d.owner (is_claimable c sender epoch slots) (some sender) n e k.owners;
    same_importing = k.same_importing;
    same_epochs = k.same_epochs;
    same_myself = k.same_myself;
  }

  -- The test of the loop, in the state that it has come to.
  pub same-is_claimable :
      (c : Cluster R)
      → (sender epoch : ℕ) → (slots : SlotBitmap) → (n : ℕ) → (d : Cluster R)
      → Claimed c sender epoch slots n d
      → is_claimable d sender epoch slots n ≡ is_claimable c sender epoch slots n
  unfolding is_claimable owner_node
  same-is_claimable c sender epoch slots n d k =
      let own =
        own_slot c.owner d.owner (is_claimable c sender epoch slots) (some sender) n k.owners in
      let b = beats-owner epoch (c.owner n) (d.owner n) c.nodes d.nodes own k.same_epochs in
      rw (b, own, k.same_importing n) refl
