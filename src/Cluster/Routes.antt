-- ===== src/Cluster/Routes.antt =====
-- src/cluster.cpp, `route`: where a command may run.
use epochkv.Prelude.{
  ℕ, ◌+◌, ◌≤◌, ◌≡◌, refl, sym, ◌∙◌, ap, inl, inr, All, [], bytes_eq→eq, ◌⊎◌, List, ◌∷◌, Option,
  none, some, Bool, true, false, not, str, ◌&&◌, ◌||◌, Bytes, ◌==◌, if◌then◌else◌, length, arith,
}
use epochkv.Slots.{key_hash_slot}
use epochkv.Store.{Store, contains, is_some}
use epochkv.Store.Visible.{IsValid, visible}
use epochkv.Store.Expiry.{lookup-Looks}
use epochkv.Cluster.{Cluster, is_null}
use epochkv.Cluster.Bus.{self}
use epochkv.Cluster.Routing.{
  same_slot, count_missing, Route, run, refuse, redirect, decide, target, reads_here, route_slot,
  route_owner, route,
}

abbrev pub is_run : Route → Bool
is_run run = true
is_run (refuse err) = false

abbrev pub counted : Bool → Bool → Bool → ℕ → ℕ
counted mine stays whole n = if mine && not stays || not whole then n else 0

-- `mine`: this node is the owner; `stays` and `whole`: no slot is on its way out or in.
slot-run :
    (mine stays whole asking reads : Bool)
    → (n count : ℕ) → (ask moved : Route) → (is_run ask ≡ false)
    → (is_run moved ≡ false)
    → (is_run (
          decide
            (mine && not stays)
            (not whole)
            (counted mine stays whole n)
            count
            asking
            (mine || reads)
            ask
            moved)
        ≡ true)
    → ((mine ≡ true) → (stays ≡ false) → n ≡ 0)
      × (((whole ≡ false) × (asking ≡ true) × ((count ≤ 1) ⊎ (n ≡ 0)))
          ⊎ ((mine ≡ true) ⊎ (reads ≡ true)))
unfolding decide
slot-run mine stays whole asking reads n count ask moved a m h = ground (arith, h, a, m)

-- All of the keys can be read.
abbrev pub Readable : Store → List Bytes → Type 0
Readable s keys = All (λ k. is_some (visible s k) ≡ true) keys

none_missing :
    (found : Bool) → (n : ℕ) → ((if found then 0 else 1) + n ≡ 0) → (found ≡ true) × (n ≡ 0)
none_missing found n h = ground (arith, h)

All-sees :
    (s s' : Store)
    → (keys : List Bytes) → ((q : Bytes) → visible s' q ≡ visible s q)
    → Readable s' keys
    → Readable s keys
All-sees s s' [] sees h = tt
All-sees s s' (k ∷ ks) sees (h, hs) = (ap is_some (sym (sees k)) ∙ h, All-sees s s' ks sees hs)

count_missing-Readable :
    (keys : List Bytes) → (s : Store) → IsValid s → ((count_missing keys s).1 ≡ 0) → Readable s keys
unfolding count_missing contains
count_missing-Readable [] s v h = tt
count_missing-Readable (k ∷ ks) s v h =
    let l = lookup-Looks s k false v in
    let (found, rest) = none_missing _ _ h in
    (
      ap is_some (sym l.seen) ∙ found,
      All-sees s _ ks l.quiet.sees (count_missing-Readable ks _ l.quiet.valid rest),
    )

same_slot-All :
    (slot : ℕ)
    → (keys : List Bytes) → (same_slot slot keys ≡ true)
    → All (λ q. key_hash_slot q ≡ slot) keys
unfolding same_slot
same_slot-All slot [] h = tt
same_slot-All slot (k ∷ ks) h = (ground (arith, h), same_slot-All slot ks (ground (arith, h)))

reads :
    (write readonly replica same : Bool)
    → ((not write && readonly && replica && same) ≡ true)
    → (write ≡ false) × (readonly ≡ true) × (replica ≡ true) × (same ≡ true)
reads write readonly replica same h = ground (arith, h)

module _ {R : Type 0} where
  -- A read that a replica serves: its client accepts it, and the owner is the replica's master.
  pub record Reads (c : Cluster R) (write readonly : Bool) (owner : ℕ) : Type 0 where
    pub is_read : write ≡ false
    pub accepted : readonly ≡ true
    pub is_replica : (self c).is_replica ≡ true
    pub our_master : (self c).master_id ≡ (target c (some owner)).id

  reads_here-Reads :
      (c : Cluster R)
      → (write readonly : Bool) → (owner : ℕ)
      → (reads_here c write readonly (target c (some owner)) ≡ true)
      → Reads c write readonly owner
  unfolding reads_here
  reads_here-Reads c write readonly owner h =
      let (a, b, d, e) = reads write readonly (self c).is_replica _ h in
      record {
        is_read = a;
        accepted = b;
        is_replica = d;
        our_master = bytes_eq→eq (self c).master_id (target c (some owner)).id e;
      }

  -- What lets a command run here: this node may serve the slot of its keys.
  pub record Serves (c : Cluster R) (slot : ℕ) (keys : List Bytes) (write asking readonly : Bool)
      : Type 0 where
    pub owner : ℕ
    pub is_owner : c.owner slot ≡ some owner
    pub all_here :
        (owner ≡ c.myself) → (is_null (c.migrating_to slot) ≡ false) → Readable c.store keys
    pub has_right :
        ((is_null (c.importing_from slot) ≡ false)
          × (asking ≡ true)
          × ((length keys ≤ 1) ⊎ Readable c.store keys))
        ⊎ ((owner ≡ c.myself) ⊎ Reads c write readonly owner)

  slot_served :
      (c : Cluster R)
      → (slot : ℕ) → (keys : List Bytes) → (write asking readonly : Bool) → (r : ℕ)
      → (is_run (route_slot c slot keys write asking readonly r).1 ≡ true)
      → (((r == c.myself) ≡ true)
          → (is_null (c.migrating_to slot) ≡ false)
          → (count_missing keys c.store).1 ≡ 0)
        × (((is_null (c.importing_from slot) ≡ false)
              × (asking ≡ true)
              × ((length keys ≤ 1) ⊎ ((count_missing keys c.store).1 ≡ 0)))
            ⊎ (((r == c.myself) ≡ true) ⊎ (reads_here c write readonly (target c (some r)) ≡ true)))
  unfolding route_slot redirect
  slot_served c slot keys write asking readonly r h =
      slot-run (r == c.myself) (is_null (c.migrating_to slot)) (is_null (c.importing_from slot))
        asking (reads_here c write readonly (target c (some r))) (count_missing keys c.store).1
        (length keys) (redirect (str "ASK") slot (target c (c.migrating_to slot)))
        (redirect (str "MOVED") slot (target c (some r))) refl refl h

  has_right-Serves :
      (c : Cluster R)
      → (slot : ℕ) → (keys : List Bytes) → (write asking readonly : Bool) → (r : ℕ)
      → IsValid c.store
      → ((is_null (c.importing_from slot) ≡ false)
          × (asking ≡ true)
          × ((length keys ≤ 1) ⊎ ((count_missing keys c.store).1 ≡ 0)))
        ⊎ (((r == c.myself) ≡ true) ⊎ (reads_here c write readonly (target c (some r)) ≡ true))
      → ((is_null (c.importing_from slot) ≡ false)
          × (asking ≡ true)
          × ((length keys ≤ 1) ⊎ Readable c.store keys))
        ⊎ ((r ≡ c.myself) ⊎ Reads c write readonly r)
  has_right-Serves c slot keys write asking readonly r v (inl (a, b, inl few)) = inl (a, b, inl few)
  has_right-Serves c slot keys write asking readonly r v (inl (a, b, inr n)) =
      inl (a, b, inr (count_missing-Readable keys c.store v n))
  has_right-Serves c slot keys write asking readonly r v (inr (inl e)) =
      inr (inl (ground (arith, e)))
  has_right-Serves c slot keys write asking readonly r v (inr (inr e)) =
      inr (inr (reads_here-Reads c write readonly r e))

  route_slot-Serves :
      (c : Cluster R)
      → (slot : ℕ) → (keys : List Bytes) → (write asking readonly : Bool) → (r : ℕ)
      → IsValid c.store
      → (c.owner slot ≡ some r)
      → (is_run (route_slot c slot keys write asking readonly r).1 ≡ true)
      → Serves c slot keys write asking readonly
  route_slot-Serves c slot keys write asking readonly r v e h =
      let (here, right) = slot_served c slot keys write asking readonly r h in
      record {
        owner = r;
        is_owner = e;
        all_here = λ mine moving.
            count_missing-Readable keys c.store v (here (ground (arith, mine)) moving);
        has_right = has_right-Serves c slot keys write asking readonly r v right;
      }

  if_ok-run :
      (c : Cluster R)
      → (same ok : Bool) → (a b : Bytes) → (rest : Cluster R × Route)
      → (is_run (if not same then (c, refuse a) else if not ok then (c, refuse b) else rest).1
          ≡ true)
      → (same ≡ true) × (ok ≡ true) × (is_run (rest.1) ≡ true)
  if_ok-run c true true a b rest h = (refl, refl, h)
  if_ok-run c true false a b rest h = absurd (ground (arith, h))
  if_ok-run c false ok a b rest h = absurd (ground (arith, h))

  route_owner-Serves :
      (c : Cluster R)
      → (slot : ℕ) → (keys : List Bytes) → (write asking readonly : Bool) → (o : Option ℕ)
      → IsValid c.store
      → (c.owner slot ≡ o)
      → (is_run (route_owner c slot keys write asking readonly o).1 ≡ true)
      → Serves c slot keys write asking readonly
  unfolding route_owner
  route_owner-Serves c slot keys write asking readonly none v e h = absurd (ground (arith, h))
  route_owner-Serves c slot keys write asking readonly (some r) v e h =
      route_slot-Serves c slot keys write asking readonly r v e h

  -- On a well-formed keyspace a command with keys runs here only if its keys hash to one slot, the
  -- cluster is up, and the slot has an owner. That is this node, and then all keys can be read here if
  -- the slot is on its way out; or the slot is on its way in and the client asked, and the command has
  -- one key or all of them can be read here; or the command is a read, the client accepts reads from a
  -- replica, and this node is a replica whose master is the owner.
  pub route-Serves :
      (c : Cluster R)
      → (k : Bytes) → (ks : List Bytes) → (write asking readonly : Bool) → IsValid c.store
      → (is_run (route c (k ∷ ks) write asking readonly).1 ≡ true)
      → All (λ q. key_hash_slot q ≡ key_hash_slot k) ks
        × (c.state_ok ≡ true)
        × Serves c (key_hash_slot k) (k ∷ ks) write asking readonly
  unfolding route
  route-Serves c k ks write asking readonly v h =
      let slot = key_hash_slot k in
      let (same, ok, runs) =
        if_ok-run c (same_slot slot ks) c.state_ok
          (str "CROSSSLOT Keys in request don't hash to the same slot")
          (str "CLUSTERDOWN The cluster is down")
          (route_owner c slot (k ∷ ks) write asking readonly (c.owner slot)) h in
      (
        same_slot-All slot ks same,
        ok,
        route_owner-Serves c slot (k ∷ ks) write asking readonly (c.owner slot) v refl runs,
      )
