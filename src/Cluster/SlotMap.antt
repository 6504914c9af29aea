-- ===== src/Cluster/SlotMap.antt =====
-- src/cluster.cpp: the owner of each slot and the slots of each node tell the same.
use epochkv.Prelude.{
  ℕ, zero, suc, ◌≡◌, refl, List, [], ◌∷◌, Option, none, some, true, false, ◌==◌, if◌then◌else◌,
  Bool-cases, inl, inr, arith,
}
use epochkv.Cluster.{Node, Cluster, points_to}
use epochkv.Cluster.Nodes.{for_slots, set_bit, write_bit, update_ref, put, set_slot, update}

-- What holds before a loop over slots and is kept by its body holds behind it.
pub for_slots-keep {ℓ} :
    {S : Type 0}
    → (P : S → Type ℓ) → (n : ℕ) → (body : ℕ → S → S) → ((i : ℕ) → (s : S) → P s → P (body i s))
    → (s : S) → P s
    → P (for_slots n body s)
unfolding for_slots
for_slots-keep P zero body keep s h = h
for_slots-keep P (suc n) body keep s h =
    keep n (for_slots n body s) (for_slots-keep P n body keep s h)

-- The bits of a node are the slots that it owns.
unfoldable pub NodeAgrees : (ℕ → Option ℕ) → Node → Type 0
NodeAgrees owner n = (i : ℕ) → n.slots i ≡ points_to (owner i) n.ref

unfoldable pub AllAgree : (ℕ → Option ℕ) → List Node → Type 0
AllAgree owner [] = Unit
AllAgree owner (n ∷ ns) = NodeAgrees owner n × AllAgree owner ns

update_ref-AllAgree :
    (owner owner' : ℕ → Option ℕ)
    → (r : ℕ) → (f : Node → Node)
    → ((n : Node) → NodeAgrees owner n → NodeAgrees owner' (if n.ref == r then f n else n))
    → (ns : List Node) → AllAgree owner ns
    → AllAgree owner' (update_ref r f ns)
unfolding AllAgree update_ref
update_ref-AllAgree owner owner' r f step [] h = tt
update_ref-AllAgree owner owner' r f step (n ∷ ns) (h, hs) =
    (step n h, update_ref-AllAgree owner owner' r f step ns hs)

AllAgree-ext :
    (owner owner' : ℕ → Option ℕ)
    → ((n : Node) → NodeAgrees owner n → NodeAgrees owner' n)
    → (ns : List Node) → AllAgree owner ns
    → AllAgree owner' ns
unfolding AllAgree
AllAgree-ext owner owner' step [] h = tt
AllAgree-ext owner owner' step (n ∷ ns) (h, hs) = (step n h, AllAgree-ext owner owner' step ns hs)

cleared-NodeAgrees :
    (owner : ℕ → Option ℕ)
    → (slot : ℕ) → (owner slot ≡ none)
    → (n : Node) → NodeAgrees owner n
    → NodeAgrees (put owner slot none) n
unfolding NodeAgrees
cleared-NodeAgrees owner slot e n h i = grind (arith, h i, h slot, e)

unset-NodeAgrees :
    (owner : ℕ → Option ℕ)
    → (slot r : ℕ) → (owner slot ≡ some r)
    → (n : Node) → NodeAgrees owner n
    → NodeAgrees (put owner slot none) (if n.ref == r then set_bit false slot n else n)
unfolding NodeAgrees
unset-NodeAgrees owner slot r e n h i = grind (arith, h i, h slot, e)

set-NodeAgrees :
    (owner : ℕ → Option ℕ)
    → (slot r : ℕ) → (n : Node) → NodeAgrees (put owner slot none) n
    → NodeAgrees (put owner slot (some r)) (if n.ref == r then set_bit true slot n else n)
unfolding NodeAgrees
set-NodeAgrees owner slot r n h i = grind (arith, h i, h slot)

unset-AllAgree :
    (owner : ℕ → Option ℕ)
    → (slot : ℕ) → (old : Option ℕ) → (owner slot ≡ old)
    → (ns : List Node) → AllAgree owner ns
    → AllAgree (put owner slot none) (write_bit false slot old ns)
unfolding write_bit
unset-AllAgree owner slot none e ns h =
    AllAgree-ext owner (put owner slot none) (cleared-NodeAgrees owner slot e) ns h
unset-AllAgree owner slot (some r) e ns h =
    update_ref-AllAgree owner (put owner slot none) r (set_bit false slot)
      (unset-NodeAgrees owner slot r e) ns h

set-AllAgree :
    (owner : ℕ → Option ℕ)
    → (slot : ℕ) → (new : Option ℕ) → (ns : List Node) → AllAgree (put owner slot none) ns
    → AllAgree (put owner slot new) (write_bit true slot new ns)
unfolding write_bit
set-AllAgree owner slot none ns h = h
set-AllAgree owner slot (some r) ns h =
    update_ref-AllAgree (put owner slot none) (put owner slot (some r)) r (set_bit true slot)
      (set-NodeAgrees owner slot r) ns h

module _ {R : Type 0} where
  -- A node has the bit of a slot exactly when it is the slot's owner.
  unfoldable pub Agrees : Cluster R → Type 0
  Agrees c = AllAgree c.owner c.nodes

  pub set_slot-Agrees :
      (slot : ℕ) → (new : Option ℕ) → (c : Cluster R) → Agrees c → Agrees (set_slot slot new c)
  unfolding Agrees set_slot
  set_slot-Agrees slot new c h =
      set-AllAgree c.owner slot new (write_bit false slot (c.owner slot) c.nodes)
        (unset-AllAgree c.owner slot (c.owner slot) refl c.nodes h)

  -- A write that leaves the slots of a node alone.
  pub update-Agrees :
      (c : Cluster R)
      → (r : ℕ) → (f : Node → Node) → ((n : Node) → (f n).slots ≡ n.slots)
      → ((n : Node) → (f n).ref ≡ n.ref)
      → Agrees c
      → Agrees (update c r f)
  unfolding Agrees update NodeAgrees
  update-Agrees c r f slots ref h =
      update_ref-AllAgree c.owner c.owner r f
        (λ n k. elim (Bool-cases (n.ref == r)) [
          | inl e ↦ rw e (λ i. rw (slots n, ref n) (k i))
          | inr e ↦ rw e k
        ])
        c.nodes h
